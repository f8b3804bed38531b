-- ===== src/Common/Members.antt =====
-- Membership and permutations, as families that can be matched.
use mathlib.Core.List.{Permᴰ, Memᴰ}
use mathlib.Core.Path.{sym, ◌∙◌}
use mathlib.Core.List.{List, [], ◌∷◌, ◌++◌}
use dog_game_cpp.Common.Lists.{All}

pub All-map {ℓ κ μ} :
    {A : Type ℓ} {P : A → Type κ} {Q : A → Type μ} (xs : List A)
    → ((x : A) → P x → Q x)
    → All P xs
    → All Q xs
All-map [] h ps = tt
All-map (x ∷ xs) h (p, ps) = (h x p, All-map xs h ps)

pub All-Permᴰ {ℓ κ} :
    {A : Type ℓ} (P : A → Type κ) {xs ys : List A} → Permᴰ xs ys → All P ys → All P xs
All-Permᴰ P Permᴰ.nil h = tt
All-Permᴰ P (Permᴰ.cons e p) h = (rw e h.0, All-Permᴰ P p h.1)
All-Permᴰ P (Permᴰ.swap e g) h = (rw e h.1.0, (rw g h.0, h.1.1))
All-Permᴰ P (Permᴰ.trans p q) h = All-Permᴰ P p (All-Permᴰ P q h)

module _ {ℓ} {A : Type ℓ} {e : A} where
  pub Memᴰ-append_right : {xs : List A} (ys : List A) → Memᴰ e xs → Memᴰ e (ys ++ xs)
  Memᴰ-append_right [] m = m
  Memᴰ-append_right (y ∷ ys) m = Memᴰ.tail (Memᴰ-append_right ys m)

  pub Memᴰ-append_left : {xs : List A} (ys : List A) → Memᴰ e xs → Memᴰ e (xs ++ ys)
  Memᴰ-append_left ys (Memᴰ.head q) = Memᴰ.head q
  Memᴰ-append_left ys (Memᴰ.tail m) = Memᴰ.tail (Memᴰ-append_left ys m)

  pub Memᴰ-Permᴰ : {xs ys : List A} → Permᴰ xs ys → Memᴰ e ys → Memᴰ e xs
  Memᴰ-Permᴰ Permᴰ.nil m = elim m [ ]
  Memᴰ-Permᴰ (Permᴰ.cons q p) (Memᴰ.head r) = Memᴰ.head (r ∙ sym q)
  Memᴰ-Permᴰ (Permᴰ.cons q p) (Memᴰ.tail m) = Memᴰ.tail (Memᴰ-Permᴰ p m)
  Memᴰ-Permᴰ (Permᴰ.swap q p) (Memᴰ.head r) = Memᴰ.tail (Memᴰ.head (r ∙ sym p))
  Memᴰ-Permᴰ (Permᴰ.swap q p) (Memᴰ.tail (Memᴰ.head r)) = Memᴰ.head (r ∙ sym q)
  Memᴰ-Permᴰ (Permᴰ.swap q p) (Memᴰ.tail (Memᴰ.tail m)) = Memᴰ.tail (Memᴰ.tail m)
  Memᴰ-Permᴰ (Permᴰ.trans p q) m = Memᴰ-Permᴰ p (Memᴰ-Permᴰ q m)
