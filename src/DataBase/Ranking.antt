-- ===== src/DataBase/Ranking.antt =====
-- The order of the query of src/db/postgres.cpp: by score, the highest first, then by time of play.
use dog_game_cpp.Common.{
  ℕ, ◌+◌, ◌<◌, ◌≡◌, refl, sym, ◌∙◌, subst, inl, inr, ℤ, Bool, true, false, ◌&&◌, ◌||◌, eqb_ℤ,
  eqb_ℤ_iff, ltb_ℤ, leb_ℤ, List, [], ◌∷◌, if◌then◌else◌, arith, Bool-cases, Permᴰ, All,
}

-- What the rows are ordered by: the score and the time of play.
abbrev pub Key : Type 0
Key = ℤ × ℤ

abbrev pub ranks : Key → Key → Bool
ranks a b = ltb_ℤ b.0 a.0 || (eqb_ℤ b.0 a.0 && leb_ℤ a.1 b.1)

-- Each key ranks before all later ones.
abbrev pub IsRanked : List Key → Type 0
IsRanked [] = Unit
IsRanked (k ∷ ks) = All (λ j. ranks k j ≡ true) ks × IsRanked ks

same_key : Key → Key → Bool
same_key a b = eqb_ℤ a.0 b.0 && eqb_ℤ a.1 b.1

same_key_eq : (a b : Key) → same_key a b ≡ true → a ≡ b
unfolding same_key
same_key_eq (a, x) (b, y) e =
    let p : a ≡ b = (eqb_ℤ_iff a b).0 (ground (arith, e)) in
    let q : x ≡ y = (eqb_ℤ_iff x y).0 (ground (arith, e)) in rw (p, q) refl

same_key_refl : (a : Key) → same_key a a ≡ true
unfolding same_key
same_key_refl a = ground arith

same_key_sym : (a b : Key) → same_key a b ≡ same_key b a
unfolding same_key
same_key_sym a b = ground arith

ranks_antisym : (a b : Key) → ranks a b ≡ true → ranks b a ≡ true → same_key a b ≡ true
unfolding same_key
ranks_antisym a b h k = ground (arith, h, k)

count : Key → List Key → ℕ
count k [] = 0
count k (j ∷ js) = (if same_key k j then 1 else 0) + count k js

count-Permᴰ : (k : Key) {xs ys : List Key} → Permᴰ xs ys → count k xs ≡ count k ys
unfolding count
count-Permᴰ k Permᴰ.nil = refl
count-Permᴰ k (Permᴰ.cons e p) = rw (e, count-Permᴰ k p) refl
count-Permᴰ k (Permᴰ.swap e g) = rw (e, g) (omega arith)
count-Permᴰ k (Permᴰ.trans p q) = count-Permᴰ k p ∙ count-Permᴰ k q

-- A key that occurs ranks as all keys do.
count-ranks :
    (a k : Key) (ks : List Key) → All (λ j. ranks a j ≡ true) ks → 0 < count k ks → ranks a k ≡ true
unfolding count
count-ranks a k [] h n = absurd (omega (arith, n))
count-ranks a k (j ∷ js) (h, hs) n = elim (Bool-cases (same_key k j)) [
  | inl hit ↦ subst (λ x. ranks a x ≡ true) (sym (same_key_eq k j hit)) h
  | inr miss ↦ count-ranks a k js hs (ground (arith, n, miss))
]

ranked_unique :
    (xs ys : List Key) → IsRanked xs → IsRanked ys → ((k : Key) → count k xs ≡ count k ys) → xs ≡ ys
unfolding count
ranked_unique [] [] r s c = refl
ranked_unique [] (y ∷ ys) r s c =
    let e = c y in let q = same_key_refl y in absurd (ground (arith, e, q))
ranked_unique (x ∷ xs) [] r s c =
    let e = c x in let q = same_key_refl x in absurd (ground (arith, e, q))
ranked_unique (x ∷ xs) (y ∷ ys) (rx, r) (sy, s) c = elim (Bool-cases (same_key x y)) [
  | inl hit ↦
      let q = same_key_eq x y hit in
      let rest : (k : Key) → count k xs ≡ count k ys = λ k.
        let e = c k in let t : same_key k x ≡ same_key k y = rw q refl in ground (arith, e, t) in
      rw (q, ranked_unique xs ys r s rest) refl
  | inr miss ↦
      let miss' : same_key y x ≡ false = ground (arith, miss, same_key_sym x y) in
      let ex = c x in
      let ey = c y in
      let hx = same_key_refl x in
      let hy = same_key_refl y in
      let yx = count-ranks y x ys sy (ground (arith, ex, hx, miss)) in
      let xy = count-ranks x y xs rx (ground (arith, ey, hy, miss')) in
      let both = ranks_antisym x y xy yx in cc
]

-- A list has one ranked order of its keys.
pub ranked_order : {xs ys : List Key} → IsRanked xs → IsRanked ys → Permᴰ xs ys → xs ≡ ys
ranked_order {xs} {ys} r s p = ranked_unique xs ys r s (λ k. count-Permᴰ k p)
