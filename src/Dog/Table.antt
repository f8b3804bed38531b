-- ===== src/Dog/Table.antt =====
-- The table of sets that `find_adjacent_roads` fills, one insertion at a time.
use dog_game_cpp.Common.{
  ℕ, zero, suc, ◌<◌, ◌≡◌, refl, ap, Bool, false, ◌&&◌, ◌||◌, List, [], ◌∷◌, if◌then◌else◌, arith,
  ◌==◌, length, get_or, set, replicate,
}
use dog_game_cpp.Dog.Roads.{set_insert, contains, insert_at}

contains-set_insert :
    (v w : ℕ) (xs : List ℕ) → contains (set_insert v xs) w ≡ (v == w || contains xs w)
unfolding set_insert
contains-set_insert v w [] = ground arith
contains-set_insert v w (x ∷ xs) = ground (arith, contains-set_insert v w xs)

-- The entry of the table for the pair.
abbrev pub holds : List (List ℕ) → ℕ → ℕ → Bool
holds table a b = contains (get_or table a []) b

get_or-set :
    (t : List (List ℕ)) (k : ℕ) (v : List ℕ) (a : ℕ)
    → k < length t
    → get_or (set t k v) a [] ≡ (if k == a then v else get_or t a [])
get_or-set [] k v a h = elim h [ ]
get_or-set (x ∷ t) zero v zero h = refl
get_or-set (x ∷ t) zero v (suc a) h = ground arith
get_or-set (x ∷ t) (suc k) v zero h = ground arith
get_or-set (x ∷ t) (suc k) v (suc a) h = ground (arith, get_or-set t k v a)

length-set : (t : List (List ℕ)) (k : ℕ) (v : List ℕ) → length (set t k v) ≡ length t
length-set [] k v = refl
length-set (x ∷ t) zero v = refl
length-set (x ∷ t) (suc k) v = ap suc (length-set t k v)

pub holds-insert_at :
    (k v : ℕ) (t : List (List ℕ)) (a b : ℕ)
    → k < length t
    → holds (insert_at k v t) a b ≡ ((k == a && v == b) || holds t a b)
unfolding insert_at
holds-insert_at k v t a b h = ground (
  arith,
  get_or-set t k (set_insert v (get_or t k [])) a h,
  contains-set_insert v b (get_or t k []),
)

pub length-insert_at : (k v : ℕ) (t : List (List ℕ)) → length (insert_at k v t) ≡ length t
unfolding insert_at
length-insert_at k v t = length-set t k _

-- The pair is `(i, j)`, in either order.
abbrev pub is_pair : ℕ → ℕ → ℕ → ℕ → Bool
is_pair i j a b = (i == a && j == b) || (j == a && i == b)

pub holds-replicate : (n a b : ℕ) → holds (replicate n []) a b ≡ false
holds-replicate zero a b = refl
holds-replicate (suc n) zero b = refl
holds-replicate (suc n) (suc a) b = holds-replicate n a b
