-- ===== src/Dog/Adjacency.antt =====
-- What the table of `find_adjacent_roads` holds.
use dog_game_cpp.Common.{
  ℕ, suc, ◌+◌, ◌-◌, ◌≤◌, ◌<◌, ◌≡◌, refl, ◌∙◌, Bool, true, false, Option-cases, lt-length, inl, inr,
  ◌&&◌, ◌||◌, List, [], ◌∷◌, none, some, arith, leb, ◌==◌, length, get_elem?, replicate,
  length-replicate,
}
use dog_game_cpp.Float.{Float}
use dog_game_cpp.MapModel.{Road}
use dog_game_cpp.Dog.Roads.{insert_at, are_linked, link, link_row, link_rows, find_adjacent_roads}
use dog_game_cpp.Dog.Table.{holds, is_pair, holds-insert_at, length-insert_at, holds-replicate}

module _ {F : Type 0} ⦃f : Float F⦄ where
  length-link :
      (i : ℕ) (ri : Road F) (j : ℕ) (rj : Road F) (t : List (List ℕ))
      → length (link i ri j rj t) ≡ length t
  unfolding link
  length-link i ri j rj t =
      ground (arith, length-insert_at j i (insert_at i j t), length-insert_at i j t)

  holds-link :
      (i : ℕ) (ri : Road F) (j : ℕ) (rj : Road F) (t : List (List ℕ)) (a b : ℕ)
      → i < length t
      → j < length t
      → holds (link i ri j rj t) a b ≡ ((are_linked ri rj && is_pair i j a b) || holds t a b)
  unfolding link
  holds-link i ri j rj t a b hi hj = ground (
    arith,
    holds-insert_at j i (insert_at i j t) a b,
    holds-insert_at i j t a b hi,
    length-insert_at i j t,
  )

  -- The pairs that one run of the inner loop enters, and those of the outer loop.
  row_hits : ℕ → Road F → ℕ → List (Road F) → ℕ → ℕ → Bool
  row_hits i ri j [] a b = false
  row_hits i ri j (rj ∷ rs) a b =
      (are_linked ri rj && is_pair i j a b) || row_hits i ri (suc j) rs a b

  hits : ℕ → List (Road F) → ℕ → ℕ → Bool
  hits i [] a b = false
  hits i (ri ∷ rs) a b = row_hits i ri (suc i) rs a b || hits (suc i) rs a b

  length-link_row :
      (i : ℕ) (ri : Road F) (j : ℕ) (rs : List (Road F)) (t : List (List ℕ))
      → length (link_row i ri j rs t) ≡ length t
  unfolding link_row
  length-link_row i ri j [] t = refl
  length-link_row i ri j (rj ∷ rs) t =
      length-link_row i ri (suc j) rs (link i ri j rj t) ∙ length-link i ri j rj t

  holds-link_row :
      (i : ℕ) (ri : Road F) (j : ℕ) (rs : List (Road F)) (t : List (List ℕ)) (a b : ℕ)
      → i < length t
      → j + length rs ≤ length t
      → holds (link_row i ri j rs t) a b ≡ (row_hits i ri j rs a b || holds t a b)
  unfolding link_row row_hits
  holds-link_row i ri j [] t a b hi hj = refl
  holds-link_row i ri j (rj ∷ rs) t a b hi hj = ground (
    arith,
    holds-link_row i ri (suc j) rs (link i ri j rj t) a b,
    holds-link i ri j rj t a b hi,
    length-link i ri j rj t,
  )

  length-link_rows :
      (i : ℕ) (rs : List (Road F)) (t : List (List ℕ)) → length (link_rows i rs t) ≡ length t
  unfolding link_rows
  length-link_rows i [] t = refl
  length-link_rows i (r ∷ rs) t =
      length-link_rows (suc i) rs (link_row i r (suc i) rs t) ∙ length-link_row i r (suc i) rs t

  holds-link_rows :
      (i : ℕ) (rs : List (Road F)) (t : List (List ℕ)) (a b : ℕ)
      → i + length rs ≤ length t
      → holds (link_rows i rs t) a b ≡ (hits i rs a b || holds t a b)
  unfolding link_rows hits
  holds-link_rows i [] t a b h = refl
  holds-link_rows i (r ∷ rs) t a b h = ground (
    arith,
    holds-link_rows (suc i) rs (link_row i r (suc i) rs t) a b,
    holds-link_row i r (suc i) rs t a b,
    length-link_row i r (suc i) rs t,
  )

  linked_to : Road F → List (Road F) → ℕ → Bool
  linked_to ra roads b = elim (get_elem? roads b) [ none ↦ false | some rb ↦ are_linked ra rb ]

  -- The roads at two places of the list are linked; places outside the list are not.
  pub linked_at : List (Road F) → ℕ → ℕ → Bool
  unfolding linked_to
  linked_at roads a b = elim (get_elem? roads a) [ none ↦ false | some ra ↦ linked_to ra roads b ]

  linked_at-nil : (roads : List (Road F)) (a b : ℕ) → roads ≡ [] → linked_at roads a b ≡ false
  unfolding linked_at
  linked_at-nil roads a b e = rw e

  linked_to-nil : (ra : Road F) (b : ℕ) → linked_to ra [] b ≡ false
  unfolding linked_to
  linked_to-nil ra b = refl

  linked_to-cons :
      (ra r : Road F) (rs : List (Road F)) (j b : ℕ)
      → j < b
      → linked_to ra (r ∷ rs) (b - j) ≡ linked_to ra rs (b - suc j)
  unfolding linked_to
  linked_to-cons ra r rs j b h = let e : b - j ≡ suc (b - suc j) = omega arith in rw e

  linked_at-cons :
      (r : Road F) (rs : List (Road F)) (i a b : ℕ)
      → i < a
      → i < b
      → linked_at (r ∷ rs) (a - i) (b - i) ≡ linked_at rs (a - suc i) (b - suc i)
  unfolding linked_at
  linked_at-cons r rs i a b h k =
      let e : a - i ≡ suc (a - suc i) = omega arith in
      let g : b - i ≡ suc (b - suc i) = omega arith in rw (e, g)

  linked_at-head :
      (r : Road F) (rs : List (Road F)) (i b : ℕ)
      → i < b
      → linked_at (r ∷ rs) (i - i) (b - i) ≡ linked_to r rs (b - suc i)
  unfolding linked_at
  linked_at-head r rs i b h =
      let e : i - i ≡ 0 = omega arith in let g : b - i ≡ suc (b - suc i) = omega arith in rw (e, g)

  linked_to-first :
      (ra r : Road F) (rs : List (Road F)) (j : ℕ) → linked_to ra (r ∷ rs) (j - j) ≡ are_linked ra r
  unfolding linked_to
  linked_to-first ra r rs j = let e : j - j ≡ 0 = omega arith in rw e

  row_hits_lem :
      (i : ℕ) (ri : Road F) (j : ℕ) (rs : List (Road F)) (a b : ℕ)
      → i < j
      → a < b
      → (row_hits i ri j rs a b ≡ (i == a && leb j b && linked_to ri rs (b - j)))
        × (row_hits i ri j rs b a ≡ (i == a && leb j b && linked_to ri rs (b - j)))
        × (row_hits i ri j rs a a ≡ false)
  unfolding row_hits
  row_hits_lem i ri j [] a b h k = ground (arith, linked_to-nil ri (b - j))
  row_hits_lem i ri j (rj ∷ rs) a b h k = ground (
    arith,
    row_hits_lem i ri (suc j) rs a b,
    linked_to-cons ri rj rs j b,
    linked_to-first ri rj rs b,
  )

  hits_lem :
      (i : ℕ) (rs : List (Road F)) (a b : ℕ)
      → a < b
      → (hits i rs a b ≡ (leb i a && linked_at rs (a - i) (b - i)))
        × (hits i rs b a ≡ (leb i a && linked_at rs (a - i) (b - i)))
        × (hits i rs a a ≡ false)
  unfolding hits
  hits_lem i [] a b k = ground (arith, linked_at-nil [] (a - i) (b - i))
  hits_lem i (r ∷ rs) a b k = ground (
    arith,
    row_hits_lem i r (suc i) rs a b,
    hits_lem (suc i) rs a b k,
    linked_at-cons r rs i a b,
    linked_at-head r rs a b,
  )

  -- The table that is built from a list of roads: for two places `a < b` both rows have the other
  -- place exactly when both places are in the list and `are_linked` holds of the two roads, in the
  -- order of the list; and the first row does not have its own place.
  pub find_adjacent_roads_lem :
      (roads : List (Road F)) (a b : ℕ)
      → a < b
      → (holds (find_adjacent_roads roads) a b ≡ linked_at roads a b)
        × (holds (find_adjacent_roads roads) b a ≡ linked_at roads a b)
        × (holds (find_adjacent_roads roads) a a ≡ false)
  unfolding find_adjacent_roads
  find_adjacent_roads_lem roads a b k =
      let fill = λ (c d : ℕ). holds-link_rows 0 roads (replicate (length roads) []) c d in
      ground (
        arith,
        hits_lem 0 roads a b k,
        fill a b,
        fill b a,
        fill a a,
        holds-replicate (length roads) a b,
        holds-replicate (length roads) b a,
        holds-replicate (length roads) a a,
        length-replicate {0} {A = List ℕ} (length roads) [],
      )

  pub length-find_adjacent_roads :
      (roads : List (Road F)) → length (find_adjacent_roads roads) ≡ length roads
  unfolding find_adjacent_roads
  length-find_adjacent_roads roads =
      length-link_rows 0 roads (replicate (length roads) []) ∙ length-replicate (length roads) []

  linked_at-lt_right :
      (roads : List (Road F)) (a b : ℕ) → linked_at roads a b ≡ true → b < length roads
  unfolding linked_at linked_to
  linked_at-lt_right roads a b h = elim (Option-cases (get_elem? roads b)) [
    | inl out ↦ ground (arith, h, out)
    | inr (r, e) ↦ lt-length roads b e
  ]

  linked_at-lt_left :
      (roads : List (Road F)) (a b : ℕ) → linked_at roads a b ≡ true → a < length roads
  unfolding linked_at
  linked_at-lt_left roads a b h = elim (Option-cases (get_elem? roads a)) [
    | inl out ↦ ground (arith, h, out)
    | inr (r, e) ↦ lt-length roads a e
  ]

  -- Every place in the table is a place in the list of roads.
  pub find_adjacent_roads-lt :
      (roads : List (Road F)) (a b : ℕ)
      → holds (find_adjacent_roads roads) a b ≡ true
      → b < length roads
  find_adjacent_roads-lt roads a b h = ground (
    arith,
    find_adjacent_roads_lem roads a b,
    find_adjacent_roads_lem roads b a,
    find_adjacent_roads_lem roads a (suc a) (omega arith),
    linked_at-lt_right roads a b,
    linked_at-lt_left roads b a,
  )
