-- ===== src/Pool/Slots.antt =====
-- The vector of a pool: the places of the connections that are out, then the connections that are in.

use dog_game_cpp.Common.{
  ℕ, zero, suc, ◌+◌, ◌-◌, ◌≡◌, refl, sym, ap, ◌∙◌, List, [], ◌∷◌, ◌++◌, map, Option, some, none,
  false, arith, ok, length, get_elem?, set, replicate, ltb, ◌==◌,
}
use dog_game_cpp.Pool.{ConnectionPool, fill, make_pool, has_free, take, return_connection}

module _ {C : Type 0} where
  abbrev pub slots_of : ℕ → List C → List (Option C)
  slots_of used free = replicate used none ++ map some free

  abbrev pub pool_of : ℕ → List C → ConnectionPool C
  pool_of used free = record { slots = slots_of used free; used_connections = used }

  length-slots_of : (used : ℕ) (free : List C) → length (slots_of used free) ≡ used + length free
  length-slots_of zero [] = omega arith
  length-slots_of zero (c ∷ free) = omega (arith, length-slots_of zero free)
  length-slots_of (suc used) free = omega (arith, length-slots_of used free)

  get_elem?-slots_of :
      (used : ℕ) (c : C) (free : List C) → get_elem? (slots_of used (c ∷ free)) used ≡ some (some c)
  get_elem?-slots_of zero c free = refl
  get_elem?-slots_of (suc used) c free = get_elem?-slots_of used c free

  set-slots_of-none :
      (used : ℕ) (c : C) (free : List C)
      → set (slots_of used (c ∷ free)) used none ≡ slots_of (suc used) free
  set-slots_of-none zero c free = refl
  set-slots_of-none (suc used) c free = ap (λ x. none ∷ x) (set-slots_of-none used c free)

  set-slots_of-some :
      (used : ℕ) (c : C) (free : List C)
      → set (slots_of (suc used) free) used (some c) ≡ slots_of used (c ∷ free)
  set-slots_of-some zero c free = refl
  set-slots_of-some (suc used) c free = ap (λ x. none ∷ x) (set-slots_of-some used c free)

  pub has_free-pool_of :
      (used : ℕ) (free : List C) → has_free (pool_of used free) ≡ ltb 0 (length free)
  unfolding has_free
  has_free-pool_of used free = ground (arith, length-slots_of used free)

  pub take-pool_of :
      (used : ℕ) (c : C) (free : List C)
      → take (pool_of used (c ∷ free)) ≡ ok (some c, pool_of (suc used) free)
  unfolding take
  take-pool_of used c free = rw (get_elem?-slots_of used c free, set-slots_of-none used c free)

  pub return_connection-pool_of :
      (used : ℕ) (c : C) (free : List C)
      → return_connection (pool_of (suc used) free) (some c) ≡ ok (pool_of used (c ∷ free))
  unfolding return_connection
  return_connection-pool_of used c free =
      let same : suc used - 1 ≡ used = omega arith in
      let some_used : (suc used == 0) ≡ false = ground arith in
      rw (same, some_used, set-slots_of-some used c free)

  -- The connections that the constructor makes, in order.
  abbrev pub created : (ℕ → C) → ℕ → ℕ → List C
  created connection_factory i zero = []
  created connection_factory i (suc n) = connection_factory i ∷ created connection_factory (suc i) n

  fill-created :
      (connection_factory : ℕ → C) (i n : ℕ)
      → fill connection_factory i n ≡ map some (created connection_factory i n)
  unfolding fill
  fill-created connection_factory i zero = refl
  fill-created connection_factory i (suc n) =
      ap (λ x. some (connection_factory i) ∷ x) (fill-created connection_factory (suc i) n)

  pub make_pool-pool_of :
      (capacity : ℕ) (connection_factory : ℕ → C)
      → make_pool capacity connection_factory ≡ pool_of 0 (created connection_factory 0 capacity)
  unfolding make_pool
  make_pool-pool_of capacity connection_factory =
      λ i. record { slots = fill-created connection_factory 0 capacity i; used_connections = 0 }

  -- A list of wrappers that all hold a connection, taken apart at one of them.
  pub record Split (hs : List C) (before after : List (Option C)) (c : C) : Type 0 where
    pub left : List C
    pub right : List C
    pub all_are : hs ≡ left ++ c ∷ right
    pub rest_are : before ++ after ≡ map some (left ++ right)

  pub held_parts :
      (hs : List C) (before after : List (Option C)) (c : C)
      → map some hs ≡ before ++ some c ∷ after
      → Split hs before after c
  held_parts [] [] after c e = cc
  held_parts [] (b ∷ before) after c e = cc
  held_parts (h ∷ hs) [] after c e = record {
    left = [];
    right = hs;
    all_are = let q : h ≡ c = cc e in ap (λ x. x ∷ hs) q;
    rest_are = let q : map some hs ≡ after = cc e in sym q;
  }
  held_parts (h ∷ hs) (b ∷ before) after c e =
      let inner = held_parts hs before after c (cc e) in
      record {
        left = h ∷ inner.left;
        right = inner.right;
        all_are = ap (λ x. h ∷ x) inner.all_are;
        rest_are =
            let q : b ≡ some h = cc e in
            ap (λ x. b ∷ x) inner.rest_are ∙ ap (λ x. x ∷ map some (inner.left ++ inner.right)) q;
      }

  pub all_hold :
      (hs : List C) (before after : List (Option C)) → ¬ (map some hs ≡ before ++ none ∷ after)
  all_hold [] [] after e = cc
  all_hold [] (b ∷ before) after e = cc
  all_hold (h ∷ hs) [] after e = cc
  all_hold (h ∷ hs) (b ∷ before) after e = all_hold hs before after (cc e)
