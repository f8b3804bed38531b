-- ===== src/Serializer/Members.antt =====
-- What a client finds in the objects of src/serialization/json_serializer.cpp.
use dog_game_cpp.Common.{
  other_key, ℕ, zero, suc, ◌+◌, ◌<◌, pos, ◌≡◌, refl, ◌∙◌, List, [], ◌∷◌, String, str_eq, true,
  false, if◌then◌else◌, Option, some, none, lookup, Bool-cases, ◌≢◌, subst, Option-cases, inl, inr,
  eq_iff, eq_refl, get_elem?, arith,
}
use dog_game_cpp.DataTypes.{LootInfo}
use dog_game_cpp.Session.Data.{Player}
use dog_game_cpp.Serializer.{
  JsonWriter, set_member, set_players, set_loots, serialize_players, serialize_loots, dog_object,
  loot_object,
}

lookup-set_member {ℓ} :
    {V : Type ℓ} (key : String) (v : V) (members : List (String × V))
    → lookup key (set_member key v members) ≡ some v
unfolding set_member
lookup-set_member key v [] = rw (eq_refl key) refl
lookup-set_member key v ((k, u) ∷ members) = elim (Bool-cases (str_eq k key)) [
  | inl y ↦ rw (y, y) refl
  | inr n ↦ rw (n, n) (lookup-set_member key v members)
]

lookup-set_member_same {ℓ} :
    {V : Type ℓ} (key other : String) (v : V) (members : List (String × V))
    → str_eq key other ≡ true
    → lookup other (set_member key v members) ≡ some v
lookup-set_member_same key other v members y =
    subst (λ x. lookup x (set_member key v members) ≡ some v) ((eq_iff key other).0 y)
      (lookup-set_member key v members)

lookup-set_member_other {ℓ} :
    {V : Type ℓ} (key other : String) (v : V) (members : List (String × V))
    → str_eq key other ≡ false
    → lookup other (set_member key v members) ≡ lookup other members
unfolding set_member
lookup-set_member_other key other v [] h = rw h refl
lookup-set_member_other key other v ((k, u) ∷ members) h = elim (Bool-cases (str_eq k key)) [
  | inl y ↦ rw (y, other_key k key other y h) refl
  | inr n ↦ elim (Bool-cases (str_eq k other)) [
    | inl q ↦ rw (n, q) refl
    | inr q ↦ rw (n, q) (lookup-set_member_other key other v members h)
  ]
]

module _ {F D V : Type 0} (w : JsonWriter F D V) where
  -- The last player whose id is written as the key.
  unfoldable pub last_with : String → List (Player F) → Option (Player F)
  last_with key [] = none
  last_with key (p ∷ players) = elim (last_with key players) [
    | some q ↦ some q
    | none ↦ if str_eq (w.to_string p.id) key then some p else none
  ]

  lookup-set_players :
      (value : Player F → V) (key : String) (players : List (Player F))
      (members : List (String × V))
      → lookup key (set_players w value players members)
        ≡ elim (last_with key players) [ some p ↦ some (value p) | none ↦ lookup key members ]
  unfolding set_players last_with
  lookup-set_players value key [] members = refl
  lookup-set_players value key (p ∷ players) members =
      let later =
        lookup-set_players value key players (set_member (w.to_string p.id) (value p) members) in
      elim (Option-cases (last_with key players)) [
        | inr (q, e) ↦ rw e (rw e at later)
        | inl e ↦ elim (Bool-cases (str_eq (w.to_string p.id) key)) [
          | inl y ↦
              rw (e, y)
                ((rw e at later)
                  ∙ lookup-set_member_same (w.to_string p.id) key (value p) members y)
          | inr n ↦
              rw (e, n)
                ((rw e at later)
                  ∙ lookup-set_member_other (w.to_string p.id) key (value p) members n)
        ]
      ]

  apart :
      ((i k : ℕ) → str_eq (w.to_string (pos i)) (w.to_string (pos k)) ≡ true → i ≡ k)
      → (i k : ℕ) → i ≢ k
      → str_eq (w.to_string (pos i)) (w.to_string (pos k)) ≡ false
  apart distinct i k h = elim (Bool-cases (str_eq (w.to_string (pos i)) (w.to_string (pos k)))) [
    | inl y ↦ absurd (h (distinct i k y))
    | inr n ↦ n
  ]

  earlier_loots :
      ((i k : ℕ) → str_eq (w.to_string (pos i)) (w.to_string (pos k)) ≡ true → i ≡ k)
      → (k i : ℕ) (loots : List (LootInfo F)) (members : List (String × V)) → k < i
      → lookup (w.to_string (pos k)) (set_loots w i loots members)
        ≡ lookup (w.to_string (pos k)) members
  unfolding set_loots
  earlier_loots distinct k i [] members h = refl
  earlier_loots distinct k i (loot ∷ loots) members h =
      earlier_loots distinct k (suc i) loots
        (set_member (w.to_string (pos i)) (loot_object w loot) members) (omega (arith, h))
      ∙ lookup-set_member_other (w.to_string (pos i)) (w.to_string (pos k)) (loot_object w loot)
          members (apart distinct i k (λ e. omega (arith, h, e)))

  lookup-set_loots :
      ((i k : ℕ) → str_eq (w.to_string (pos i)) (w.to_string (pos k)) ≡ true → i ≡ k)
      → (k n i : ℕ) (loots : List (LootInfo F)) (members : List (String × V)) → k ≡ i + n
      → lookup (w.to_string (pos k)) (set_loots w i loots members) ≡ elim (get_elem? loots n) [
        | some loot ↦ some (loot_object w loot)
        | none ↦ lookup (w.to_string (pos k)) members
      ]
  unfolding set_loots
  lookup-set_loots distinct k n i [] members h = refl
  lookup-set_loots distinct k zero i (loot ∷ loots) members h =
      let same : i ≡ k = omega (arith, h) in
      earlier_loots distinct k (suc i) loots
        (set_member (w.to_string (pos i)) (loot_object w loot) members) (omega (arith, h))
      ∙ lookup-set_member_same (w.to_string (pos i)) (w.to_string (pos k)) (loot_object w loot)
          members (rw same (eq_refl (w.to_string (pos k))))
  lookup-set_loots distinct k (suc n) i (loot ∷ loots) members h =
      let next =
        lookup-set_loots distinct k n (suc i) loots
          (set_member (w.to_string (pos i)) (loot_object w loot) members) (omega (arith, h)) in
      elim (Option-cases (get_elem? loots n)) [
        | inr (x, e) ↦ rw e (rw e at next)
        | inl e ↦ rw e (
            (rw e at next)
            ∙ lookup-set_member_other (w.to_string (pos i)) (w.to_string (pos k))
                (loot_object w loot) members (apart distinct i k (λ q. omega (arith, h, q))))
      ]

  -- Where `std::to_string` writes different indices differently, the state that is sent has under
  -- each key the dog of the last player whose id is written as that key, and nothing if there is no
  -- such player: of players with one id only the last is sent. And it has each lost loot under its
  -- index, and nothing under the indices after the last.
  pub serialize_state_lem :
      (players : List (Player F)) (loots : List (LootInfo F)) (key : String) (k : ℕ)
      → ((i k : ℕ) → str_eq (w.to_string (pos i)) (w.to_string (pos k)) ≡ true → i ≡ k)
      → (lookup key (serialize_players w players)
          ≡ elim (last_with key players) [ some p ↦ some (dog_object w p) | none ↦ none ])
        × (lookup (w.to_string (pos k)) (serialize_loots w loots)
            ≡ elim (get_elem? loots k) [ some loot ↦ some (loot_object w loot) | none ↦ none ])
  unfolding serialize_players serialize_loots
  serialize_state_lem players loots key k distinct = (
    lookup-set_players (dog_object w) key players [],
    lookup-set_loots distinct k k 0 loots [] (omega arith),
  )
