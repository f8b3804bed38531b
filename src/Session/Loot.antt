-- ===== src/Session/Loot.antt =====
-- The way of loot through `add_loot_to_dog` of src/core/GameSession.cpp.
use dog_game_cpp.Common.{
  ◌≡◌, refl, sym, ap, ◌∙◌, inl, inr, ℤ, pos, ◌+ℤ◌, +ℤ_assoc, int_laws, to_int, to_int-add,
  to_int-of-Fits, to_int-Fits, Fits, Bool, List, [], ◌∷◌, ◌++◌, some, arith, ok, length,
  length-append, leb, find_if, All, All-Permᴰ, Permᴰ, Bool-cases, Option-cases,
}
use mathlib.Core.List.{append_assoc}
use mathlib.Core.List.Permᴰ
use dog_game_cpp.DataTypes.{LootInfo}
use dog_game_cpp.MapModel.{GameMap}
use dog_game_cpp.Collision.{Item, ItemType}
use dog_game_cpp.Dog.{Dog, add_loot, to_size}
use dog_game_cpp.Dog.Bag.{HasType, score_of, total_score, BagFits, pass_loot_to_office_lem}
use dog_game_cpp.Session.Looting.{erase_first, has_loot_id, pick_up, visit, add_loot_to_dog}

module _ {ℓ} {A : Type ℓ} where
  Permᴰ-append_left : (zs : List A) {xs ys : List A} → Permᴰ xs ys → Permᴰ (zs ++ xs) (zs ++ ys)
  Permᴰ-append_left [] p = p
  Permᴰ-append_left (z ∷ zs) p = Permᴰ.cons refl (Permᴰ-append_left zs p)

pub All-split {ℓ κ} :
    {A : Type ℓ} (P : A → Type κ) (xs ys : List A) → All P (xs ++ ys) → All P xs × All P ys
All-split P [] ys h = (tt, h)
All-split P (x ∷ xs) ys (p, h) = let (l, r) = All-split P xs ys h in ((p, l), r)

module _ {F : Type 0} where
  erase_first-perm :
      (p : LootInfo F → Bool) (ls : List (LootInfo F)) {l : LootInfo F}
      → find_if p ls ≡ some l
      → Permᴰ (l ∷ erase_first p ls) ls
  unfolding erase_first
  erase_first-perm p [] e = cc
  erase_first-perm p (x ∷ ls) {l} e = elim (Bool-cases (p x)) [
    | inl hit ↦ rw hit (Permᴰ.cons (ground (arith, e, hit)) (Permᴰ.refl ls))
    | inr miss ↦
        let rest = erase_first-perm p ls {l = l} (ground (arith, e, miss)) in
        rw miss (Permᴰ.trans (Permᴰ.swap refl refl) (Permᴰ.cons refl rest))
  ]

  total_score-append :
      (m : GameMap F) (xs ys : List (LootInfo F))
      → total_score m (xs ++ ys) ≡ total_score m xs +ℤ total_score m ys
  unfolding total_score
  total_score-append m [] ys = omega int_laws
  total_score-append m (x ∷ xs) ys =
      ap (λ t. score_of m x +ℤ t) (total_score-append m xs ys)
      ∙ sym (+ℤ_assoc (score_of m x) (total_score m xs) (total_score m ys))

  -- From one state of a dog and of the loot on the map to another: the loot that was handed in, that
  -- in the bag and that on the map are together the loot of before; the score has grown by what was
  -- handed in, wrapped once to an `int`; the bag is within its capacity if it was; and nothing of the
  -- dog but its score and its bag has changed.
  pub record Handled (dog : Dog F) (loots : List (LootInfo F)) (dog' : Dog F)
      (loots' : List (LootInfo F)) : Type 0 where
    pub delivered : List (LootInfo F)
    pub conserved :
        Permᴰ (delivered ++ (dog'.gathered_loots ++ loots')) (dog.gathered_loots ++ loots)
    pub score_is : dog'.score ≡ to_int (dog.score +ℤ total_score dog.map delivered)
    pub fits : BagFits dog → BagFits dog'
    pub rest_is : dog' ≡ record dog { score = dog'.score; gathered_loots = dog'.gathered_loots }

  plus_nothing :
      (m : GameMap F) (score : ℤ) → Fits score → score ≡ to_int (score +ℤ total_score m [])
  unfolding total_score
  plus_nothing m score h =
      let e : score +ℤ pos 0 ≡ score = omega int_laws in rw e (sym (to_int-of-Fits score h))

  Handled-refl :
      (dog : Dog F) (loots : List (LootInfo F)) → Fits dog.score → Handled dog loots dog loots
  Handled-refl dog loots h = record {
    delivered = [];
    conserved = Permᴰ.refl _;
    score_is = plus_nothing dog.map dog.score h;
    fits = λ b. b;
    rest_is = refl;
  }

  Handled-trans :
      {dog : Dog F} {loots : List (LootInfo F)} {dog' : Dog F} {loots' : List (LootInfo F)}
      {dog'' : Dog F} {loots'' : List (LootInfo F)}
      → Handled dog loots dog' loots'
      → Handled dog' loots' dog'' loots''
      → Handled dog loots dog'' loots''
  Handled-trans {dog} {loots} {dog'} {loots'} {dog''} {loots''} a b = record {
    delivered = a.delivered ++ b.delivered;
    conserved =
        rw append_assoc (Permᴰ.trans (Permᴰ-append_left a.delivered b.conserved) a.conserved);
    score_is = score_sum;
    fits = λ h. b.fits (a.fits h);
    rest_is =
        b.rest_is
        ∙ ap
            (λ (x : Dog F). record x { score = dog''.score; gathered_loots = dog''.gathered_loots })
            a.rest_is;
  }
    where
      same_map : dog'.map ≡ dog.map
      same_map = ap (λ (x : Dog F). x.map) a.rest_is

      score_sum :
          dog''.score ≡ to_int (dog.score +ℤ total_score dog.map (a.delivered ++ b.delivered))
      score_sum =
          let first = total_score dog.map a.delivered in
          let second = total_score dog.map b.delivered in
          b.score_is
          ∙ ap (λ m. to_int (dog'.score +ℤ total_score m b.delivered)) same_map
          ∙ ap (λ t. to_int (t +ℤ second)) a.score_is
          ∙ to_int-add (dog.score +ℤ first) second
          ∙ ap to_int (+ℤ_assoc dog.score first second)
          ∙ ap (λ t. to_int (dog.score +ℤ t))
              (sym (total_score-append dog.map a.delivered b.delivered))

  pick_up-Handled :
      (dog : Dog F) (loots : List (LootInfo F)) (id : ℤ)
      → Fits dog.score
      → let (dog', loots') = pick_up dog loots id in Handled dog loots dog' loots'
  unfolding pick_up add_loot
  pick_up-Handled dog loots id h = elim (Option-cases (find_if (has_loot_id id) loots)) [
    | inl e ↦ rw (e, pick_up) (Handled-refl dog loots h)
    | inr (l, e) ↦ elim (Bool-cases (leb (to_size dog.bag_capacity) (length dog.gathered_loots))) [
      | inl full ↦ rw (e, pick_up, full, add_loot) (Handled-refl dog loots h)
      | inr room ↦
          rw (e, pick_up, room, add_loot)
            (record {
              delivered = [];
              conserved = rw append_assoc (
                  Permᴰ-append_left dog.gathered_loots (erase_first-perm (has_loot_id id) loots e));
              score_is = plus_nothing dog.map dog.score h;
              fits = λ b. ground (arith, room, length-append dog.gathered_loots (l ∷ []));
              rest_is = refl;
            })
    ]
  ]

  -- What is needed for a visit: the score is an `int`, and all loot has one of the map's types.
  pub record IsReady (dog : Dog F) (loots : List (LootInfo F)) : Type 0 where
    pub score_fits : Fits dog.score
    pub types : All (HasType dog.map) (dog.gathered_loots ++ loots)

  pub Handled-IsReady :
      {dog : Dog F} {loots : List (LootInfo F)} {dog' : Dog F} {loots' : List (LootInfo F)}
      → IsReady dog loots
      → Handled dog loots dog' loots'
      → IsReady dog' loots'
  Handled-IsReady {dog} {loots} {dog'} {loots'} r h = record {
    score_fits = rw h.score_is (to_int-Fits _);
    types =
        let same_map : dog'.map ≡ dog.map = ap (λ (x : Dog F). x.map) h.rest_is in
        rw same_map
          (All-split (HasType dog.map) h.delivered (dog'.gathered_loots ++ loots')
            (All-Permᴰ (HasType dog.map) h.conserved r.types)).1;
  }

  visit-Handled :
      (dog : Dog F) (loots : List (LootInfo F)) (item : Item F) (type : ItemType)
      → item.type ≡ type
      → IsReady dog loots
      → (dog' : Dog F) × (loots' : List (LootInfo F)) × (visit dog loots item ≡ ok (dog', loots'))
        × Handled dog loots dog' loots'
  unfolding visit
  visit-Handled dog loots item ItemType.loot e r =
      let (dog', loots') = pick_up dog loots item.id in
      (dog', loots', rw (e, visit), pick_up-Handled dog loots item.id r.score_fits)
  visit-Handled dog loots item ItemType.office e r =
      let own = (All-split (HasType dog.map) dog.gathered_loots loots r.types).0 in
      (
        record dog {
          score = to_int (dog.score +ℤ total_score dog.map dog.gathered_loots);
          gathered_loots = [];
        },
        loots,
        rw (e, visit) (rw (pass_loot_to_office_lem dog r.score_fits own)),
        record {
          delivered = dog.gathered_loots;
          conserved = Permᴰ.refl _;
          score_is = refl;
          fits = λ _. omega arith;
          rest_is = refl;
        },
      )

  -- If the score is an `int` and all loot has a type of the map, the loop over the gathered items
  -- returns, and handles the loot as `Handled` says: none is lost or made up, the score grows by
  -- exactly what is handed in, and the bag stays within its capacity.
  pub add_loot_to_dog-Handled :
      (dog : Dog F) (loots : List (LootInfo F)) (items : List (Item F))
      → IsReady dog loots
      → (dog' : Dog F) × (loots' : List (LootInfo F)) × (add_loot_to_dog dog loots items
          ≡ ok (dog', loots'))
        × Handled dog loots dog' loots'
  unfolding add_loot_to_dog
  add_loot_to_dog-Handled dog loots [] r = (dog, loots, refl, Handled-refl dog loots r.score_fits)
  add_loot_to_dog-Handled dog loots (item ∷ items) r =
      let (dog', loots', e, h) = visit-Handled dog loots item item.type refl r in
      let (dog'', loots'', e', h') =
        add_loot_to_dog-Handled dog' loots' items (Handled-IsReady r h) in
      (dog'', loots'', rw e e', Handled-trans h h')
