-- ===== src/Tests/Sorting.antt =====
-- A sort of events, by insertion, which keeps what `IsSort` asks of `std::sort`.
use mathlib.Core.List.{Permᴰ}
use mathlib.Core.List.Permᴰ
use dog_game_cpp.Common.{
  ◌≡◌, refl, false, List, [], ◌∷◌, if◌then◌else◌, All, All-Permᴰ, Bool-cases, inl, inr,
}
use dog_game_cpp.Float.{Float, IsNumber, IsOrdered}
use dog_game_cpp.Collision.{GatheringEvent}
use dog_game_cpp.Collision.Spec.{IsSorted, IsSort}

module _ {F : Type 0} ⦃f : Float F⦄ where
  abbrev pub insert_event : GatheringEvent F → List (GatheringEvent F) → List (GatheringEvent F)
  insert_event e [] = e ∷ []
  insert_event e (x ∷ xs) = if f.lt x.time e.time then x ∷ insert_event e xs else e ∷ x ∷ xs

  abbrev pub sort_events : List (GatheringEvent F) → List (GatheringEvent F)
  sort_events [] = []
  sort_events (e ∷ es) = insert_event e (sort_events es)

  insert_event-perm :
      (e : GatheringEvent F) (es : List (GatheringEvent F)) → Permᴰ (insert_event e es) (e ∷ es)
  insert_event-perm e [] = Permᴰ.refl _
  insert_event-perm e (x ∷ xs) = elim (Bool-cases (f.lt x.time e.time)) [
    | inl later ↦
        rw later (Permᴰ.trans (Permᴰ.cons refl (insert_event-perm e xs)) (Permᴰ.swap refl refl))
    | inr sooner ↦ rw sooner (Permᴰ.refl _)
  ]

  sort_events-perm : (es : List (GatheringEvent F)) → Permᴰ (sort_events es) es
  sort_events-perm [] = Permᴰ.refl _
  sort_events-perm (e ∷ es) =
      Permᴰ.trans (insert_event-perm e (sort_events es)) (Permᴰ.cons refl (sort_events-perm es))

  module _ (laws : IsOrdered F) where
    not_before :
        (a b c : F)
        → IsNumber a
        → IsNumber b
        → IsNumber c
        → f.lt b a ≡ false
        → f.lt c b ≡ false
        → f.lt c a ≡ false
    not_before a b c na nb nc h k =
        laws.not_lt_of_le a c
          (laws.le_trans a b c (laws.le_of_not_lt b a nb na h) (laws.le_of_not_lt c b nc nb k))

    abbrev Timed : List (GatheringEvent F) → Type 0
    Timed = All (λ e. IsNumber e.time)

    no_earlier :
        (e x : GatheringEvent F) (xs : List (GatheringEvent F))
        → IsNumber e.time
        → IsNumber x.time
        → f.lt x.time e.time ≡ false
        → Timed xs
        → All (λ y. f.lt y.time x.time ≡ false) xs
        → All (λ y. f.lt y.time e.time ≡ false) xs
    no_earlier e x [] ne nx h n s = tt
    no_earlier e x (y ∷ ys) ne nx h (ny, n) (s, ss) =
        (not_before e.time x.time y.time ne nx ny h s, no_earlier e x ys ne nx h n ss)

    insert_event-IsSorted :
        (e : GatheringEvent F) (es : List (GatheringEvent F))
        → IsNumber e.time
        → Timed es
        → IsSorted es
        → IsSorted (insert_event e es)
    insert_event-IsSorted e [] ne n s = (tt, tt)
    insert_event-IsSorted e (x ∷ xs) ne (nx, n) (s, ss) = elim (Bool-cases (f.lt x.time e.time)) [
      | inl later ↦
          let behind = laws.not_lt_of_le x.time e.time (laws.le_of_lt x.time e.time later) in
          rw later (
            All-Permᴰ (λ y. f.lt y.time x.time ≡ false) (insert_event-perm e xs) (behind, s),
            insert_event-IsSorted e xs ne n ss,
          )
      | inr sooner ↦ rw sooner ((sooner, no_earlier e x xs ne nx sooner n s), (s, ss))
    ]

    sort_events-IsSorted : (es : List (GatheringEvent F)) → Timed es → IsSorted (sort_events es)
    sort_events-IsSorted [] n = tt
    sort_events-IsSorted (e ∷ es) (ne, n) =
        insert_event-IsSorted e (sort_events es) ne
          (All-Permᴰ (λ y. IsNumber y.time) (sort_events-perm es) n) (sort_events-IsSorted es n)

    pub sort_events-IsSort : IsSort (record { sort = sort_events })
    sort_events-IsSort = record {
      sort-perm = sort_events-perm;
      sort-IsSorted = sort_events-IsSorted;
    }
