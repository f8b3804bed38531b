-- ===== src/Collision/Events.antt =====
-- What `find_gather_events` returns.

use dog_game_cpp.Common.{
  ℕ, zero, suc, ◌+◌, ◌≡◌, refl, inl, inr, true, List, [], ◌∷◌, ◌++◌, some, arith, ok, get_elem?,
  All, All-map, All-Permᴰ, Memᴰ-append_left, Memᴰ-append_right, Memᴰ-Permᴰ, All-append, Bool-cases,
}
use dog_game_cpp.Float.{Float, IsOrdered, IsNumber}
use dog_game_cpp.Collision.{
  Item, Gatherer, GatheringEvent, EventSort, is_collected, is_still, collect, find_gather_events,
}
use dog_game_cpp.Collision.Spec.{IsMeasured, IsEvent, Covers, IsSorted, IsSort}
use dog_game_cpp.Collision.Loops.{IsEvent-suc_gatherer, collect_items_lem}

module _ {F : Type 0} ⦃f : Float F⦄ where
  -- Every item that a gatherer collects has its event in the list, gatherers counted from `i`.
  abbrev pub CoversAll : ℕ → List (Gatherer F) → List (Item F) → List (GatheringEvent F) → Type 0
  CoversAll i gs items out =
      (k : ℕ) (g : Gatherer F) → get_elem? gs k ≡ some g → Covers (i + k) 0 g items out

  CoversAll-cons :
      (i : ℕ) (g : Gatherer F) (gs : List (Gatherer F)) (items : List (Item F))
      (here more : List (GatheringEvent F))
      → Covers i 0 g items here
      → CoversAll (suc i) gs items more
      → CoversAll i (g ∷ gs) items (here ++ more)
  CoversAll-cons i g gs items here more h t zero g' q l item r e c =
      let z : i + 0 ≡ i = omega arith in
      let same : g ≡ g' = ground arith in Memᴰ-append_left more (rw z (h l item r e (rw same c)))
  CoversAll-cons i g gs items here more h t (suc k) g' q l item r e c =
      let z : i + suc k ≡ suc i + k = omega arith in
      Memᴰ-append_right here (rw z (t k g' q l item r e c))

  CoversAll-still :
      (i : ℕ) (g : Gatherer F) (gs : List (Gatherer F)) (items : List (Item F))
      (more : List (GatheringEvent F))
      → is_still g ≡ true
      → CoversAll (suc i) gs items more
      → CoversAll i (g ∷ gs) items more
  CoversAll-still i g gs items more s t zero g' q l item r e c =
      let same : g ≡ g' = ground arith in absurd (ground (arith, c.moves))
  CoversAll-still i g gs items more s t (suc k) g' q l item r e c =
      let z : i + suc k ≡ suc i + k = omega arith in rw z (t k g' q l item r e c)

  module _ (laws : IsOrdered F) where
    collect_lem :
        (i : ℕ) (gs : List (Gatherer F)) (items : List (Item F))
        → All IsMeasured gs
        → (out : List (GatheringEvent F)) × (collect i gs items ≡ ok out)
          × All (IsEvent i 0 gs items) out
          × CoversAll i gs items out
    unfolding collect
    collect_lem i [] items n = ([], refl, tt, λ k g q. cc)
    collect_lem i (g ∷ gs) items (n, ns) =
        let (more, e, sound, full) = collect_lem (suc i) gs items ns in
        let rest = All-map more (IsEvent-suc_gatherer i 0 g gs items) sound in
        elim (Bool-cases (is_still g)) [
          | inl s ↦ (more, rw (s, e), rest, CoversAll-still i g gs items more s full)
          | inr m ↦
              let (here, e', sound', full') = collect_items_lem laws i g n 0 gs items m in
              (
                here ++ more,
                rw (m, e', e),
                All-append (IsEvent i 0 (g ∷ gs) items) here more sound' rest,
                CoversAll-cons i g gs items here more full' full,
              )
        ]

    time-IsNumber :
        {gs : List (Gatherer F)} {items : List (Item F)} (e : GatheringEvent F)
        → IsEvent 0 0 gs items e
        → IsNumber e.time
    unfolding is_collected
    time-IsNumber e v =
        let (_, n) =
          laws.number_of_le (f.literal 0 0) v.result.proj_ratio
            (ground (arith, v.collects.collected)) in
        rw v.is_event n

    -- If `sort` keeps what the standard promises and the movement of every gatherer is a number, the
    -- `assert` does not fail, and the function returns a list in which: each event tells of an item
    -- that a moving gatherer collects, with its places in the lists, its distance and its time; each
    -- such item has its event; and no event stands before an earlier one.
    pub find_gather_events_lem :
        (s : EventSort F) (gs : List (Gatherer F)) (items : List (Item F))
        → IsSort s
        → All IsMeasured gs
        → (out : List (GatheringEvent F)) × (find_gather_events ⦃s = s⦄ items gs ≡ ok out)
          × All (IsEvent 0 0 gs items) out
          × CoversAll 0 gs items out
          × IsSorted out
    unfolding find_gather_events
    find_gather_events_lem s gs items sorts n =
        let (found, e, sound, full) = collect_lem 0 gs items n in
        let perm = sorts.sort-perm found in
        (
          s.sort found,
          rw e,
          All-Permᴰ (IsEvent 0 0 gs items) perm sound,
          λ k g q l item r h c. Memᴰ-Permᴰ perm (full k g q l item r h c),
          sorts.sort-IsSorted found (All-map found (λ x. time-IsNumber x) sound),
        )
