-- ===== src/Collision/Loops.antt =====
-- The two loops of `find_gather_events`, one round at a time.
use mathlib.Core.List.{Memᴰ}
use dog_game_cpp.Common.{
  ℕ, zero, suc, ◌+◌, ◌≡◌, refl, inl, inr, false, List, [], ◌∷◌, arith, All-map, ok, All, Bool-cases,
}
use dog_game_cpp.Float.{Float, IsOrdered}
use dog_game_cpp.DataTypes.{Point}
use dog_game_cpp.Collision.{
  CollectionResult, Item, Gatherer, GatheringEvent, is_collected, try_collect_point, measure,
  is_still, collect_items,
}
use dog_game_cpp.Collision.Spec.{IsMeasured, event, Collects, IsEvent, Covers}

module _ {F : Type 0} ⦃f : Float F⦄ where
  try_total :
      IsOrdered F
      → (g : Gatherer F) (c : Point F) → IsMeasured g
      → is_still g ≡ false
      → (r : CollectionResult F) × (try_collect_point g.start_pos g.end_pos c ≡ ok r)
  unfolding is_still try_collect_point
  try_total laws g c (nx, ny) m =
      let x = laws.abs-sub_self_le g.start_pos.x g.end_pos.x 1 10 nx in
      let y = laws.abs-sub_self_le g.start_pos.y g.end_pos.y 1 10 ny in
      (measure g.start_pos g.end_pos c, ground (arith, x, y))

  IsEvent-suc_item :
      (i j : ℕ) (gs : List (Gatherer F)) (item : Item F) (items : List (Item F))
      (e : GatheringEvent F)
      → IsEvent i (suc j) gs items e
      → IsEvent i j gs (item ∷ items) e
  IsEvent-suc_item i j gs item items e v = record {
    k = v.k;
    l = suc v.l;
    g = v.g;
    item = v.item;
    result = v.result;
    has_gatherer = v.has_gatherer;
    has_item = v.has_item;
    collects = v.collects;
    is_event = ground (arith, v.is_event);
  }

  pub IsEvent-suc_gatherer :
      (i j : ℕ) (g : Gatherer F) (gs : List (Gatherer F)) (items : List (Item F))
      (e : GatheringEvent F)
      → IsEvent (suc i) j gs items e
      → IsEvent i j (g ∷ gs) items e
  IsEvent-suc_gatherer i j g gs items e v = record {
    k = suc v.k;
    l = v.l;
    g = v.g;
    item = v.item;
    result = v.result;
    has_gatherer = v.has_gatherer;
    has_item = v.has_item;
    collects = v.collects;
    is_event = ground (arith, v.is_event);
  }

  module _ (laws : IsOrdered F) (i : ℕ) (g : Gatherer F) (n : IsMeasured g) where
    Covers-hit :
        (j : ℕ) (item : Item F) (items : List (Item F)) (r : CollectionResult F)
        (out : List (GatheringEvent F))
        → Collects g item r
        → Covers i (suc j) g items out
        → Covers i j g (item ∷ items) (event i j r ∷ out)
    Covers-hit j item items r out c h zero item' r' e c' =
        Memᴰ.head (ground (arith, c.tried, c'.tried))
    Covers-hit j item items r out c h (suc l) item' r' e c' =
        Memᴰ.tail (let q : suc j + l ≡ j + suc l = omega arith in rw (← q) (h l item' r' e c'))

    Covers-miss :
        (j : ℕ) (item : Item F) (items : List (Item F)) (r : CollectionResult F)
        (out : List (GatheringEvent F))
        → try_collect_point g.start_pos g.end_pos item.position ≡ ok r
        → is_collected r (f.add g.width item.width) ≡ false
        → Covers i (suc j) g items out
        → Covers i j g (item ∷ items) out
    Covers-miss j item items r out t m h zero item' r' e c' =
        absurd (ground (arith, c'.tried, c'.collected))
    Covers-miss j item items r out t m h (suc l) item' r' e c' =
        let q : suc j + l ≡ j + suc l = omega arith in rw (← q) (h l item' r' e c')

    pub collect_items_lem :
        (j : ℕ) (gs : List (Gatherer F)) (items : List (Item F))
        → is_still g ≡ false
        → (out : List (GatheringEvent F)) × (collect_items i g j items ≡ ok out)
          × All (IsEvent i j (g ∷ gs) items) out
          × Covers i j g items out
    unfolding collect_items
    collect_items_lem j gs [] m = ([], refl, tt, λ l item r e c. cc)
    collect_items_lem j gs (item ∷ items) m =
        let (r, t) = try_total laws g item.position n m in
        let (rest, e, sound, full) = collect_items_lem (suc j) gs items m in
        let kept = All-map rest (IsEvent-suc_item i j (g ∷ gs) item items) sound in
        elim (Bool-cases (is_collected r (f.add g.width item.width))) [
          | inl hit ↦
              let c : Collects g item r = record { moves = m; tried = t; collected = hit } in
              (
                event i j r ∷ rest,
                rw (t, e, hit),
                (
                  record {
                    k = 0;
                    l = 0;
                    g = g;
                    item = item;
                    result = r;
                    has_gatherer = refl;
                    has_item = refl;
                    collects = c;
                    is_event = ground arith;
                  },
                  kept,
                ),
                Covers-hit j item items r rest c full,
              )
          | inr miss ↦ (rest, rw (t, e, miss), kept, Covers-miss j item items r rest t miss full)
        ]
