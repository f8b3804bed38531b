-- ===== src/Session/Moves.antt =====
-- `MoveDogs` of src/core/GameSession.cpp.
use dog_game_cpp.Common.{
  ◌≡◌, refl, sym, ap, ◌∙◌, ℤ, pos, Fits, Bool, true, List, [], ◌∷◌, ◌++◌, some, arith, Result, ok,
  at-pos, All, All-append, subst,
}
use dog_game_cpp.Float.{Float, IsNumber, IsOrdered}
use dog_game_cpp.DataTypes.{LootInfo}
use dog_game_cpp.MapModel.{GameMap}
use dog_game_cpp.Collision.{Item, Gatherer, GatheringEvent, EventSort}
use dog_game_cpp.Collision.Spec.{IsMeasured, IsEvent, IsSort}
use dog_game_cpp.Collision.Events.{find_gather_events_lem}
use dog_game_cpp.Dog.{Dog, change_position, evaluate_new_position, movement, set_idle_time}
use dog_game_cpp.Dog.Bag.{HasType, BagFits}
use dog_game_cpp.Dog.Placement.{HasCurrentRoad, SamePlace}
use dog_game_cpp.Dog.Frame.{SameButPlace}
use dog_game_cpp.Session.Looting.{items_of, items_at, get_gathered_items}
use dog_game_cpp.Session.Loot.{
  IsReady, Handled, Handled-IsReady, All-split, add_loot_to_dog-Handled,
}
use dog_game_cpp.Session.{gather}

module _ {F : Type 0} ⦃f : Float F⦄ where
  items_at_total :
      (g : Gatherer F) (items : List (Item F)) (es : List (GatheringEvent F))
      → All (IsEvent 0 0 (g ∷ []) items) es
      → (found : List (Item F)) × (items_at items es ≡ ok found)
  unfolding items_at
  items_at_total g items [] h = ([], refl)
  items_at_total g items (e ∷ es) (v, vs) =
      let (found, q) = items_at_total g items es vs in
      let index : e.item_id ≡ v.l = ground (arith, v.is_event) in
      let here = at-pos items (pos e.item_id) v.l (ap pos index) v.has_item in
      (v.item ∷ found, rw (here, q))

  -- What holds of each dog of a session on the map.
  pub record IsValidDog (m : GameMap F) (d : Dog F) : Type 0 where
    pub same_map : d.map ≡ m
    pub score_fits : Fits d.score
    pub types : All (HasType m) d.gathered_loots
    pub on_road : HasCurrentRoad d
    pub bag_fits : BagFits d

  -- No NaN arises when the dog moves: its new position and the way it goes are numbers.
  pub record CanMove (delta_time : ℤ) (d : Dog F) : Type 0 where
    pub x_number : IsNumber (evaluate_new_position d delta_time).x
    pub y_number : IsNumber (evaluate_new_position d delta_time).y
    pub measured :
        (d' : Dog F)
        → change_position d delta_time ≡ ok d'
        → IsMeasured (movement d.position d'.position)

  -- The clocks, the score and the bag do not matter for the place.
  HasCurrentRoad-counters :
      (d : Dog F) (score idle play : ℤ) (bag : List (LootInfo F))
      → HasCurrentRoad d
      → HasCurrentRoad
          (record d { score = score; gathered_loots = bag; idle_time = idle; play_time = play })
  HasCurrentRoad-counters d score idle play bag v = record {
    index = v.index;
    road = v.road;
    is_current = v.is_current;
    has_road = v.has_road;
    closed = v.closed;
    numbers = v.numbers;
  }

  pub IsValidDog-clocks :
      (m : GameMap F) (d : Dog F) (idle play : ℤ)
      → IsValidDog m d
      → IsValidDog m (record d { idle_time = idle; play_time = play })
  IsValidDog-clocks m d idle play v = record {
    same_map = v.same_map;
    score_fits = v.score_fits;
    types = v.types;
    on_road = HasCurrentRoad-counters d d.score idle play d.gathered_loots v.on_road;
    bag_fits = v.bag_fits;
  }

  pub IsValidDog-moved :
      (m : GameMap F) (d d' : Dog F)
      → IsValidDog m d
      → SameButPlace d d'
      → HasCurrentRoad d'
      → IsValidDog m d'
  IsValidDog-moved m d d' v same r = record {
    same_map = ap (λ (x : Dog F). x.map) same ∙ v.same_map;
    score_fits = subst Fits (sym (ap (λ (x : Dog F). x.score) same)) v.score_fits;
    types = subst (All (HasType m)) (sym (ap (λ (x : Dog F). x.gathered_loots) same)) v.types;
    on_road = r;
    bag_fits = subst BagFits (sym same) v.bag_fits;
  }

  IsReady-of-IsValidDog :
      (m : GameMap F) (d : Dog F) (loots : List (LootInfo F))
      → IsValidDog m d
      → All (HasType m) loots
      → IsReady d loots
  IsReady-of-IsValidDog m d loots v t = record {
    score_fits = v.score_fits;
    types =
        subst (λ n. All (HasType n) (d.gathered_loots ++ loots)) (sym v.same_map)
          (All-append (HasType m) d.gathered_loots loots v.types t);
  }

  IsValidDog-Handled :
      (m : GameMap F) (d d' : Dog F) (loots loots' : List (LootInfo F))
      → IsValidDog m d
      → All (HasType m) loots
      → Handled d loots d' loots'
      → IsValidDog m d' × All (HasType m) loots'
  IsValidDog-Handled m d d' loots loots' v t h =
      let ready = Handled-IsReady (IsReady-of-IsValidDog m d loots v t) h in
      let same = ap (λ (x : Dog F). x.map) h.rest_is ∙ v.same_map in
      let (bag, rest) =
        All-split (HasType m) d'.gathered_loots loots'
          (subst (λ n. All (HasType n) (d'.gathered_loots ++ loots')) same ready.types) in
      (
        record {
          same_map = same;
          score_fits = ready.score_fits;
          types = bag;
          on_road = subst HasCurrentRoad (sym h.rest_is) (
              HasCurrentRoad-counters d d'.score d.idle_time d.play_time d'.gathered_loots
                v.on_road);
          bag_fits = h.fits v.bag_fits;
        },
        rest,
      )

  -- A run of the loop's body that returns, and leaves a valid dog, with what `P` says of it, and loot of
  -- the map's types.
  abbrev pub Runs :
      (Dog F → Type 0) → GameMap F → Result (Dog F × List (LootInfo F) × Bool) → Type 0
  Runs P m r =
      (d' : Dog F) × (loots' : List (LootInfo F)) × (goes_on : Bool) × (r
        ≡ ok (d', loots', goes_on))
      × IsValidDog m d'
      × P d'
      × All (HasType m) loots'

  module _ ⦃s : EventSort F⦄ (laws : IsOrdered F) (sorts : IsSort s) (m : GameMap F) where
    -- The dog stays where it is.
    pub gather_total :
        (P : Dog F → Type 0) (d : Dog F) (loots : List (LootInfo F)) (g : Gatherer F)
        → ((x : Dog F) → SamePlace d x → P x)
        → IsMeasured g
        → IsValidDog m d
        → All (HasType m) loots
        → Runs P m (gather (some m) loots d g)
    unfolding gather get_gathered_items set_idle_time
    gather_total P d loots g stays n v t =
        let items = items_of loots m.offices in
        let (es, e, sound, _, _) = find_gather_events_lem laws s (g ∷ []) items sorts (n, tt) in
        let (found, q) = items_at_total g items es sound in
        let d0 = set_idle_time d (pos 0) in
        let v0 = IsValidDog-clocks m d (pos 0) d.play_time v in
        let (d', loots', h, handled) =
          add_loot_to_dog-Handled d0 loots found (IsReady-of-IsValidDog m d0 loots v0 t) in
        let (v', t') = IsValidDog-Handled m d0 d' loots loots' v0 t handled in
        let same = handled.rest_is in
        let place : SamePlace d d' = (
          ap (λ (x : Dog F). x.current_road_index) same,
          ap (λ (x : Dog F). x.roads) same,
          ap (λ (x : Dog F). x.position) same,
        ) in
        (d', loots', true, rw (e, q, h), v', stays d' place, t')
