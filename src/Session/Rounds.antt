-- ===== src/Session/Rounds.antt =====
-- The loop of `MoveDogs` of src/core/GameSession.cpp.
use dog_game_cpp.Common.{
  ◌≡◌, refl, sym, ap, suc, ◌∙◌, inl, inr, ℤ, int_add, Bool, true, false, List, [], ◌∷◌, ◌++◌,
  Option, some, none, Result, ok, All, length, >>=-eq-ok, ok_injective, Bool-cases,
}
use dog_game_cpp.Float.{Float, IsOrdered}
use dog_game_cpp.DataTypes.{LootInfo}
use dog_game_cpp.MapModel.{GameMap}
use dog_game_cpp.Collision.{Gatherer, EventSort}
use dog_game_cpp.Collision.Spec.{IsSort}
use dog_game_cpp.Dog.{Dog, move, is_stop, movement, has_moved, add_idle_time, add_play_time}
use dog_game_cpp.Dog.Bag.{HasType}
use dog_game_cpp.Dog.Placement.{
  Settles, IsInside-IsPlaced, IsInside-SamePlace, change_position-IsPlaced,
}
use dog_game_cpp.Dog.Frame.{change_position_frame}
use dog_game_cpp.Session.Data.{Player, GameSession}
use dog_game_cpp.Session.{gather, move_dog, move_players, move_dogs}
use dog_game_cpp.Session.Moves.{
  IsValidDog, CanMove, IsValidDog-clocks, IsValidDog-moved, Runs, gather_total,
}

module _ {F : Type 0} ⦃f : Float F⦄ where
  -- The dogs of all players are valid.
  abbrev pub AreValid : GameMap F → List (Player F) → Type 0
  AreValid m = All (λ p. IsValidDog m p.dog)

  -- Each dog has come to a place inside the rectangle of its current road, or has stayed where it was.
  abbrev pub AreSettled : List (Player F) → List (Player F) → Type 0
  AreSettled [] [] = Unit
  AreSettled [] (p' ∷ ps') = ⊥
  AreSettled (p ∷ ps) [] = ⊥
  AreSettled (p ∷ ps) (p' ∷ ps') = Settles p.dog p'.dog × AreSettled ps ps'

  AreSettled-refl : (ps : List (Player F)) → AreSettled ps ps
  AreSettled-refl [] = tt
  AreSettled-refl (p ∷ ps) = (inr (refl, refl, refl), AreSettled-refl ps)

  -- The dogs of all players can move for the time.
  abbrev pub CanAllMove : ℤ → List (Player F) → Type 0
  CanAllMove delta_time = All (λ p. CanMove delta_time (add_play_time p.dog delta_time))

module _ {F : Type 0} ⦃f : Float F⦄ ⦃s : EventSort F⦄ where
  first_of : {x y : List (Player F) × List (LootInfo F)} → x ≡ y → x.0 ≡ y.0
  first_of e = ap (λ (z : List (Player F) × List (LootInfo F)). z.0) e

  -- If `MoveDogs` returns and one dog has the direction `stop`, then the loop has ended there at the
  -- latest: the players after it are as they were, neither moved nor given any time.
  pub move_players_stops :
      (delta_time : ℤ) (m : Option (GameMap F)) (loots : List (LootInfo F))
      (before after : List (Player F)) (p : Player F) {ps' : List (Player F)}
      {loots' : List (LootInfo F)}
      → is_stop p.dog.direction ≡ true
      → move_players delta_time m loots (before ++ p ∷ after) ≡ ok (ps', loots')
      → (before' : List (Player F)) × (p' : Player F) × (length before' ≡ length before)
        × (ps' ≡ before' ++ p' ∷ after)
  unfolding move_players move_dog move add_play_time
  move_players_stops delta_time m loots [] after p still e =
      let q = rw still at e in ([], _, refl, sym (first_of (ok_injective q)))
  move_players_stops delta_time m loots (q ∷ before) after p still e =
      let ((dog, loots1, goes_on), e1, e2) = >>=-eq-ok (move_dog delta_time m loots q.dog) _ e in
      let q' = record q { dog = dog } in
      elim (Bool-cases goes_on) [
        | inl on ↦
            let k = rw on at e2 in
            let ((ps, loots2), e3, e4) =
              >>=-eq-ok (move_players delta_time m loots1 (before ++ p ∷ after)) _ k in
            let (before', p', same, l) =
              move_players_stops delta_time m loots1 before after p still e3 in
            (q' ∷ before', p', ap suc same, sym (first_of (ok_injective e4)) ∙ ap (λ xs. q' ∷ xs) l)
        | inr off ↦ let k = rw off at e2 in (q' ∷ before, p, refl, sym (first_of (ok_injective k)))
      ]

  module _ (laws : IsOrdered F) (sorts : IsSort s) (m : GameMap F) (delta_time : ℤ) where
    -- `move` followed by what the loop does with its answer.
    finish :
        List (LootInfo F) → Dog F × Option (Gatherer F) → Result (Dog F × List (LootInfo F) × Bool)
    finish loots (d', none) = ok (add_idle_time d' delta_time, loots, false)
    finish loots (d', some g) = gather (some m) loots d' g

    rests :
        (d : Dog F) (loots : List (LootInfo F))
        → IsValidDog m d
        → All (HasType m) loots
        → (P : Dog F → Type 0) → P (add_idle_time d delta_time)
        → Runs P m (ok (add_idle_time d delta_time, loots, false))
    unfolding add_idle_time
    rests d loots v t P place = (
      add_idle_time d delta_time,
      loots,
      false,
      refl,
      IsValidDog-clocks m d (int_add d.idle_time delta_time) d.play_time v,
      place,
      t,
    )

    move_dog_total :
        (d : Dog F) (loots : List (LootInfo F))
        → IsValidDog m d
        → CanMove delta_time (add_play_time d delta_time)
        → All (HasType m) loots
        → Runs (Settles d) m (move_dog delta_time (some m) loots d)
    unfolding move_dog move add_play_time add_idle_time
    move_dog_total d loots v c t =
        let d0 = add_play_time d delta_time in
        let v0 = IsValidDog-clocks m d d.idle_time (int_add d.play_time delta_time) v in
        elim (Bool-cases (is_stop d.direction)) [
          | inl still ↦ rw still (rests d0 loots v0 t (Settles d) (inr (refl, refl, refl)))
          | inr free ↦
              let (d', e, placed) =
                change_position-IsPlaced laws d0 delta_time v0.on_road c.x_number c.y_number in
              let v' =
                IsValidDog-moved m d0 d' v0 (change_position_frame d0 delta_time e)
                  placed.on_road in
              let inside = IsInside-IsPlaced d' placed in
              elim (Bool-cases (has_moved d0.position d'.position)) [
                | inl moved ↦
                    rw (free, e, moved)
                      (gather_total laws sorts m (Settles d) d' loots
                        (movement d0.position d'.position)
                        (λ x same. inl (IsInside-SamePlace d' x same inside)) (c.measured d' e) v'
                        t)
                | inr unmoved ↦ rw (free, e, unmoved) (rests d' loots v' t (Settles d) (inl inside))
              ]
        ]

    move_players_total :
        (loots : List (LootInfo F)) (ps : List (Player F))
        → AreValid m ps
        → CanAllMove delta_time ps
        → All (HasType m) loots
        → (ps' : List (Player F)) × (loots' : List (LootInfo F)) × (move_players delta_time
              (some m)
              loots
              ps
            ≡ ok (ps', loots'))
          × AreValid m ps'
          × AreSettled ps ps'
          × All (HasType m) loots'
    unfolding move_players
    move_players_total loots [] v c t = ([], loots, refl, tt, tt, t)
    move_players_total loots (p ∷ ps) (v, vs) (c, cs) t =
        let (d', loots', goes_on, e, v', settled, t') = move_dog_total p.dog loots v c t in
        elim (Bool-cases goes_on) [
          | inl on ↦
              let (ps', loots'', e', vs', others, t'') = move_players_total loots' ps vs cs t' in
              (
                record p { dog = d' } ∷ ps',
                loots'',
                rw (e, on, e'),
                (v', vs'),
                (settled, others),
                t'',
              )
          | inr off ↦ (
            record p { dog = d' } ∷ ps,
            loots',
            rw (e, off),
            (v', vs),
            (settled, AreSettled-refl ps),
            t',
          )
        ]

module _ {F D : Type 0} ⦃f : Float F⦄ where
  -- The session has its map, and all loot and all dogs are valid on it.
  pub record IsValid (s : GameSession F D) : Type 0 where
    pub here : GameMap F
    pub map_is : s.map ≡ some here
    pub loots_typed : All (HasType here) s.loots_info
    pub dogs : AreValid here s.players

  -- On a valid session in whose movements no NaN arises, and with a sort that keeps what the standard
  -- promises, `MoveDogs` returns: no vector is read out of bounds and no `assert` fails; and the
  -- session is valid afterwards: each dog has a current road, each bag is within its capacity, each loot
  -- of one of the map's types. Moreover each dog has come to a place inside the rectangle of its current
  -- road, or has stayed where it was.
  pub move_dogs-IsValid :
      ⦃sort : EventSort F⦄
      → IsOrdered F
      → IsSort sort
      → (s : GameSession F D) (delta_time : ℤ) → IsValid s
      → CanAllMove delta_time s.players
      → (s' : GameSession F D) × (move_dogs s delta_time ≡ ok s')
        × IsValid s'
        × AreSettled s.players s'.players
  unfolding move_dogs
  move_dogs-IsValid laws sorts s delta_time v c =
      let (players, loots, e, vs, settled, t) =
        move_players_total laws sorts v.here delta_time s.loots_info s.players v.dogs c
          v.loots_typed in
      (
        record s { players = players; loots_info = loots },
        rw (v.map_is, e),
        record { here = v.here; map_is = v.map_is; loots_typed = t; dogs = vs },
        settled,
      )
