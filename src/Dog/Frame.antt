-- ===== src/Dog/Frame.antt =====
-- What `change_position` and `move` of src/core/Dog.cpp leave alone.
use dog_game_cpp.Common.{
  ◌≡◌, refl, ℤ, Option, some, none, ok, ok_injective, subst, >>=-eq-ok, Bool-cases, inl, inr, ℕ,
}
use dog_game_cpp.Float.{Float}
use dog_game_cpp.DataTypes.{Point, RoadBoundRect, point_inside}
use dog_game_cpp.Dog.{
  Dog, get_current_road_bound_rect, enter_road, leave_road, search_position_inside_adjacent_roads,
  evaluate_new_position, change_position,
}

-- Only the position, the speed and the current road may differ.
abbrev pub SameButPlace : {F : Type 0} → Dog F → Dog F → Type 0
SameButPlace d d' = d' ≡ record d {
  position = d'.position;
  speed = d'.speed;
  current_road_index = d'.current_road_index;
}

module _ {F : Type 0} ⦃f : Float F⦄ where
  enter_road_frame :
      (d : Dog F) (p : Point F) (r : RoadBoundRect F) (o : Option ℕ)
      → SameButPlace d (enter_road d p r o)
  unfolding enter_road
  enter_road_frame d p r none = refl
  enter_road_frame d p r (some i) = refl

  leave_road_frame :
      (d : Dog F) (p : Point F) (r : RoadBoundRect F) {d' : Dog F}
      → leave_road d p r ≡ ok d'
      → SameButPlace d d'
  unfolding leave_road
  leave_road_frame d p r e =
      let (o, _, q) = >>=-eq-ok (search_position_inside_adjacent_roads d p) _ e in
      subst (SameButPlace d) (ok_injective q) (enter_road_frame d p r o)

  pub change_position_frame :
      (d : Dog F) (delta_time : ℤ) {d' : Dog F}
      → change_position d delta_time ≡ ok d'
      → SameButPlace d d'
  unfolding change_position
  change_position_frame d delta_time e =
      let (r, _, q) = >>=-eq-ok (get_current_road_bound_rect d d.current_road_index) _ e in
      let p = evaluate_new_position d delta_time in
      elim (Bool-cases (point_inside r p)) [
        | inl hit ↦ subst (SameButPlace d) (ok_injective (rw hit at q)) refl
        | inr miss ↦ leave_road_frame d p r (rw miss at q)
      ]
