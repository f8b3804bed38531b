-- ===== src/MapModel/Bounds.antt =====
-- Where `correct_dog_position_inside_road` puts a dog.
use dog_game_cpp.Common.{◌≡◌, true, if◌then◌else◌, arith}
use dog_game_cpp.Float.{Float, ◌≼◌, IsNumber, IsOrdered}
use dog_game_cpp.DataTypes.{Point, RoadBoundRect, Inside, point_inside}
use dog_game_cpp.MapModel.{correct_dog_position_inside_road}

module _ {F : Type 0} ⦃f : Float F⦄ where
  pub Inside-of-point_inside :
      (r : RoadBoundRect F) (p : Point F) → point_inside r p ≡ true → Inside r p
  unfolding point_inside
  Inside-of-point_inside r p h = ground arith

  pub point_inside-of-Inside :
      (r : RoadBoundRect F) (p : Point F) → Inside r p → point_inside r p ≡ true
  unfolding point_inside
  point_inside-of-Inside r p h = ground arith

  -- A rectangle with its corners in order.
  abbrev pub IsProper : RoadBoundRect F → Type 0
  IsProper r = (r.min_point.x ≼ r.max_point.x) × (r.min_point.y ≼ r.max_point.y)

  module _ (laws : IsOrdered F) where
    open laws use {number_of_le, le_of_lt, le_of_not_lt, not_lt_of_le}

    clamp_bounds :
        (lo hi v : F)
        → lo ≼ hi
        → v ≼ v
        → let w = if f.lt v lo then lo else v in
          let c = if f.lt hi w then hi else w in (lo ≼ c) × (c ≼ hi)
    clamp_bounds lo hi v h n = ground (
      arith,
      number_of_le lo hi h,
      le_of_not_lt v lo n,
      le_of_not_lt hi v,
      le_of_not_lt hi lo,
      le_of_lt hi v,
    )

    clamp_inside :
        (lo hi v : F)
        → lo ≼ v
        → v ≼ hi
        → let w = if f.lt v lo then lo else v in (if f.lt hi w then hi else w) ≡ v
    clamp_inside lo hi v h k = ground (arith, not_lt_of_le lo v h, not_lt_of_le v hi k)

    -- If the corners of the rectangle are in order and the coordinates are numbers, the corrected
    -- position lies inside the rectangle.
    pub correct_dog_position_inside_road-Inside :
        (p : Point F) (r : RoadBoundRect F)
        → IsProper r
        → IsNumber p.x
        → IsNumber p.y
        → Inside r (correct_dog_position_inside_road p r)
    unfolding correct_dog_position_inside_road
    correct_dog_position_inside_road-Inside p r (hx, hy) nx ny =
        let (a, b) = clamp_bounds r.min_point.x r.max_point.x p.x hx nx in
        let (c, d) = clamp_bounds r.min_point.y r.max_point.y p.y hy ny in (a, b, c, d)

    -- A position that is inside is not changed.
    pub correct_dog_position_inside_road_fixes :
        (p : Point F) (r : RoadBoundRect F) → Inside r p → correct_dog_position_inside_road p r ≡ p
    unfolding correct_dog_position_inside_road
    correct_dog_position_inside_road_fixes p r h = λ i. record {
      x = clamp_inside r.min_point.x r.max_point.x p.x h.0 h.1 i;
      y = clamp_inside r.min_point.y r.max_point.y p.y h.2 h.3 i;
    }
