-- ===== src/MapModel/Crossing.antt =====
-- When `roads_crossed` calls two roads crossed.
use dog_game_cpp.Common.{◌≡◌, true, ◌⊎◌, ◌↔◌, arith}
use dog_game_cpp.Float.{Float, ◌≼◌, IsNumber, IsOrdered}
use dog_game_cpp.DataTypes.{Point, horizontal, vertical}
use dog_game_cpp.MapModel.{make_road, roads_crossed}

module _ {F : Type 0} ⦃f : Float F⦄ where
  -- The value stands between the two ends, in either order.
  abbrev pub Between : F → F → F → Type 0
  Between a b v = (a ≼ v) × (v ≼ b) ⊎ (b ≼ v) × (v ≼ a)

  module _ (laws : IsOrdered F) where
    open laws use {le_of_lt, le_of_not_lt, not_lt_of_le, eq-le}

    -- A horizontal and a vertical road, all coordinates numbers, are called crossed exactly when the
    -- height of the first lies between the ends of the second. Where the second stands to the side
    -- of the first does not matter.
    pub roads_crossed_iff :
        (p q : Point F) (x1 y1 : F)
        → IsNumber p.y
        → IsNumber q.x
        → IsNumber q.y
        → IsNumber y1
        → (roads_crossed (make_road horizontal p x1) (make_road vertical q y1) ≡ true)
          ↔ Between q.y y1 p.y
    unfolding roads_crossed make_road
    roads_crossed_iff p q x1 y1 np nqx nqy n1 = ground (
      arith,
      eq-le p.y p.y,
      eq-le q.x q.x,
      le_of_lt q.y p.y,
      le_of_lt y1 p.y,
      le_of_lt p.y q.y,
      le_of_lt p.y y1,
      le_of_not_lt q.y p.y nqy np,
      le_of_not_lt y1 p.y n1 np,
      le_of_not_lt p.y q.y np nqy,
      le_of_not_lt p.y y1 np n1,
      not_lt_of_le q.y p.y,
      not_lt_of_le y1 p.y,
      not_lt_of_le p.y q.y,
      not_lt_of_le p.y y1,
    )
