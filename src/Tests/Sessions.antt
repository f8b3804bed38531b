-- ===== src/Tests/Sessions.antt =====
-- The theorems on sessions at concrete values.
use Prim.Native.Nat.{max}
use dog_game_cpp.Common.{
  to_int, int_add, ℕ, ◌≤◌, ◌*ℤ◌, ◌+ℤ◌, ◌-ℤ◌, ◌≡◌, refl, subst, pos, true, false, List, [], ◌∷◌,
  ◌++◌, some, if◌then◌else◌, arith, ok, ok_injective, length, any_of, All,
}
use dog_game_cpp.Float.Fixed.{Fixed, fixed_float, Fixed-IsOrdered}
use dog_game_cpp.DataTypes.{LootInfo, stop, point_inside}
use dog_game_cpp.Collision.{Item, ItemType}
use dog_game_cpp.Collision.Spec.{IsMeasured}
use dog_game_cpp.Dog.{
  Dog, make_dog, move, movement, add_idle_time, add_play_time, change_position,
  evaluate_new_position, get_current_road_bound_rect, road_bound_rect,
}
use dog_game_cpp.Session.Data.{Player, GameSession, has_name}
use dog_game_cpp.Session.Looting.{LootDraw, add_loot_to_dog}
use dog_game_cpp.Session.Loot.{IsReady, Handled, add_loot_to_dog-Handled}
use dog_game_cpp.Session.Moves.{IsValidDog, CanMove}
use dog_game_cpp.Session.Rounds.{move_players_stops, IsValid, AreSettled, move_dogs-IsValid}
use dog_game_cpp.Session.Drops.{IsOnMap, CanHoldLoot}
use dog_game_cpp.Session.Spawn.{HasIds, generate_loot-Grows}
use dog_game_cpp.Session.Players.{add_player_lem}
use dog_game_cpp.Session.{
  move_dog, move_players, move_dogs, generate_loot, add_player, has_player_with_auth_token,
}
use dog_game_cpp.Tests.Whole.{whole_double, whole_IsDouble, lowest, lowest-IsUniform}
use dog_game_cpp.Tests.Sorting.{sort_events, sort_events-IsSort}
use dog_game_cpp.Tests.Values.{
  whole, point, town, runner, town-HasNumbers, runner-HasCurrentRoad, lost_key-HasType, second_key,
  anna, boris, session_of, key,
}

runner-IsReady : IsReady runner (second_key ∷ [])
unfolding make_dog
runner-IsReady = record {
  score_fits = (omega arith, omega arith);
  types =
      (lost_key-HasType, (record { index = 0; kind = key; type_is = refl; has_kind = refl }, tt));
}

-- A key on the way, then the office.
abbrev way : List (Item Fixed)
way =
    record { id = pos 8; position = point 2 0; width = whole 0; type = ItemType.loot }
    ∷ record { id = pos 0; position = point 3 0; width = whole 0; type = ItemType.office }
    ∷ []

keys-Handled :
    (dog' : Dog Fixed) × (loots' : List (LootInfo Fixed)) × (add_loot_to_dog runner
        (second_key ∷ [])
        way
      ≡ ok (dog', loots'))
    × Handled runner (second_key ∷ []) dog' loots'
keys-Handled = add_loot_to_dog-Handled runner (second_key ∷ []) way runner-IsReady

pub runner-IsValidDog : IsValidDog town runner
unfolding make_dog
runner-IsValidDog = record {
  same_map = refl;
  score_fits = (omega arith, omega arith);
  types = (lost_key-HasType, tt);
  on_road = runner-HasCurrentRoad;
  bag_fits = omega arith;
}

pub runner-CanMove : CanMove (pos 500) (add_play_time runner (pos 500))
unfolding make_dog add_play_time evaluate_new_position change_position get_current_road_bound_rect
    road_bound_rect point_inside ◌+ℤ◌ ◌-ℤ◌ ◌*ℤ◌
runner-CanMove = record {
  x_number = refl;
  y_number = refl;
  measured = λ d' e.
      let d = add_play_time runner (pos 500) in
      subst (λ (x : Dog Fixed). IsMeasured (movement d.position x.position)) (ok_injective e)
        (refl, refl);
}

unfoldable pub two_runners-IsValid : IsValid (session_of (anna ∷ boris ∷ []) (second_key ∷ []))
two_runners-IsValid = record {
  here = town;
  map_is = refl;
  loots_typed = (record { index = 0; kind = key; type_is = refl; has_kind = refl }, tt);
  dogs = (runner-IsValidDog, (runner-IsValidDog, tt));
}

both_move :
    let s = session_of (anna ∷ boris ∷ []) (second_key ∷ []) in
    (s' : GameSession Fixed ℕ) × (move_dogs ⦃s = record { sort = sort_events }⦄ s (pos 500) ≡ ok s')
    × IsValid s'
    × AreSettled (anna ∷ boris ∷ []) s'.players
both_move =
    move_dogs-IsValid ⦃sort = record { sort = sort_events }⦄ Fixed-IsOrdered
      (sort_events-IsSort Fixed-IsOrdered) (session_of (anna ∷ boris ∷ []) (second_key ∷ []))
      (pos 500) two_runners-IsValid (runner-CanMove, (runner-CanMove, tt))

abbrev resting : Dog Fixed
resting = record runner { direction = stop }

abbrev rested : Player Fixed
rested = record anna { dog = record resting { play_time = pos 500; idle_time = pos 500 } }

-- Anna's dog does not move; so that of Boris, which could, does not either.
anna_rests :
    move_players ⦃s = record { sort = sort_events }⦄
      (pos 500)
      (some town)
      []
      (record anna { dog = resting } ∷ boris ∷ [])
    ≡ ok (rested ∷ boris ∷ [], [])
unfolding move_players move_dog move add_play_time add_idle_time int_add make_dog to_int ◌+ℤ◌ ◌*ℤ◌
anna_rests = refl

boris_waits :
    (before' : List (Player Fixed)) × (p' : Player Fixed) × (length before' ≡ 0)
    × (rested ∷ boris ∷ [] ≡ before' ++ p' ∷ boris ∷ [])
boris_waits =
    move_players_stops ⦃s = record { sort = sort_events }⦄ (pos 500) (some town) [] [] (boris ∷ [])
      (record anna { dog = resting }) refl anna_rests

abbrev pub lowest_loot : LootDraw Fixed
lowest_loot = record { type_draw = lowest; road_draw = lowest; place_draw = lowest }

pub town-CanHoldLoot : CanHoldLoot town
town-CanHoldLoot = record {
  some_type = omega arith;
  some_road = omega arith;
  numbers = town-HasNumbers;
}

two_keys_appear :
    let s = session_of (anna ∷ boris ∷ []) [] in
    (s' : GameSession Fixed ℕ) × (new : List (LootInfo Fixed)) × (generate_loot
        (λ k. lowest_loot)
        s
        (pos 5000)
        town
      ≡ ok s')
    × (s'.loots_info ≡ new)
    × All (IsOnMap town) new
    × HasIds (pos 0) new
    × (length s'.loots_info ≤ max 0 2)
    × (s' ≡ record s {
      loots_info = s'.loots_info;
      loot_id = s'.loot_id;
      loot_generator = s'.loot_generator;
    })
unfolding ◌+ℤ◌
two_keys_appear =
    generate_loot-Grows Fixed-IsOrdered town town-CanHoldLoot whole_IsDouble (λ k. lowest_loot)
      (session_of (anna ∷ boris ∷ []) []) (pos 5000)
      (λ k. (lowest-IsUniform, lowest-IsUniform, lowest-IsUniform)) refl

clara_joins :
    let s = session_of (anna ∷ []) [] in
    let (s', p) = add_player s "Clara" town "cc" false (pos 3) in
    (p.name ≡ "Clara")
    × (has_player_with_auth_token s' p.token ≡ true)
    × (s'.players
        ≡ (if any_of (has_name "Clara") s.players then s.players else s.players ++ p ∷ []))
clara_joins = add_player_lem (session_of (anna ∷ []) []) "Clara" town "cc" false (pos 3)
