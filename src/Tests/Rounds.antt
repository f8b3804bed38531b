-- ===== src/Tests/Rounds.antt =====
-- The theorem on a tick of the game at a concrete game.
use dog_game_cpp.Common.{ℕ, ◌≡◌, refl, pos, ◌+ℤ◌, [], ◌∷◌, ok, ◌>>=◌, All}
use dog_game_cpp.Float.Fixed.{Fixed, fixed_float, Fixed-IsOrdered}
use dog_game_cpp.Session.Data.{GameSession}
use dog_game_cpp.Game.Data.{Game}
use dog_game_cpp.Game.{generate_loot, move_dogs}
use dog_game_cpp.Game.Rounds.{IsRunning, CanTick, map_ids, tick_total}
use dog_game_cpp.Tests.Whole.{whole_double, whole_IsDouble, lowest-IsUniform}
use dog_game_cpp.Tests.Sorting.{sort_events-IsSort}
use dog_game_cpp.Tests.Games.{game_of}
use dog_game_cpp.Tests.Sessions.{lowest_loot, runner-CanMove, two_runners-IsValid, town-CanHoldLoot}
use dog_game_cpp.Tests.Servers.{fixed_sort}
use dog_game_cpp.Tests.Values.{town, anna, boris, session_of, second_key}

abbrev busy : GameSession Fixed ℕ
busy = session_of (anna ∷ boris ∷ []) (second_key ∷ [])

busy-IsRunning : IsRunning (("town", town) ∷ []) busy
unfolding two_runners-IsValid
busy-IsRunning = record { valid = two_runners-IsValid; stored = refl; holds = town-CanHoldLoot }

busy-CanTick : CanTick (pos 500) busy
unfolding ◌+ℤ◌
busy-CanTick = record { chance_number = refl; moves = (runner-CanMove, (runner-CanMove, tt)) }

half_a_second :
    (g' : Game Fixed ℕ ℕ) × ((generate_loot (λ i j. lowest_loot) (game_of (busy ∷ [])) (pos 500)
        >>= λ x. move_dogs x (pos 500))
      ≡ ok g')
    × (g'.storage ≡ (game_of (busy ∷ [])).storage)
    × (map_ids g'.sessions ≡ "town" ∷ [])
    × All (IsRunning (("town", town) ∷ [])) g'.sessions
half_a_second =
    tick_total Fixed-IsOrdered whole_IsDouble (sort_events-IsSort Fixed-IsOrdered)
      (λ i j. lowest_loot) (game_of (busy ∷ [])) (pos 500)
      (λ i k. (lowest-IsUniform, lowest-IsUniform, lowest-IsUniform)) (busy-IsRunning, tt)
      (busy-CanTick, tt)
