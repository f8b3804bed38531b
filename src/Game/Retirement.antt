-- ===== src/Game/Retirement.antt =====
-- src/core/Game.cpp: the players that have been idle too long, from `find_expired_players` to
-- `handle_retired_players`. `SaveRetiredPlayer`, which writes to the data base, is the list of the
-- records that it is given.
use dog_game_cpp.Common.{
  Bool, true, false, not, List, [], ◌∷◌, ◌++◌, map, if◌then◌else◌, Result, ok, ◌>>=◌, keep_if,
  String,
}
use dog_game_cpp.Float.{Float}
use dog_game_cpp.DataTypes.{PlayerRecordItem}
use dog_game_cpp.Session.Data.{Player, GameSession}
use dog_game_cpp.Session.{delete_player, get_player_with_auth_token}
use dog_game_cpp.Game.Data.{Game}

is_empty {ℓ} : {A : Type ℓ} → List A → Bool
is_empty [] = true
is_empty (_ ∷ _) = false

-- The record that is written for a player.
unfoldable pub player_record : {F : Type 0} → Player F → PlayerRecordItem
player_record p = record { name = p.name; score = p.dog.score; play_time = p.dog.play_time }

unfoldable pub save_expired_players : {F : Type 0} → List (Player F) → List PlayerRecordItem
save_expired_players = map player_record

module _ {F D : Type 0} where
  -- The inner loop of `delete_expired_players`. Its `break` stands outside the `if`, so that only the
  -- first session is looked at.
  unfoldable pub delete_expired : String → List (GameSession F D) → Result (List (GameSession F D))
  delete_expired token [] = ok []
  delete_expired token (s ∷ ss) = do
    candidate ← get_player_with_auth_token s token
    ok (delete_player s candidate.address ∷ ss)

  unfoldable pub delete_expired_players :
      List (Player F) → List (GameSession F D) → Result (List (GameSession F D))
  delete_expired_players [] sessions = ok sessions
  delete_expired_players (p ∷ ps) sessions =
      delete_expired p.token sessions >>= delete_expired_players ps

  -- Only the sessions without players are collected and removed.
  unfoldable pub delete_empty_sessions : List (GameSession F D) → List (GameSession F D)
  unfolding is_empty
  delete_empty_sessions = keep_if (λ s. not (is_empty s.players))

module _ {F D G : Type 0} ⦃f : Float F⦄ where
  unfoldable pub is_expired : Game F D G → Player F → Bool
  is_expired g p = f.le g.dog_retirement_time (f.of_int p.dog.idle_time)

  unfoldable pub expired_in : Game F D G → List (GameSession F D) → List (Player F)
  expired_in g [] = []
  expired_in g (s ∷ ss) = keep_if (is_expired g) s.players ++ expired_in g ss

  unfoldable pub find_expired_players : Game F D G → List (Player F)
  find_expired_players g = expired_in g g.sessions

  -- The records that are written, and the game or the exception.
  unfoldable pub handle_retired_players : Game F D G → List PlayerRecordItem × Result (Game F D G)
  unfolding is_empty
  handle_retired_players g =
      let expired_players = find_expired_players g in
      if is_empty expired_players then ([], ok g) else (
        save_expired_players expired_players,
        delete_expired_players expired_players g.sessions >>= λ sessions.
            ok (record g { sessions = delete_empty_sessions sessions }),
      )
