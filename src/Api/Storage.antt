-- ===== src/Api/Storage.antt =====
-- What the steps of Play do to the maps of the game.
use dog_game_cpp.Common.{
  ◌∙◌, Bool-cases, inl, inr, ℕ, ℤ, ◌≡◌, refl, ap, sym, String, str_eq, ok, ◌>>=◌, >>=-eq-ok,
  ok_injective,
}
use dog_game_cpp.Float.{Float}
use dog_game_cpp.Collision.{EventSort}
use dog_game_cpp.LootGenerator.{Double}
use dog_game_cpp.Session.Looting.{LootDraw}
use dog_game_cpp.Game.Data.{Game, TokenGenerator}
use dog_game_cpp.Session
use dog_game_cpp.Game.{each_session, add_player, move_dogs, generate_loot, find_map}
use dog_game_cpp.Api.{steer}
use dog_game_cpp.Api.Play.{Play, stay, join, turn, round, Plays, start, next}

module _ {F D G : Type 0} ⦃f : Float F⦄ where
  move_dogs-storage :
      ⦃sort : EventSort F⦄
      → (g : Game F D G) (delta_time : ℤ) {g' : Game F D G} → move_dogs g delta_time ≡ ok g'
      → g'.storage ≡ g.storage
  unfolding move_dogs
  move_dogs-storage g delta_time e =
      let (sessions, _, q) =
        >>=-eq-ok (each_session (λ i s. Session.move_dogs s delta_time) 0 g.sessions) _ e in
      sym (ap (λ (x : Game F D G). x.storage) (ok_injective q))

  generate_loot-storage :
      ⦃d : Double D⦄
      → (draws : ℕ → ℕ → LootDraw F) (g : Game F D G) (delta_time : ℤ) {g' : Game F D G}
      → generate_loot draws g delta_time ≡ ok g'
      → g'.storage ≡ g.storage
  unfolding generate_loot
  generate_loot-storage draws g delta_time e =
      let (sessions, _, q) =
        >>=-eq-ok
          (each_session
            (λ i s. find_map g s.map_id >>= λ m. Session.generate_loot (draws i) s delta_time m) 0
            g.sessions)
          _ e in
      sym (ap (λ (x : Game F D G). x.storage) (ok_injective q))

module _ {F D G : Type 0} ⦃f : Float F⦄ ⦃d : Double D⦄ ⦃t : TokenGenerator G⦄
    (to_double : F → D) where
  add_player-storage :
      (g : Game F D G) (map_id player_name : String) {g' : Game F D G} {info : String × ℤ}
      → add_player to_double g map_id player_name ≡ ok (g', info)
      → g'.storage ≡ g.storage
  unfolding add_player
  add_player-storage g map_id player_name e = elim (Bool-cases (str_eq player_name "")) [
    | inl y ↦ let q = rw (add_player, y) at e in cc
    | inr n ↦
        let q = rw (add_player, n) at e in
        let (m, _, k) = >>=-eq-ok (find_map g map_id) _ q in
        sym (ap (λ (x : Game F D G × (String × ℤ)). x.0.storage) (ok_injective k))
  ]

module _ {F D G : Type 0} ⦃f : Float F⦄ ⦃d : Double D⦄ ⦃sort : EventSort F⦄ ⦃t : TokenGenerator G⦄
    {to_double : F → D} {draws : ℕ → ℕ → LootDraw F} where
  pub Play-storage : {g g' : Game F D G} → Play to_double draws g g' → g'.storage ≡ g.storage
  unfolding steer
  Play-storage stay = refl
  Play-storage {g} (join id name e) = add_player-storage to_double g id name e
  Play-storage (turn token dir speed) = refl
  Play-storage {g} (round delta_time e) =
      let (x, e1, e2) = >>=-eq-ok (generate_loot draws g delta_time) _ e in
      move_dogs-storage x delta_time e2 ∙ generate_loot-storage draws g delta_time e1

module _ {F D G W : Type 0} ⦃f : Float F⦄ ⦃d : Double D⦄ ⦃sort : EventSort F⦄ ⦃t : TokenGenerator G⦄
    {to_double : F → D} {draws : W → ℕ → ℕ → LootDraw F} where
  -- No step changes the maps of the game.
  pub Plays-storage : {g g' : Game F D G} → Plays to_double draws g g' → g'.storage ≡ g.storage
  Plays-storage start = refl
  Plays-storage (next ps w p) = Play-storage p ∙ Plays-storage ps
