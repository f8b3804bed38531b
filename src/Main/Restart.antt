-- ===== src/Main/Restart.antt =====
-- What src/main.cpp saves when it is stopped, and the next start.
use dog_game_cpp.Common.{
  ◌≡◌, sym, ap, ◌∙◌, subst, Bool, false, [], ◌∷◌, some, none, ok, ok_injective,
}
use dog_game_cpp.Float.{Float}
use dog_game_cpp.Collision.{EventSort}
use dog_game_cpp.LootGenerator.{Double}
use dog_game_cpp.Game.Data.{Game, TokenGenerator}
use dog_game_cpp.Game.Saving.{GameState, create_game_state, serialize_state, restore_sessions}
use dog_game_cpp.MapParser.{ConfigJson}
use dog_game_cpp.MapParser.{empty_storage, parse_maps}
use dog_game_cpp.Serializer.{JsonWriter}
use dog_game_cpp.Api.Data.{Response}
use dog_game_cpp.Api.Dispatch.{Outside}
use dog_game_cpp.Api.Saved.{Plays-restore_sessions}
use dog_game_cpp.Http.Connection.{Server, Moment, Reach}
use dog_game_cpp.Http.Connection.Games.{Reach-Plays}
use dog_game_cpp.Main.{World, runs, main, handle_signal}
use dog_game_cpp.Main.Start.{main-IsSetUp}

module _ {F D G : Type 0} where
  serialize_state-some :
      (g : Game F D G) {state : GameState F}
      → serialize_state g ≡ some state
      → create_game_state g ≡ state
  unfolding serialize_state
  serialize_state-some g {state} e = go (create_game_state g) e
    where
      go :
          (states : GameState F)
          → elim states [ [] ↦ none | s ∷ ss ↦ some (s ∷ ss) ] ≡ some state
          → states ≡ state
      go [] e = cc
      go (s ∷ ss) e = cc

module _ {F D G J V W : Type 0} ⦃f : Float F⦄ ⦃d : Double D⦄ ⦃sort : EventSort F⦄
    ⦃g : TokenGenerator G⦄ (out : Outside F D J) (moment : W → Moment F) (world : World F)
    (c : ConfigJson F J) (w : JsonWriter F D V) where
  -- If the program has started its server, and the handler of a signal runs while no handler of a request
  -- and no tick does, in any state that the server reaches without an exception that left `ioc.run`: the state
  -- that the handler of the signal hands to `serialize_game_state`, if it hands one, can be restored by
  -- the game of another start with the same configuration file, and that game would save it again as it
  -- is.
  pub main-handle_signal :
      (need_eof : Response F → Bool) (tokenizer tokenizer' : G) (state : GameState F)
      {s0 s s1 : Server F D G} {log log' : V}
      → main out.to_double world out.json c w tokenizer ≡ runs s0 log
      → Reach out moment need_eof s0 s
      → s.failed ≡ false
      → main out.to_double world out.json c w tokenizer' ≡ runs s1 log'
      → (handle_signal world w s).0 ≡ some state
      → (restored : Game F D G) × (restore_sessions out.to_double s1.handler.game state
          ≡ ok restored)
        × (create_game_state restored ≡ state)
  unfolding handle_signal
  main-handle_signal need_eof tokenizer tokenizer' state {s0} {s} {s1} e reach whole e' k =
      let (h, q, up) = main-IsSetUp out world c w tokenizer e in
      let (h', q', up') = main-IsSetUp out world c w tokenizer' e' in
      let is_saved = serialize_state-some s.handler.game k in
      let no_sessions = ap (λ (x : Server F D G). x.handler.game.sessions) q ∙ up.no_sessions in
      let content = ok_injective (sym up'.is_read ∙ up.is_read) in
      let parsed = ok_injective (
        sym up'.is_parsed
        ∙ ap (λ x. parse_maps out.json c x empty_storage) content
        ∙ up.is_parsed) in
      let same =
        ap (λ (x : Server F D G). x.handler.game.storage) q'
        ∙ parsed
        ∙ sym (ap (λ (x : Server F D G). x.handler.game.storage) q) in
      subst
        (λ x.
          (restored : Game F D G) × (restore_sessions out.to_double s1.handler.game x ≡ ok restored)
          × (create_game_state restored ≡ x))
        is_saved
        (Plays-restore_sessions s0.handler.game s1.handler.game no_sessions
          (Reach-Plays out moment need_eof reach whole) same)
