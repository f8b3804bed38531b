-- ===== src/Main/Start.antt =====
-- What holds of the server that src/main.cpp starts, in every state that it reaches.
use Prim.Native.Char.{Char}
use dog_game_cpp.Common.{
  ◌≡◌, refl, sym, ap, ◌∙◌, subst, ℕ, ℤ, pos, to_int, Bool, false, List, [], some, none, String,
  lookup, ok, err, Result, ◌>>=◌, >>=-eq-ok, ok_injective, out_of_range, ◌⊎◌, ◌≢◌, ◌<◌, length, All,
}
use dog_game_cpp.Float.{Float, IsNumber, IsOrdered}
use dog_game_cpp.MapModel.{GameMap}
use dog_game_cpp.Collision.{EventSort}
use dog_game_cpp.LootGenerator.{Double}
use dog_game_cpp.Game.Data.{Game, MapStorage, TokenGenerator, map_at, make_game}
use dog_game_cpp.Game.{create_game, set_loot_parameters}
use dog_game_cpp.Request.{Json}
use dog_game_cpp.MapParser.{ConfigJson, empty_storage, parse_maps}
use dog_game_cpp.Serializer.{JsonWriter}
use dog_game_cpp.Api.{is_no_reading}
use dog_game_cpp.Api.Data.{Request, Response, ApiHandler, success, make_string_response}
use dog_game_cpp.Api.Dispatch.{Outside}
use dog_game_cpp.Ticker.{make_api_handler, tick_game}
use dog_game_cpp.Http.{after_prefix, map_prefix, handle_request, content_body}
use dog_game_cpp.Http.Connection.{Server, Moment, at_moment, start_server, Reach}
use dog_game_cpp.Http.Connection.Games.{draws_of, NoNanOnWay, Reach-NoNan}
use dog_game_cpp.Api.Sound.{IsSound, Plays-IsSound}
use dog_game_cpp.Game.Rounds.{CanTick}
use dog_game_cpp.Session.Drops.{AreUniform}
use dog_game_cpp.LootGenerator.Bounds.{IsDouble}
use dog_game_cpp.Collision.Spec.{IsSort}
use dog_game_cpp.MapParser.Storage.{maps_of, last_object, parse_maps-HasNumbers}
use dog_game_cpp.Http.Connection.Maps.{Reach-handle_request}
use dog_game_cpp.Main.{
  World, runs, default_args, read_json, restore_saved, set_up, main_outcome, main,
}

module _ {F D G : Type 0} ⦃f : Float F⦄ where
  create_game_frame :
      (storage : MapStorage F) (tokenizer : G) (tick_period : ℤ) (spawn : Bool) {g : Game F D G}
      → create_game storage tokenizer tick_period spawn ≡ ok g
      → (g.storage ≡ storage) × (g.sessions ≡ []) × (g.tick_period ≡ tick_period)
  unfolding create_game set_loot_parameters make_game
  create_game_frame storage tokenizer tick_period spawn e =
      let (configured, e1, q) =
        >>=-eq-ok
          (map_at storage.loot_config "period" >>= λ period.
            map_at storage.loot_config "probability" >>= λ probability. ok _)
          _ e in
      let (period, _, e2) = >>=-eq-ok (map_at storage.loot_config "period") _ e1 in
      let (probability, _, e3) = >>=-eq-ok (map_at storage.loot_config "probability") _ e2 in
      let (same, empty) =
        subst (λ (x : Game F D G). (x.storage ≡ storage) × (x.sessions ≡ [])) (ok_injective e3)
          (refl, refl) in
      subst
        (λ (x : Game F D G).
          (x.storage ≡ storage) × (x.sessions ≡ []) × (x.tick_period ≡ tick_period))
        (ok_injective q) (same, empty, refl)

restore_saved-default :
    {F D G : Type 0} ⦃f : Float F⦄ ⦃d : Double D⦄ (to_double : F → D) (world : World F)
    (game : Game F D G)
    → restore_saved to_double world default_args game ≡ ok game
unfolding restore_saved
restore_saved-default to_double world game = refl

module _ {F D G J : Type 0} ⦃f : Float F⦄ ⦃d : Double D⦄ (to_double : F → D) (world : World F)
    (j : Json J) (c : ConfigJson F J) where
  -- What `set_up` returns: a handler for a game without sessions, whose storage was read from the
  -- configuration file, with a ticker that has not started.
  pub record IsSetUp (h : ApiHandler F D G) : Type 0 where
    pub content : J
    pub is_read : read_json world j default_args.config_file ≡ ok content
    pub is_parsed : parse_maps j c content empty_storage ≡ ok h.game.storage
    pub no_sessions : h.game.sessions ≡ []
    pub waits : h.ticker ≡ some false

  set_up-IsSetUp :
      (tokenizer : G) {h : ApiHandler F D G}
      → set_up to_double world j c default_args tokenizer ≡ ok h
      → IsSetUp h
  unfolding set_up make_api_handler
  set_up-IsSetUp tokenizer {h} e =
      let (_, _, e1) = >>=-eq-ok world.data_base _ e in
      let (content, r, e2) = >>=-eq-ok (read_json world j default_args.config_file) _ e1 in
      let (stor, p, e3) = >>=-eq-ok (parse_maps j c content empty_storage) _ e2 in
      let (game, k, e4) = >>=-eq-ok (create_game stor tokenizer (pos 100) false) _ e3 in
      let (same, empty, period) = create_game_frame stor tokenizer (pos 100) false k in
      let (restored, r0, e5) = >>=-eq-ok (restore_saved to_double world default_args game) _ e4 in
      let q = sym (restore_saved-default to_double world game) ∙ r0 in
      let (_, _, e6) = >>=-eq-ok world.port _ e5 in
      let handler_is : make_api_handler game ≡ h =
        ap make_api_handler (ok_injective q) ∙ ok_injective e6 in
      let starts : (make_api_handler game).ticker ≡ some false = rw period refl in
      record {
        content = content;
        is_read = r;
        is_parsed = p ∙ ap ok (sym same ∙ ap (λ (x : ApiHandler F D G). x.game.storage) handler_is);
        no_sessions = sym (ap (λ (x : ApiHandler F D G). x.game.sessions) handler_is) ∙ empty;
        waits = sym (ap (λ (x : ApiHandler F D G). x.ticker) handler_is) ∙ starts;
      }

module _ {F D G V : Type 0} (world : World F) where
  main_outcome-runs :
      (w : JsonWriter F D V) (result : Result (ApiHandler F D G)) {s : Server F D G} {log : V}
      → main_outcome world w result ≡ runs s log
      → (h : ApiHandler F D G) × (result ≡ ok h) × (s ≡ start_server h)
  unfolding main_outcome
  main_outcome-runs w (ok h) e = (h, refl, cc)
  main_outcome-runs w (err x) e = cc

module _ {F D G J V : Type 0} ⦃f : Float F⦄ ⦃d : Double D⦄ ⦃sort : EventSort F⦄
    ⦃g : TokenGenerator G⦄ (out : Outside F D J) (world : World F) (c : ConfigJson F J)
    (w : JsonWriter F D V) where
  pub main-IsSetUp :
      (tokenizer : G) {s : Server F D G} {log : V}
      → main out.to_double world out.json c w tokenizer ≡ runs s log
      → (h : ApiHandler F D G) × (s ≡ start_server h) × IsSetUp out.to_double world out.json c h
  unfolding main
  main-IsSetUp tokenizer e =
      let (h, k, q) =
        main_outcome-runs world w (set_up out.to_double world out.json c default_args tokenizer)
          e in
      (h, q, set_up-IsSetUp out.to_double world out.json c tokenizer k)

module _ {F D G J V W : Type 0} ⦃f : Float F⦄ ⦃d : Double D⦄ ⦃sort : EventSort F⦄
    ⦃g : TokenGenerator G⦄ (out : Outside F D J) (moment : W → Moment F) (world : World F)
    (c : ConfigJson F J) (writer : JsonWriter F D V) where
  -- If the program has started its server, with a configuration file whose objects are not printed as
  -- empty texts: in every state that the server can reach, also after an exception, a GET or HEAD of
  -- `/api/v1/maps`, one character and an id is answered with 200 and, for GET, the text of the last object
  -- of the array `maps` of `./data/config.json` that has that id. If there is none, then
  -- `std::out_of_range` leaves the handler in place of the answer 404.
  pub main-handle_request :
      (need_eof : Response F → Bool) (w : W) (tokenizer : G) (target : String) (r : Request)
      (slash : Char) (id : String) {s0 s : Server F D G} {log : V}
      → main out.to_double world out.json c writer tokenizer ≡ runs s0 log
      → ((o : J) → c.serialize o ≢ "")
      → Reach out moment need_eof s0 s
      → is_no_reading r.method ≡ false
      → after_prefix map_prefix target ≡ some (String.◌∷◌ slash id)
      → (content : J) × (xs : List J) × (read_json world out.json "./data/config.json" ≡ ok content)
        × (maps_of out.json c content ≡ ok xs)
        × (((last_object out.json c id xs none ≡ none)
              × (handle_request (at_moment out (moment w)) s.handler target r
                  ≡ some (err out_of_range)))
            ⊎ ((o : J) × (last_object out.json c id xs none ≡ some o)
                × (handle_request (at_moment out (moment w)) s.handler target r
                    ≡ some (
                        ok (
                          s.handler,
                          some (
                              make_string_response r success
                                (content_body r.method (c.serialize o))
                                none),
                        )))))
  main-handle_request need_eof w tokenizer target r slash id {s0} {s} e full reach m p =
      let (h, q, up) = main-IsSetUp out world c writer tokenizer e in
      let reach' = subst (λ x. Reach out moment need_eof x s) q reach in
      let (xs, at_maps, answer) =
        Reach-handle_request out moment need_eof w c up.content h target r slash id up.is_parsed
          full reach' m p in
      (up.content, xs, up.is_read, at_maps, answer)

  -- If the program has started its server, with a configuration file in which every map has a road and
  -- a type of loot, random numbers in their bounds and a sort that keeps what the standard promises: in
  -- every state that the server reaches without a NaN in a tick and without an exception that left
  -- `ioc.run`, each session runs on its own map, with all loot and dogs valid on it, and the next time that
  -- the ticker ends or a tick is asked for, if no NaN arises then, the tick returns and leaves such
  -- sessions, whatever the random numbers are then.
  pub main-IsSound :
      (need_eof : Response F → Bool) (tokenizer : G) {s : Server F D G} {s0 : Server F D G}
      {log : V}
      → IsOrdered F
      → IsDouble D
      → IsSort sort
      → ((w : W) (i k : ℕ) → AreUniform ((moment w).draws i k))
      → ((i : ℤ) → IsNumber (f.of_int i))
      → ((id : String) (m : GameMap F)
          → lookup id s0.handler.game.storage.maps ≡ some m
          → (0 < length m.roads) × (0 < length m.loots))
      → main out.to_double world out.json c writer tokenizer ≡ runs s0 log
      → s.failed ≡ false
      → (reach : Reach out moment need_eof s0 s) → NoNanOnWay out moment need_eof reach
      → IsSound s.handler.game
        × ((w : W) (ticks : ℕ)
            → All (CanTick (to_int (pos ticks))) s.handler.game.sessions
            → (g' : Game F D G) × (tick_game (moment w).draws s.handler.game ticks ≡ ok g')
              × IsSound g')
  unfolding tick_game
  main-IsSound need_eof tokenizer {s} {s0} laws dlaws sorts u n maps e whole reach no_nan =
      let (h, q, up) = main-IsSetUp out world c writer tokenizer e in
      let (ps, m) = Reach-NoNan out moment need_eof reach whole no_nan in
      let same = ap (λ (x : Server F D G). x.handler.game.storage) q in
      let first : IsSound h.game = record {
        running = rw up.no_sessions tt;
        distinct = rw up.no_sessions tt;
        holds = λ id m k.
            let (roads, loots) = maps id m (ap (λ x. lookup id x.maps) same ∙ k) in
            let (_, numbers) = parse_maps-HasNumbers out.json c up.content id n up.is_parsed k in
            record { some_type = loots; some_road = roads; numbers = numbers };
      } in
      let (sound, next_tick) =
        Plays-IsSound out.to_double (draws_of moment) laws dlaws sorts u s0.handler.game ps
          (subst (λ (x : Server F D G). IsSound x.handler.game) (sym q) first) m in
      (sound, λ w ticks c. next_tick w (to_int (pos ticks)) c)
