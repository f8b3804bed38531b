-- ===== src/Http/Connection/Games.antt =====
-- The game of a running server.
use mathlib.Core.Option.{some-injective}
use dog_game_cpp.Common.{
  pos, to_int, ok_injective, ◌≡◌, sym, subst, Option, some, none, String, ok, err, Result, inl, inr,
  Bool, true, false, ℕ, refl, ◌∙◌, Bool-cases, Option-cases,
}
use dog_game_cpp.Float.{Float}
use dog_game_cpp.Collision.{EventSort}
use dog_game_cpp.LootGenerator.{Double}
use dog_game_cpp.Session.Looting.{LootDraw}
use dog_game_cpp.Game.Data.{Game, TokenGenerator}
use dog_game_cpp.Ticker.{tick_game}
use dog_game_cpp.Api.Data.{Request, Response, ApiHandler}
use dog_game_cpp.Api.Dispatch.{Outside, is_api_request, handle_api_request}
use dog_game_cpp.Api.Keeps.{Keeps, returns, KeepsAll, ends as all_end}
use dog_game_cpp.Api.Play.{Play, stay, round, Plays, start, next}
use dog_game_cpp.Api.Sound.{CanPass, NoNan}
use dog_game_cpp.Api.Storage.{Play-storage}
use dog_game_cpp.Api.Steps.{handle_api_request-Keeps}
use dog_game_cpp.Http.{handle_request, send_all, respond}
use dog_game_cpp.Http.Answers.{left_alone}
use dog_game_cpp.Http.Connection.{
  Connection, Server, Moment, at_moment, Fail, ends, goes_on, Turn, Step, Reach, read,
  end_of_stream, read_error, answer, ignore, written, written_last, write_error, accept, turn, fail,
  timer, timer_fails, here, step,
}

-- Sending a response keeps what holds of the game that the handler of the API left.
send_all-Keeps :
    {F D G : Type 0} {P : Game F D G → Type 0} (result : Result (ApiHandler F D G × Response F))
    (h' : ApiHandler F D G) (sent : Option (Response F))
    → Keeps P result
    → send_all result ≡ ok (h', sent)
    → P h'.game
unfolding send_all
send_all-Keeps {F} {D} {G} {P} (ok (h, x)) h' sent (returns k) e =
    subst (λ (y : ApiHandler F D G × Option (Response F)). P y.0.game) (ok_injective e) k
send_all-Keeps (err x) h' sent k e = cc

kept_inside :
    {F D G : Type 0} {P : Game F D G → Type 0} {result : Result (ApiHandler F D G × Response F)}
    → KeepsAll P (some result)
    → Keeps P result
kept_inside (all_end k) = k

module _ {F D G J : Type 0} ⦃f : Float F⦄ ⦃d : Double D⦄ ⦃sort : EventSort F⦄ ⦃g : TokenGenerator G⦄
    (out : Outside F D J) where
  -- A request that is handled without an exception leaves the game as it is, or a player has joined, a
  -- dog was turned, or a time has passed.
  pub handle_request-Play :
      (h h' : ApiHandler F D G) (target : String) (r : Request) (sent : Option (Response F))
      → handle_request out h target r ≡ some (ok (h', sent))
      → Play out.to_double out.draws h.game h'.game
  unfolding handle_request
  handle_request-Play h h' target r sent e = elim (Bool-cases (is_api_request target)) [
    | inl a ↦ elim (Option-cases (handle_api_request out h target r)) [
      | inl n ↦ let q = rw (handle_request, a, n) at e in cc
      | inr (x, k) ↦
          let q = rw (handle_request, a, k) at e in
          send_all-Keeps x h' sent
            (kept_inside (
              subst (KeepsAll (Play out.to_double out.draws h.game)) k
                (handle_api_request-Keeps out h target r)))
            (some-injective _ _ q)
    ]
    | inr a ↦
        let q = rw (handle_request, a) at e in
        let (same, _) = left_alone h h' (respond h.game.storage target r) (some-injective _ _ q) in
        subst (λ (x : ApiHandler F D G). Play out.to_double out.draws h.game x.game) (sym same) stay
  ]

  Turn-Play :
      (need_eof : Response F → Bool) {h h' : ApiHandler F D G} {c c' : Connection F}
      → Turn out need_eof h c h' c'
      → Play out.to_double out.draws h.game h'.game
  Turn-Play need_eof (read target r e) = stay
  Turn-Play need_eof (end_of_stream e) = stay
  Turn-Play need_eof (read_error e) = stay
  Turn-Play need_eof {h} (answer {target} {r} {h'} {resp} e a) =
      handle_request-Play h h' target r (some resp) a
  Turn-Play need_eof {h} (ignore {target} {r} {h'} e a) = handle_request-Play h h' target r none a
  Turn-Play need_eof (written e n) = stay
  Turn-Play need_eof (written_last e n) = stay
  Turn-Play need_eof (write_error e) = stay

-- The random numbers of the moments.
abbrev pub draws_of : {F W : Type 0} → (W → Moment F) → W → ℕ → ℕ → LootDraw F
draws_of moment w = (moment w).draws

module _ {F D G J W : Type 0} ⦃f : Float F⦄ ⦃d : Double D⦄ ⦃sort : EventSort F⦄
    ⦃g : TokenGenerator G⦄ (out : Outside F D J) (moment : W → Moment F)
    (need_eof : Response F → Bool) where
  Fail-failed : {s t : Server F D G} → Fail out moment need_eof s t → t.failed ≡ true
  Fail-failed (ends e) = rw e refl
  Fail-failed (goes_on h _ _ e) = rw e refl

  Fail-storage :
      {s t : Server F D G}
      → Fail out moment need_eof s t
      → t.handler.game.storage ≡ s.handler.game.storage
  Fail-storage (ends e) = rw e refl
  Fail-storage (goes_on h _ k e) = rw e k

  -- Without an exception, a step of the server is one of the game.
  Step-Play :
      {w : W} {s t : Server F D G}
      → Step out moment need_eof w s t
      → t.failed ≡ false
      → (s.failed ≡ false) × Play out.to_double (moment w).draws s.handler.game t.handler.game
  unfolding tick_game
  Step-Play (accept _ e) n = (rw e at n, rw e stay)
  Step-Play {w} (turn before after c c' _ e k q) n =
      (rw q at n, rw q (Turn-Play (at_moment out (moment w)) need_eof k))
  Step-Play (fail before after c _ e p k q) n = let b = Fail-failed q in cc
  Step-Play (timer ticks _ _ e q) n = (rw q at n, rw q (round (to_int (pos ticks)) e))
  Step-Play (timer_fails ticks _ _ _ q) n = let b = Fail-failed q in cc

  Step-storage :
      {w : W} {s t : Server F D G}
      → Step out moment need_eof w s t
      → t.handler.game.storage ≡ s.handler.game.storage
  unfolding tick_game
  Step-storage (accept _ e) = rw e refl
  Step-storage {w} (turn before after c c' _ e k q) =
      rw q (Play-storage (Turn-Play (at_moment out (moment w)) need_eof k))
  Step-storage (fail before after c _ e p k q) = Fail-storage q
  Step-storage {w} {s} (timer ticks _ _ e q) =
      rw q (Play-storage {to_double = out.to_double} (round (to_int (pos ticks)) e))
  Step-storage (timer_fails ticks _ _ _ q) = Fail-storage q

  -- The maps of a server are those that it was started with, exceptions or not.
  pub Reach-storage :
      {s0 s : Server F D G}
      → Reach out moment need_eof s0 s
      → s.handler.game.storage ≡ s0.handler.game.storage
  Reach-storage here = refl
  Reach-storage (step r w k) = Step-storage k ∙ Reach-storage r

  -- In no tick on the way a NaN arises.
  abbrev pub NoNanOnWay : {s0 s : Server F D G} → Reach out moment need_eof s0 s → Type 0
  NoNanOnWay here = Unit
  NoNanOnWay (step {t} {u} r w k) =
      NoNanOnWay r × CanPass (moment w).draws t.handler.game u.handler.game

  -- As long as no exception has left `ioc.run`, the states of the server refine those of the game
  -- alone: whatever clients, sockets, threads and the ticker do, the game of the server is reached from
  -- the game that it was started with by joining players, turned dogs and ticks, each with random numbers
  -- of its own.
  pub Reach-Plays :
      {s0 s : Server F D G}
      → Reach out moment need_eof s0 s
      → s.failed ≡ false
      → Plays out.to_double (draws_of moment) s0.handler.game s.handler.game
  Reach-Plays here n = start
  Reach-Plays (step r w k) n = let (m, p) = Step-Play k n in next (Reach-Plays r m) w p

  pub Reach-NoNan :
      {s0 s : Server F D G} (reach : Reach out moment need_eof s0 s)
      → s.failed ≡ false
      → NoNanOnWay reach
      → (ps : Plays out.to_double (draws_of moment) s0.handler.game s.handler.game) × NoNan
          (draws_of moment)
          ps
  Reach-NoNan here n u = (start, tt)
  Reach-NoNan (step r w k) n (u, c) =
      let (m, p) = Step-Play k n in let (ps, v) = Reach-NoNan r m u in (next ps w p, (v, c))
