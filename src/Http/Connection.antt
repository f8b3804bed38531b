-- ===== src/Http/Connection.antt =====
-- `SessionBase`, `Session` and `Listener` of src/network/http_server.h and
-- src/network/http_server.cpp: the server as a step relation. Sockets, boost::beast and the client are
-- what steps are for; `need_eof` is that of boost::beast. Order has what holds of every connection.
pub mod Order
pub mod Games
pub mod Maps
use dog_game_cpp.Common.{
  ℕ, ℤ, Result, ◌≡◌, Bool, true, false, List, [], ◌∷◌, ◌++◌, Error, Option, some, none, String, ok,
  err,
}
use dog_game_cpp.Float.{Float}
use dog_game_cpp.Collision.{EventSort}
use dog_game_cpp.LootGenerator.{Double}
use dog_game_cpp.DataTypes.{PlayerRecordItem}
use dog_game_cpp.Session.Looting.{LootDraw}
use dog_game_cpp.Game.Data.{Game, TokenGenerator}
use dog_game_cpp.Ticker.{tick_game}
use dog_game_cpp.Api.Data.{Request, Response, ApiHandler}
use dog_game_cpp.Api.Dispatch.{Outside}
use dog_game_cpp.Http.{handle_request}

-- What a connection waits for: a request (`Read`), the handler with a request (`HandleRequest`) or the
-- end of a write (`Write`). `closed` is after `Close`, and a connection that no callback refers to
-- any more is `dropped`: its `Session` is destroyed.
pub data Phase (F : Type 0) : Type 0 where
  reading closed dropped : Phase F
  handling : String → Request → Phase F
  writing : Response F → Phase F

-- `asked` and `answered` are the requests that were read and the responses that were written, the
-- latest first.
pub record Connection (F : Type 0) : Type 0 where
  pub phase : Phase F
  pub asked : List (String × Request)
  pub answered : List (Response F)

-- All connections share the handler. `failed` is true after an exception has left `ioc.run` in one of
-- the threads of `RunWorkers`, and `running` is false when the program has ended.
pub record Server (F D G : Type 0) : Type 0 where
  pub handler : ApiHandler F D G
  pub connections : List (Connection F)
  pub failed : Bool
  pub running : Bool

-- What is another at each step: the random numbers and the table of retired players.
pub record Moment (F : Type 0) : Type 0 where
  pub draws : ℕ → ℕ → LootDraw F
  pub get_retired_players : ℤ → ℤ → Result (List PlayerRecordItem)

abbrev pub at_moment : {F D J : Type 0} → Outside F D J → Moment F → Outside F D J
at_moment out m = record out { draws = m.draws; get_retired_players = m.get_retired_players }

-- `AsyncRunSession`, which begins with `Read`.
abbrev pub new_connection : {F : Type 0} → Connection F
new_connection = record { phase = reading; asked = []; answered = [] }

module _ {F D G J : Type 0} ⦃f : Float F⦄ ⦃d : Double D⦄ ⦃sort : EventSort F⦄ ⦃g : TokenGenerator G⦄
    (out : Outside F D J) (need_eof : Response F → Bool) where
  -- What a callback of a connection does with it.
  pub data Turn (h : ApiHandler F D G) (c : Connection F)
      : ApiHandler F D G → Connection F → Type 0 where
    -- `OnRead`
    read :
        (target : String) (r : Request)
        → c.phase ≡ reading
        → Turn h c h (record c { phase = handling target r; asked = (target, r) ∷ c.asked })
    end_of_stream : c.phase ≡ reading → Turn h c h (record c { phase = closed })
    read_error : c.phase ≡ reading → Turn h c h (record c { phase = dropped })
    -- `HandleRequest`, which calls `Write` if the handler sends a response
    answer :
        {target : String} {r : Request} {h' : ApiHandler F D G} {resp : Response F}
        → c.phase ≡ handling target r
        → handle_request out h target r ≡ some (ok (h', some resp))
        → Turn h c h' (record c { phase = writing resp })
    ignore :
        {target : String} {r : Request} {h' : ApiHandler F D G}
        → c.phase ≡ handling target r
        → handle_request out h target r ≡ some (ok (h', none))
        → Turn h c h' (record c { phase = dropped })
    -- `OnWrite`
    written :
        {resp : Response F}
        → c.phase ≡ writing resp
        → need_eof resp ≡ false
        → Turn h c h (record c { phase = reading; answered = resp ∷ c.answered })
    written_last :
        {resp : Response F}
        → c.phase ≡ writing resp
        → need_eof resp ≡ true
        → Turn h c h (record c { phase = closed; answered = resp ∷ c.answered })
    write_error :
        {resp : Response F} → c.phase ≡ writing resp → Turn h c h (record c { phase = dropped })

module _ {F D G J W : Type 0} ⦃f : Float F⦄ ⦃d : Double D⦄ ⦃sort : EventSort F⦄
    ⦃g : TokenGenerator G⦄ (out : Outside F D J) (moment : W → Moment F)
    (need_eof : Response F → Bool) where
  -- An exception has left `ioc.run`. In a `jthread` it ends the program, and in the thread of `main` too
  -- where there is no other. Otherwise `main` waits in `RunWorkers` for the other threads, which go on
  -- with what the exception has left: of the game, here, any with the same maps, which no operation changes.
  pub data Fail (s t : Server F D G) : Type 0 where
    ends : t ≡ record s { failed = true; running = false } → Fail s t
    goes_on :
        (h : ApiHandler F D G)
        → s.failed ≡ false
        → h.game.storage ≡ s.handler.game.storage
        → t ≡ record s { handler = h; failed = true }
        → Fail s t

  -- A step with the random numbers and the table of a moment.
  pub data Step (w : W) (s t : Server F D G) : Type 0 where
    -- `OnAccept`
    accept :
        s.running ≡ true
        → t ≡ record s { connections = new_connection ∷ s.connections }
        → Step w s t
    turn :
        (before after : List (Connection F)) (c c' : Connection F) {h : ApiHandler F D G}
        → s.running ≡ true
        → s.connections ≡ before ++ c ∷ after
        → Turn (at_moment out (moment w)) need_eof s.handler c h c'
        → t ≡ record s { handler = h; connections = before ++ c' ∷ after }
        → Step w s t
    -- An exception of the handler: nothing refers to the connection any more.
    fail :
        (before after : List (Connection F)) (c : Connection F) {target : String} {r : Request}
        {e : Error}
        → s.running ≡ true
        → s.connections ≡ before ++ c ∷ after
        → c.phase ≡ handling target r
        → handle_request (at_moment out (moment w)) s.handler target r ≡ some (err e)
        → Fail (record s { connections = before ++ record c { phase = dropped } ∷ after }) t
        → Step w s t
    -- The ticker that has been started, and an exception of its handler.
    timer :
        (ticks : ℕ) {g : Game F D G}
        → s.running ≡ true
        → s.handler.ticker ≡ some true
        → tick_game (moment w).draws s.handler.game ticks ≡ ok g
        → t ≡ record s { handler = record s.handler { game = g } }
        → Step w s t
    timer_fails :
        (ticks : ℕ) {e : Error}
        → s.running ≡ true
        → s.handler.ticker ≡ some true
        → tick_game (moment w).draws s.handler.game ticks ≡ err e
        → Fail s t
        → Step w s t

  pub data Reach (s : Server F D G) : Server F D G → Type 0 where
    here : Reach s s
    step : {t u : Server F D G} → Reach s t → (w : W) → Step w t u → Reach s u

abbrev pub start_server : {F D G : Type 0} → ApiHandler F D G → Server F D G
start_server h = record { handler = h; connections = []; failed = false; running = true }
