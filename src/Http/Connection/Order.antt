-- ===== src/Http/Connection/Order.antt =====
-- What holds of the connections of src/network/http_server.cpp, however they take turns.
use dog_game_cpp.Common.{
  ◌≡◌, refl, subst, Bool, false, List, [], ◌∷◌, ◌++◌, some, String, ok, All, ◌⊎◌, inl, inr,
}
use dog_game_cpp.Float.{Float}
use dog_game_cpp.Collision.{EventSort}
use dog_game_cpp.LootGenerator.{Double}
use dog_game_cpp.Game.Data.{TokenGenerator}
use dog_game_cpp.Api.Data.{Request, Response, ApiHandler}
use dog_game_cpp.Api.Dispatch.{Outside}
use dog_game_cpp.Http.{handle_request}
use dog_game_cpp.Http.Connection.{
  Phase, reading, closed, dropped, handling, writing, Connection, Server, Moment, at_moment, Fail,
  ends, goes_on, start_server, new_connection, Turn, Reach, read, end_of_stream, read_error, answer,
  ignore, written, written_last, write_error, accept, turn, fail, timer, timer_fails, here, step,
}

All-replace {ℓ κ} :
    {A : Type ℓ} (P : A → Type κ) (before after : List A) {c c' : A}
    → All P (before ++ c ∷ after)
    → (P c → P c')
    → All P (before ++ c' ∷ after)
All-replace P [] after (p, ps) k = (k p, ps)
All-replace P (b ∷ before) after (p, ps) k = (p, All-replace P before after ps k)

abbrev earlier_of : {A : Type 0} → List A → List A
earlier_of [] = []
earlier_of (x ∷ xs) = xs

All-earlier_of : {A : Type 0} (P : A → Type 0) (xs : List A) → All P xs → All P (earlier_of xs)
All-earlier_of P [] ps = tt
All-earlier_of P (x ∷ xs) ps = ps.1

-- One answer for each request, in their order.
pub data Matched {A B : Type 0} (R : A → B → Type 0) : List A → List B → Type 0 where
  nothing : Matched R [] []
  also :
      {q : A} {a : B} {qs : List A} {answers : List B}
      → R q a
      → Matched R qs answers
      → Matched R (q ∷ qs) (a ∷ answers)

-- The handler, in some state of the game, sends the response for the request.
abbrev pub IsAnswer :
    {F D J : Type 0} (G : Type 0) ⦃f : Float F⦄ ⦃d : Double D⦄ ⦃sort : EventSort F⦄
    ⦃g : TokenGenerator G⦄
    → Outside F D J
    → String × Request
    → Response F
    → Type 0
IsAnswer {F} {D} G out q resp =
    (h : ApiHandler F D G) × (h' : ApiHandler F D G) × (handle_request out h q.0 q.1
      ≡ some (ok (h', some resp)))

-- Such an answer at one of the moments of a run.
abbrev pub IsAnswerAt :
    {F D J W : Type 0} (G : Type 0) ⦃f : Float F⦄ ⦃d : Double D⦄ ⦃sort : EventSort F⦄
    ⦃g : TokenGenerator G⦄
    → Outside F D J
    → (W → Moment F)
    → String × Request
    → Response F
    → Type 0
IsAnswerAt {W = W} G out moment q resp = (w : W) × IsAnswer G (at_moment out (moment w)) q resp

module _ {F : Type 0} (R : String × Request → Response F → Type 0)
    (need_eof : Response F → Bool) where
  -- Answers to the requests, none of which asks for the connection to be closed.
  KeptOpen : List (String × Request) → List (Response F) → Type 0
  KeptOpen asked answered = Matched R asked answered × All (λ resp. need_eof resp ≡ false) answered

  -- A connection that reads has answered every request that it read, one that handles or writes all
  -- but the last, and one that was closed every one; only its last response asks for that.
  IsOrderlyAt : Phase F → List (String × Request) → List (Response F) → Type 0
  IsOrderlyAt reading asked answered = KeptOpen asked answered
  IsOrderlyAt (handling target r) asked answered =
      (earlier : List (String × Request)) × (asked ≡ (target, r) ∷ earlier)
      × KeptOpen earlier answered
  IsOrderlyAt (writing resp) asked answered =
      (q : String × Request) × (earlier : List (String × Request)) × (asked ≡ q ∷ earlier)
      × R q resp
      × KeptOpen earlier answered
  IsOrderlyAt closed asked answered =
      Matched R asked answered × All (λ resp. need_eof resp ≡ false) (earlier_of answered)
  IsOrderlyAt dropped asked answered =
      KeptOpen asked answered
      ⊎ ((q : String × Request) × (earlier : List (String × Request)) × (asked ≡ q ∷ earlier)
          × KeptOpen earlier answered)

  pub IsOrderly : Connection F → Type 0
  unfolding IsOrderlyAt
  IsOrderly c = IsOrderlyAt c.phase c.asked c.answered

  at_phase :
      (c : Connection F) (p : Phase F)
      → c.phase ≡ p
      → IsOrderly c
      → IsOrderlyAt p c.asked c.answered
  unfolding IsOrderly IsOrderlyAt
  at_phase c p e v = subst (λ x. IsOrderlyAt x c.asked c.answered) e v

  -- A connection whose handler has thrown.
  thrown-IsOrderly :
      (c : Connection F) {target : String} {r : Request}
      → c.phase ≡ handling target r
      → IsOrderly c
      → IsOrderly (record c { phase = dropped })
  unfolding IsOrderly IsOrderlyAt
  thrown-IsOrderly c {target} {r} e v =
      let (earlier, q, k) = at_phase c (handling target r) e v in inr ((target, r), earlier, q, k)

  new_connection-IsOrderly : IsOrderly new_connection
  unfolding IsOrderly IsOrderlyAt KeptOpen
  new_connection-IsOrderly = (nothing, tt)

module _ {F D G J : Type 0} ⦃f : Float F⦄ ⦃d : Double D⦄ ⦃sort : EventSort F⦄ ⦃g : TokenGenerator G⦄
    (out : Outside F D J) (need_eof : Response F → Bool)
    (R : String × Request → Response F → Type 0)
    (is_answer : (q : String × Request) (resp : Response F)
      → IsAnswer G out q resp
      → R q resp) where
  Turn-IsOrderly :
      {h h' : ApiHandler F D G} {c c' : Connection F}
      → Turn out need_eof h c h' c'
      → IsOrderly R need_eof c
      → IsOrderly R need_eof c'
  unfolding IsOrderly IsOrderlyAt KeptOpen
  Turn-IsOrderly {c = c} (read target r e) v = (c.asked, refl, at_phase _ _ c reading e v)
  Turn-IsOrderly {c = c} (end_of_stream e) v =
      let (k, kept) = at_phase _ _ c reading e v in (k, All-earlier_of _ c.answered kept)
  Turn-IsOrderly {c = c} (read_error e) v = inl (at_phase _ _ c reading e v)
  Turn-IsOrderly {h} {c = c} (answer {target} {r} {h'} {resp} e a) v =
      let (earlier, q, k) = at_phase _ _ c (handling target r) e v in
      ((target, r), earlier, q, is_answer (target, r) resp (h, h', a), k)
  Turn-IsOrderly {c = c} (ignore {target} {r} e a) v =
      let (earlier, q, k) = at_phase _ _ c (handling target r) e v in
      inr ((target, r), earlier, q, k)
  Turn-IsOrderly {c = c} (written {resp} e n) v =
      let (q, earlier, a, b, k) = at_phase _ _ c (writing resp) e v in (rw a (also b k.0), (n, k.1))
  Turn-IsOrderly {c = c} (written_last {resp} e n) v =
      let (q, earlier, a, b, k) = at_phase _ _ c (writing resp) e v in (rw a (also b k.0), k.1)
  Turn-IsOrderly {c = c} (write_error {resp} e) v =
      let (q, earlier, a, b, k) = at_phase _ _ c (writing resp) e v in inr (q, earlier, a, k)

module _ {F D G J W : Type 0} ⦃f : Float F⦄ ⦃d : Double D⦄ ⦃sort : EventSort F⦄
    ⦃g : TokenGenerator G⦄ (out : Outside F D J) (moment : W → Moment F)
    (need_eof : Response F → Bool) where
  Fail-connections :
      {s t : Server F D G} → Fail out moment need_eof s t → t.connections ≡ s.connections
  Fail-connections (ends e) = rw e refl
  Fail-connections (goes_on h _ _ e) = rw e refl

  -- However clients, sockets and threads take turns, every connection is orderly: the responses that
  -- it wrote are answers of the handler to the requests that it read, one for each, in their order, and
  -- no request is read before the one before it was answered, or after a response that ends the connection.
  pub Reach-IsOrderly :
      (h : ApiHandler F D G) {s : Server F D G}
      → Reach out moment need_eof (start_server h) s
      → All (IsOrderly (IsAnswerAt G out moment) need_eof) s.connections
  Reach-IsOrderly h here = tt
  Reach-IsOrderly h (step r w (accept _ e)) =
      rw e (new_connection-IsOrderly (IsAnswerAt G out moment) need_eof, Reach-IsOrderly h r)
  Reach-IsOrderly h (step r w (turn before after c c' _ e k q)) = rw q (
      All-replace _ before after (subst (All _) e (Reach-IsOrderly h r)) (
        Turn-IsOrderly (at_moment out (moment w)) need_eof (IsAnswerAt G out moment)
          (λ q resp a. (w, a)) k))
  Reach-IsOrderly h (step r w (fail before after c _ e p k q)) = rw (Fail-connections q) (
      All-replace _ before after (subst (All _) e (Reach-IsOrderly h r))
        (thrown-IsOrderly (IsAnswerAt G out moment) need_eof c p))
  Reach-IsOrderly h (step r w (timer ticks _ _ _ q)) = rw q (Reach-IsOrderly h r)
  Reach-IsOrderly h (step r w (timer_fails ticks _ _ _ q)) =
      rw (Fail-connections q) (Reach-IsOrderly h r)
