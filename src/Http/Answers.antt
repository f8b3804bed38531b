-- ===== src/Http/Answers.antt =====
-- What `RequestHandler` of src/network/request_handler.h sends for the targets that are no endpoints
-- of the API.
use Prim.Native.Char.{Char}
use mathlib.Core.Option.{some-injective}
use dog_game_cpp.Common.{
  ◌&&◌, >>=-eq-ok, Result, ◌≢◌, ◌≡◌, refl, ◌∙◌, Bool, true, false, some, none, String, Bool-cases,
  Option-cases, lookup, ok, err, ◌>>=◌, out_of_range, ◌⊎◌, inl, inr, ◌↔◌,
}
use dog_game_cpp.Float.{Float}
use dog_game_cpp.Collision.{EventSort}
use dog_game_cpp.LootGenerator.{Double}
use dog_game_cpp.Game.Data.{MapStorage, TokenGenerator}
use dog_game_cpp.Api.{is_no_reading}
use dog_game_cpp.Api.Data.{Request, ApiHandler, success, make_string_response}
use dog_game_cpp.Api.Dispatch.{Outside, is_api_request, handle_api_request}
use dog_game_cpp.Http.{
  content_body, leaving, send_all, api_prefix, after_prefix, map_prefix, starts_with, respond,
  handle_request, map_response, content_response, get_map_content_responce,
}
use dog_game_cpp.Http.Maps.{is_api_request-map, no_map_target}

-- What a handler of the API returns is sent.
sent {ℓ μ} :
    {A : Type ℓ} {B : Type μ} (result : Result (A × B)) (h' : A) → send_all result ≢ ok (h', none)
unfolding send_all
sent (ok (h, x)) h' e = cc
sent (err x) h' e = cc

pub left_alone {ℓ μ} :
    {A : Type ℓ} {B : Type μ} (h h' : A) (answer : Result B) {resp : B}
    → leaving h answer ≡ ok (h', resp)
    → (h' ≡ h) × (answer ≡ ok resp)
unfolding leaving
left_alone h h' (ok x) e = (cc, cc)
left_alone h h' (err x) e = cc

-- A target for which nothing is sent is read, and is not below `/api/`.
respond_silent :
    {F : Type 0} (storage : MapStorage F) (target : String) (r : Request)
    → respond storage target r ≡ ok none
    → (is_no_reading r.method ≡ false) × (starts_with api_prefix target ≡ false)
unfolding respond starts_with
respond_silent storage target r e = elim (Bool-cases (is_no_reading r.method)) [
  | inl m ↦ let q = rw (respond, m) at e in cc
  | inr m ↦ elim (Bool-cases (starts_with api_prefix target)) [
    | inr p ↦ (m, p)
    | inl p ↦ elim (Option-cases (after_prefix map_prefix target)) [
      | inl n ↦ let q = rw (respond, m, p, starts_with, n) at e in cc
      | inr (x, y) ↦
          let (z, k, l) =
            >>=-eq-ok (map_response storage r x) (λ resp. ok (some resp))
              (rw (respond, m, p, starts_with, y) at e) in
          cc
    ]
  ]
]

and_false : (b : Bool) → (b && false) ≡ false
and_false true = refl
and_false false = refl

starts_with-prefix :
    (target : String) {rest : String}
    → after_prefix map_prefix target ≡ some rest
    → starts_with map_prefix target ≡ true
unfolding starts_with
starts_with-prefix target p = rw (starts_with, p) refl

content_response-full :
    {F : Type 0} (r : Request) (text : String)
    → text ≢ ""
    → content_response {F = F} r text
      ≡ make_string_response r success (content_body r.method text) none
unfolding content_response
content_response-full r String.[] n = absurd (n refl)
content_response-full r (String.◌∷◌ c t) n = refl

module _ {F D G J : Type 0} ⦃f : Float F⦄ ⦃d : Double D⦄ ⦃s : EventSort F⦄
    ⦃t : TokenGenerator G⦄ where
  silent :
      (out : Outside F D J) (h : ApiHandler F D G) (target : String) (r : Request)
      → is_api_request target ≡ false
      → is_no_reading r.method ≡ false
      → starts_with api_prefix target ≡ false
      → handle_request out h target r ≡ some (ok (h, none))
  unfolding handle_request respond leaving
  silent out h target r a m p = rw (handle_request, a, respond, m, p, no_map_target target p) refl

  sound :
      (out : Outside F D J) (h h' : ApiHandler F D G) (target : String) (r : Request)
      → handle_request out h target r ≡ some (ok (h', none))
      → (h' ≡ h)
        × (is_api_request target ≡ false)
        × (is_no_reading r.method ≡ false)
        × (starts_with api_prefix target ≡ false)
  unfolding handle_request
  sound out h h' target r e = elim (Bool-cases (is_api_request target)) [
    | inl a ↦ elim (Option-cases (handle_api_request out h target r)) [
      | inl n ↦ let q = rw (handle_request, a, n) at e in cc
      | inr (x, k) ↦
          let q = rw (handle_request, a, k) at e in absurd (sent x h' (some-injective _ _ q))
    ]
    | inr a ↦
        let q = rw (handle_request, a) at e in
        let (same, answer) =
          left_alone h h' (respond h.game.storage target r) (some-injective _ _ q) in
        let (m, p) = respond_silent h.game.storage target r answer in (same, a, m, p)
  ]

  -- The request handler returns without sending a response, its state as it was, exactly when the
  -- request is a GET or HEAD of a target that does not start with `/api/` and that is no endpoint.
  pub handle_request_silent :
      (out : Outside F D J) (h h' : ApiHandler F D G) (target : String) (r : Request)
      → (handle_request out h target r ≡ some (ok (h', none))) ↔ (
          (h' ≡ h)
          × (is_api_request target ≡ false)
          × (is_no_reading r.method ≡ false)
          × (starts_with api_prefix target ≡ false))
  handle_request_silent out h h' target r =
      (sound out h h' target r, λ (e, a, m, p). rw e (silent out h target r a m p))

  map_answer :
      (out : Outside F D J) (h : ApiHandler F D G) (target : String) (r : Request) {rest : String}
      → is_no_reading r.method ≡ false
      → after_prefix map_prefix target ≡ some rest
      → handle_request out h target r
        ≡ some (leaving h (map_response h.game.storage r rest >>= λ resp. ok (some resp)))
  unfolding handle_request respond
  map_answer out h target r m p =
      rw
        (
          handle_request,
          is_api_request-map target p,
          respond,
          m,
          starts_with-prefix target p,
          and_false (starts_with api_prefix target),
          p,
        )
        refl

  -- Where the text of the map `id` is not empty, a GET or HEAD of the target `/api/v1/maps`, one character and `id`
  -- is answered with 200 and, for GET, the text of the map `id`. Where there is no such map the
  -- exception `std::out_of_range` leaves the handler: no response of the code has the status 404.
  pub handle_request_map :
      (out : Outside F D J) (h : ApiHandler F D G) (target : String) (r : Request) (c : Char)
      (id : String)
      → is_no_reading r.method ≡ false
      → after_prefix map_prefix target ≡ some (String.◌∷◌ c id)
      → ((text : String) → lookup id h.game.storage.maps_json ≡ some text → text ≢ "")
      → ((lookup id h.game.storage.maps_json ≡ none)
          × (handle_request out h target r ≡ some (err out_of_range)))
        ⊎ ((text : String) × (lookup id h.game.storage.maps_json ≡ some text)
            × (handle_request out h target r
                ≡ some (
                    ok (
                      h,
                      some (make_string_response r success (content_body r.method text) none),
                    ))))
  unfolding map_response get_map_content_responce leaving
  handle_request_map out h target r c id m p full =
      elim (Option-cases (lookup id h.game.storage.maps_json)) [
        | inl n ↦ inl (
          n,
          map_answer out h target r m p
              ∙ rw (map_response, get_map_content_responce, n, leaving) refl,
        )
        | inr (text, e) ↦
            let stored = full text e in
            inr (
              text,
              e,
              map_answer out h target r m p
                  ∙ rw
                      (
                        map_response,
                        get_map_content_responce,
                        e,
                        content_response-full r text stored,
                        leaving,
                      )
                      refl,
            )
      ]
