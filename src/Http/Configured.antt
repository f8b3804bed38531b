-- ===== src/Http/Configured.antt =====
-- What src/network/request_handler.h answers about the maps that src/core/MapParser.cpp has read.
use Prim.Native.Char.{Char}
use mathlib.Core.Option.{some-injective}
use dog_game_cpp.Common.{
  ◌≡◌, sym, ◌∙◌, subst, some, none, String, lookup, false, ok, err, out_of_range, ◌⊎◌, inl, inr,
  ◌≢◌, List, Option-cases,
}
use dog_game_cpp.Float.{Float}
use dog_game_cpp.Collision.{EventSort}
use dog_game_cpp.LootGenerator.{Double}
use dog_game_cpp.Game.Data.{TokenGenerator}
use dog_game_cpp.MapParser.{ConfigJson, empty_storage, parse_maps}
use dog_game_cpp.MapParser.Storage.{maps_of, last_object, Stores, parse_maps-IsStored}
use dog_game_cpp.Api.{is_no_reading}
use dog_game_cpp.Api.Data.{Request, ApiHandler, success, make_string_response}
use dog_game_cpp.Api.Dispatch.{Outside}
use dog_game_cpp.Http.{content_body, after_prefix, map_prefix, handle_request}
use dog_game_cpp.Http.Answers.{handle_request_map}

-- With the maps of a configuration file whose objects are not printed as empty texts: a GET or HEAD
-- of `/api/v1/maps`, one character and an id is answered with 200 and, for GET, the text of the last
-- object of the array `maps` of the file that has that id. If there is none, then `std::out_of_range`
-- leaves the handler in place of the answer 404.
pub handle_request_configured :
    {F D G J : Type 0} ⦃f : Float F⦄ ⦃d : Double D⦄ ⦃sort : EventSort F⦄ ⦃g : TokenGenerator G⦄
    (out : Outside F D J) (c : ConfigJson F J) (config_content : J) (h : ApiHandler F D G)
    (target : String) (r : Request) (slash : Char) (id : String)
    → parse_maps out.json c config_content empty_storage ≡ ok h.game.storage
    → ((o : J) → c.serialize o ≢ "")
    → is_no_reading r.method ≡ false
    → after_prefix map_prefix target ≡ some (String.◌∷◌ slash id)
    → (xs : List J) × (maps_of out.json c config_content ≡ ok xs)
      × (((last_object out.json c id xs none ≡ none)
            × (handle_request out h target r ≡ some (err out_of_range)))
          ⊎ ((o : J) × (last_object out.json c id xs none ≡ some o)
              × (handle_request out h target r
                  ≡ some (
                      ok (
                        h,
                        some (
                            make_string_response r success
                              (content_body r.method (c.serialize o))
                              none),
                      )))))
handle_request_configured out c config_content h target r slash id e full m p =
    let (xs, at_maps, v) = parse_maps-IsStored out.json c config_content id e in
    (
      xs,
      at_maps,
      elim (Option-cases (last_object out.json c id xs none)) [
        | inl n ↦
            let (_, k) = subst (Stores out.json c h.game.storage id) n v in
            elim (handle_request_map out h target r slash id m p (λ t q. cc)) [
              | inl (_, a) ↦ inl (n, a)
              | inr (t, q, _) ↦ cc
            ]
        | inr (o, l) ↦
            let (x, _, k, t, _) = subst (Stores out.json c h.game.storage id) l v in
            let there = λ (text : String) (q : lookup id h.game.storage.maps_json ≡ some text).
              subst (λ y. y ≢ "") (some-injective _ _ (sym k ∙ q)) (full o) in
            elim (handle_request_map out h target r slash id m p there) [
              | inl (q, _) ↦ cc
              | inr (text, q, a) ↦
                  let same : c.serialize o ≡ text = some-injective _ _ (sym k ∙ q) in
                  inr (o, l, rw same a)
            ]
      ],
    )
