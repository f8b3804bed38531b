-- ===== src/Http/Connection/Maps.antt =====
-- The maps of a running server: nothing changes them.
use Prim.Native.Char.{Char}
use dog_game_cpp.Common.{
  ◌≡◌, sym, ap, ◌∙◌, some, none, String, List, false, ok, err, out_of_range, ◌⊎◌, ◌≢◌, Bool,
}
use dog_game_cpp.Float.{Float}
use dog_game_cpp.Collision.{EventSort}
use dog_game_cpp.LootGenerator.{Double}
use dog_game_cpp.Game.Data.{TokenGenerator}
use dog_game_cpp.MapParser.{ConfigJson, empty_storage, parse_maps}
use dog_game_cpp.MapParser.Storage.{maps_of, last_object}
use dog_game_cpp.Api.{is_no_reading}
use dog_game_cpp.Api.Data.{Request, Response, ApiHandler, success, make_string_response}
use dog_game_cpp.Api.Dispatch.{Outside}
use dog_game_cpp.Http.{after_prefix, map_prefix, handle_request, content_body}
use dog_game_cpp.Http.Configured.{handle_request_configured}
use dog_game_cpp.Http.Connection.Games.{Reach-storage}
use dog_game_cpp.Http.Connection.{Server, Moment, at_moment, start_server, Reach}

module _ {F D G J W : Type 0} ⦃f : Float F⦄ ⦃d : Double D⦄ ⦃sort : EventSort F⦄
    ⦃g : TokenGenerator G⦄ (out : Outside F D J) (moment : W → Moment F) where
  -- A server that was started with the maps of a configuration file whose objects are not printed as
  -- empty texts, in any state that it can reach: a GET or HEAD of `/api/v1/maps`, one character and an id
  -- is answered with 200 and, for GET, the text of the last object of the array `maps` of the file that
  -- has that id. If there is none, then `std::out_of_range` leaves the handler in place of the answer 404.
  pub Reach-handle_request :
      (need_eof : Response F → Bool) (w : W) (c : ConfigJson F J) (config_content : J)
      (h : ApiHandler F D G) (target : String) (r : Request) (slash : Char) (id : String)
      {s : Server F D G}
      → parse_maps out.json c config_content empty_storage ≡ ok h.game.storage
      → ((o : J) → c.serialize o ≢ "")
      → Reach out moment need_eof (start_server h) s
      → is_no_reading r.method ≡ false
      → after_prefix map_prefix target ≡ some (String.◌∷◌ slash id)
      → (xs : List J) × (maps_of out.json c config_content ≡ ok xs)
        × (((last_object out.json c id xs none ≡ none)
              × (handle_request (at_moment out (moment w)) s.handler target r
                  ≡ some (err out_of_range)))
            ⊎ ((o : J) × (last_object out.json c id xs none ≡ some o)
                × (handle_request (at_moment out (moment w)) s.handler target r
                    ≡ some (
                        ok (
                          s.handler,
                          some (
                              make_string_response r success
                                (content_body r.method (c.serialize o))
                                none),
                        )))))
  Reach-handle_request need_eof w c config_content h target r slash id {s} e full reach m p =
      handle_request_configured (at_moment out (moment w)) c config_content s.handler target r slash
        id (e ∙ ap ok (sym (Reach-storage out moment need_eof reach))) full m p
