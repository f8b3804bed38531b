-- ===== src/Serializer.antt =====
-- src/serialization/json_serializer.cpp: the texts of responses. The values of boost::json and their
-- text are the parameter `JsonWriter`; an object is given as its members in the order of insertion.
pub mod Members
use dog_game_cpp.Common.{ℕ, suc, ℤ, pos, residue, List, [], ◌∷◌, map, String, str_eq, if◌then◌else◌}
use dog_game_cpp.DataTypes.{LootInfo, PlayerRecordItem}
use dog_game_cpp.DataTypes.Directions.{string_from_direction}
use dog_game_cpp.Dog.{Dog}
use dog_game_cpp.Session.Data.{Player}
use dog_game_cpp.Api.Data.{
  Body, empty, braces, map_not_found_body, bad_request_body, mapped, auth, player_info, dogs_info,
  records, map_list, map_content,
}

-- `to_string` is `std::to_string`; `of_int` and `div` are the conversion to `double` and its division.
pub record JsonWriter (F D V : Type 0) : Type 0 where
  pub text : String → V
  pub number : ℤ → V
  pub from_float : F → V
  pub from_double : D → V
  pub array : List V → V
  pub object : List (String × V) → V
  pub serialize : V → String
  pub to_string : ℤ → String
  pub of_int : ℤ → D
  pub div : D → D → D

-- `object[key] = value`
unfoldable pub set_member {ℓ} : {V : Type ℓ} → String → V → List (String × V) → List (String × V)
set_member key value [] = (key, value) ∷ []
set_member key value ((k, v) ∷ members) =
    let rest = set_member key value members in
    if str_eq k key then (k, value) ∷ members else (k, v) ∷ rest

module _ {F D V : Type 0} (w : JsonWriter F D V) where
  unfoldable pub make_error_responce : String → String → String
  make_error_responce code_message error_message = w.serialize (
      w.object
        (set_member "message" (w.text error_message) (set_member "code" (w.text code_message) [])))

  unfoldable pub make_auth_responce : String → ℤ → String
  make_auth_responce auth_key player_id = w.serialize (
      w.object (
        set_member "playerId" (w.number (pos (residue player_id)))
          (set_member "authToken" (w.text auth_key) [])))

  -- The loop of `MakeMappedResponce`, for a map in the order of its keys.
  unfoldable pub set_texts : List (String × String) → List (String × V) → List (String × V)
  set_texts [] resp_object = resp_object
  set_texts ((key, value) ∷ key_values) resp_object =
      set_texts key_values (set_member key (w.text value) resp_object)

  unfoldable pub make_mapped_responce : List (String × String) → String
  make_mapped_responce key_values = w.serialize (w.object (set_texts key_values []))

  -- The loops over players: each player under the text of its id.
  unfoldable pub set_players :
      (Player F → V) → List (Player F) → List (String × V) → List (String × V)
  set_players value [] members = members
  set_players value (p ∷ players) members =
      set_players value players (set_member (w.to_string p.id) (value p) members)

  unfoldable pub name_object : Player F → V
  name_object player = w.object (set_member "name" (w.text player.name) [])

  unfoldable pub get_player_info_responce : List (Player F) → String
  get_player_info_responce players_info =
      w.serialize (w.object (set_players name_object players_info []))

  unfoldable pub serialize_dog_bag : List (LootInfo F) → V
  serialize_dog_bag loots = w.array (
      map
        (λ (cur_loot : LootInfo F).
          w.object (
            set_member "type" (w.number cur_loot.type) (set_member "id" (w.number cur_loot.id) [])))
        loots)

  unfoldable pub dog_object : Player F → V
  dog_object player =
      let dog : Dog F = player.dog in
      let pos_ar = w.array (w.from_float dog.position.x ∷ w.from_float dog.position.y ∷ []) in
      let speed_ar = w.array (w.from_float dog.speed.vx ∷ w.from_float dog.speed.vy ∷ []) in
      w.object (
        set_member "score" (w.number dog.score) (
          set_member "bag" (serialize_dog_bag dog.gathered_loots) (
            set_member "dir" (w.text (string_from_direction dog.direction))
              (set_member "speed" speed_ar (set_member "pos" pos_ar [])))))

  unfoldable pub serialize_players : List (Player F) → List (String × V)
  serialize_players players = set_players dog_object players []

  unfoldable pub loot_object : LootInfo F → V
  loot_object loot =
      let pos_ar = w.array (w.from_float loot.x ∷ w.from_float loot.y ∷ []) in
      w.object (set_member "type" (w.number loot.type) (set_member "pos" pos_ar []))

  -- The loop of `SerializeLoots` from the index `i` on.
  unfoldable pub set_loots : ℕ → List (LootInfo F) → List (String × V) → List (String × V)
  set_loots i [] members = members
  set_loots i (loot ∷ loots) members =
      set_loots (suc i) loots (set_member (w.to_string (pos i)) (loot_object loot) members)

  unfoldable pub serialize_loots : List (LootInfo F) → List (String × V)
  serialize_loots loots = set_loots 0 loots []

  unfoldable pub get_players_dog_info_responce : List (Player F) → List (LootInfo F) → String
  get_players_dog_info_responce players loots = w.serialize (
      w.object (
        set_member "lostObjects" (w.object (serialize_loots loots))
          (set_member "players" (w.object (serialize_players players)) [])))

  -- The loop of `GetMapListResponce`, over the ids and names of the maps.
  unfoldable pub map_object : String × String → V
  map_object (id, name) =
      w.object (set_member "name" (w.text name) (set_member "id" (w.text id) []))

  -- `convert_int_to_double` of src/utility/utility_functions.h.
  unfoldable pub convert_int_to_double : ℤ → D
  convert_int_to_double play_time = w.div (w.of_int play_time) (w.of_int (pos 1000))

  unfoldable pub record_object : PlayerRecordItem → V
  record_object item = w.object (
      set_member "playTime" (w.from_double (convert_int_to_double item.play_time))
        (set_member "score" (w.number item.score) (set_member "name" (w.text item.name) [])))

  unfoldable pub make_records_responce : List PlayerRecordItem → String
  make_records_responce items = w.serialize (w.array (map record_object items))

  -- The text of a body.
  unfoldable pub body_text : Body F → String
  body_text empty = ""
  body_text braces = "{}"
  body_text map_not_found_body = make_error_responce "mapNotFound" "Map not found"
  body_text bad_request_body = make_error_responce "badRequest" "Bad request"
  body_text (mapped code message) =
      make_mapped_responce (("code", code) ∷ ("message", message) ∷ [])
  body_text (auth token id) = make_auth_responce token id
  body_text (player_info players) = get_player_info_responce players
  body_text (dogs_info players loots) = get_players_dog_info_responce players loots
  body_text (records items) = make_records_responce items
  body_text (map_list maps) = w.serialize (w.array (map map_object maps))
  body_text (map_content content) = content
