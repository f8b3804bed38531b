-- ===== src/Api/Records.antt =====
-- `HandleGetRecordsAction` of src/network/api_handler.cpp. The table of retired players in the data
-- base is the parameter `get_retired_players`, which may throw.
use dog_game_cpp.Common.{
  String, pos, ◌≡◌, refl, false, some, lookup, Fits, ◌≤ℤ◌, ◌⊎◌, inl, inr, Bool-cases, arith, ℤ,
  ltb_ℤ, List, none, if◌then◌else◌, Result, ok, ◌>>=◌,
}
use dog_game_cpp.DataTypes.{PlayerRecordItem}
use dog_game_cpp.Request.Parameters.{parse_parameters, read_max_items, max_db_records}
use dog_game_cpp.Request.Numbers.{decimal, stoi-decimal}
use dog_game_cpp.Api.{is_no_reading}
use dog_game_cpp.Api.Data.{
  success, bad_request, method_not_allowed, records, Request, Response, ApiHandler, invalid_name,
  invalid_method, make_string_response,
}

module _ {F D G : Type 0} where
  unfoldable pub handle_get_records_action :
      (ℤ → ℤ → Result (List PlayerRecordItem))
      → ApiHandler F D G
      → Request
      → Result (ApiHandler F D G × Response F)
  handle_get_records_action get_retired_players h r =
      let (start, max_items) = parse_parameters r.params in
      if is_no_reading r.method
      then ok (h, make_string_response r method_not_allowed invalid_method none)
      else if ltb_ℤ max_db_records max_items
      then ok (h, make_string_response r bad_request invalid_name none)
      else (get_retired_players start max_items >>= λ items.
          ok (h, make_string_response r success (records items) none))

parse_parameters-decimal :
    (params : List (String × String)) (start max_items : ℤ)
    → lookup "start" params ≡ some (decimal start)
    → lookup "maxItems" params ≡ some (decimal max_items)
    → Fits start
    → Fits max_items
    → parse_parameters params ≡ (start, max_items)
unfolding parse_parameters read_max_items
parse_parameters-decimal params start max_items a b s t =
    rw (parse_parameters, a, stoi-decimal start s, read_max_items, b, stoi-decimal max_items t) refl

-- A GET or HEAD for the records whose parameters are the decimal numbers `start` and `max_items`,
-- both in the range of `int`: where `max_items` is above 100 the answer is 400 and the data base is
-- not asked. Else it is asked for exactly these numbers, negative ones too, and what it throws
-- leaves the handler.
pub handle_get_records_action_asks :
    {F D G : Type 0} (get_retired_players : ℤ → ℤ → Result (List PlayerRecordItem))
    (h : ApiHandler F D G) (r : Request) (start max_items : ℤ)
    → is_no_reading r.method ≡ false
    → lookup "start" r.params ≡ some (decimal start)
    → lookup "maxItems" r.params ≡ some (decimal max_items)
    → Fits start
    → Fits max_items
    → ((max_items ≤ℤ pos 100)
        × (handle_get_records_action get_retired_players h r ≡ (
            get_retired_players start max_items >>= λ items.
            ok (h, make_string_response r success (records items) none))))
      ⊎ ((pos 101 ≤ℤ max_items)
          × (handle_get_records_action get_retired_players h r
              ≡ ok (h, make_string_response r bad_request invalid_name none)))
unfolding handle_get_records_action
handle_get_records_action_asks get_retired_players h r start max_items m a b s t =
    let parsed = parse_parameters-decimal r.params start max_items a b s t in
    elim (Bool-cases (ltb_ℤ max_db_records max_items)) [
      | inl y ↦ inr (ground (arith, y), rw (handle_get_records_action, parsed, m, y) refl)
      | inr y ↦ inl (ground (arith, y), rw (handle_get_records_action, parsed, m, y) refl)
    ]
