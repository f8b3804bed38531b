-- ===== src/DataBase.antt =====
-- src/db/postgres.h and src/db/postgres.cpp, with `SaveRetiredPlayer` and `GetRetiredPlayers` of
-- src/utility/utility_functions.h: the table of retired players. libpqxx and PostgreSQL are the
-- parameter `Sql`; a transaction that throws leaves the data base as it was.
pub mod Ranking
pub mod Slices
pub mod Pages
pub mod Saved
use dog_game_cpp.Common.{ℤ, List, [], ◌∷◌, map, String, Result, ok, ◌>>=◌}
use dog_game_cpp.DataTypes.{PlayerRecordItem}
use dog_game_cpp.Tagged.{Uuids, new_tagged, to_string}

-- A row of the table: the id and the record.
pub record Row : Type 0 where
  pub id : String
  pub name : String
  pub score : ℤ
  pub play_time_ms : ℤ

-- `execute` is `exec`, `execute_with` is `exec_params` with the values of a row, and `query` is
-- `query<std::string, std::string, int, int>` of the text that `boost::format` makes of a template and
-- two numbers.
pub record Sql (B : Type 0) : Type 0 where
  pub execute : String → B → Result B
  pub execute_with : String → Row → B → Result B
  pub query : String → ℤ → ℤ → B → Result (List Row)

abbrev pub insert_text : String
insert_text = "INSERT INTO retired_players (id, name, score, play_time_ms) VALUES ($1, $2, $3, $4);"

-- The template of the query; `%1%` stands for `max_items`, and `%2%` for `start`.
abbrev pub select_template : String
select_template =
    "SELECT id, name, score, play_time_ms FROM retired_players ORDER BY score DESC, play_time_ms LIMIT %1% OFFSET %2%;"

-- The body of the loop of `GetRetired`.
abbrev pub record_of : Row → PlayerRecordItem
record_of row = record { name = row.name; score = row.score; play_time = row.play_time_ms }

-- The row that `SaveRetired` writes.
abbrev pub row_of : String → PlayerRecordItem → Row
row_of player_uuid item = record {
  id = player_uuid;
  name = item.name;
  score = item.score;
  play_time_ms = item.play_time;
}

-- Without the line breaks of the source.
abbrev pub create_table_text : String
create_table_text =
    "CREATE TABLE IF NOT EXISTS retired_players (id UUID PRIMARY KEY, name varchar(100) NOT NULL, score integer NOT NULL, play_time_ms integer NOT NULL );"

abbrev pub create_index_text : String
create_index_text =
    "CREATE INDEX IF NOT EXISTS score_time_name_idx ON retired_players (score DESC, play_time_ms, name);"

-- The tag `PlayerTag` of `SaveRetiredPlayer`.
pub data PlayerTag : Type 0 where

-- `PlayerId::New().ToString()`
unfoldable pub player_id : {U R : Type 0} → Uuids U R → R → String
player_id uuids start = to_string {Tag = PlayerTag} uuids (new_tagged uuids start)

module _ {B : Type 0} (sql : Sql B) where
  unfoldable pub save_retired : String → PlayerRecordItem → B → Result B
  save_retired player_uuid item b = sql.execute_with insert_text (row_of player_uuid item) b

  unfoldable pub get_retired : ℤ → ℤ → B → Result (List PlayerRecordItem)
  get_retired start max_items b = do
    rows ← sql.query select_template max_items start b
    ok (map record_of rows)

  unfoldable pub create_table : B → Result B
  create_table b = sql.execute create_table_text b >>= sql.execute create_index_text

  unfoldable pub get_retired_players : B → ℤ → ℤ → Result (List PlayerRecordItem)
  get_retired_players b start max_items = get_retired start max_items b

module _ {B U R : Type 0} (sql : Sql B) (uuids : Uuids U R) where
  unfoldable pub save_retired_player : R → PlayerRecordItem → B → Result B
  save_retired_player start item b = save_retired sql (player_id uuids start) item b

  -- The loop of `Game::save_expired_players`: each record has its own id and transaction.
  unfoldable pub save_all : List (R × PlayerRecordItem) → B → Result B
  save_all [] b = ok b
  save_all ((start, item) ∷ items) b = save_retired_player start item b >>= save_all items
