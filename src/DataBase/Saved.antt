-- ===== src/DataBase/Saved.antt =====
-- The records of retired players from `SaveRetired` to `GetRetired` of src/db/postgres.cpp.
use mathlib.Core.List.Permᴰ
use dog_game_cpp.Common.{
  ℕ, ◌+◌, ◌^◌, ◌<◌, ◌≤◌, ◌≡◌, refl, ℤ, pos, negsuc, ◌≤ℤ◌, Bool, false, List, [], ◌∷◌, ◌++◌, map,
  String, str_eq, arith, ok, length, length-append, any_of, Permᴰ,
}
use dog_game_cpp.DataTypes.{PlayerRecordItem}
use dog_game_cpp.Request.{size}
use dog_game_cpp.Tagged.{Uuids, new_tagged, to_string}
use dog_game_cpp.DataBase.{
  Row, Sql, player_id, insert_text, record_of, row_of, save_retired, get_retired,
  save_retired_player, save_all,
}
use dog_game_cpp.DataBase.Ranking.{IsRanked}
use dog_game_cpp.DataBase.Slices.{length-Permᴰ, length-map, perm_middle}
use dog_game_cpp.DataBase.Pages.{HasRows, key_of, get_retired-all}

abbrev has_id : String → Row → Bool
has_id id r = str_eq r.id id

-- What the type `integer` of PostgreSQL holds.
abbrev pub IsInteger : ℤ → Type 0
IsInteger i = (negsuc 2147483647 ≤ℤ i) × (i ≤ℤ pos 2147483647)

-- The ids are new, the names have at most 100 characters, and scores and times fit their columns, as any
-- `int` does.
abbrev pub AreFresh : {U R : Type 0} → Uuids U R → List (R × PlayerRecordItem) → List Row → Type 0
AreFresh uuids [] rows = Unit
AreFresh uuids ((start, item) ∷ items) rows =
    (any_of (has_id (player_id uuids start)) rows ≡ false)
    × (size item.name ≤ 100)
    × IsInteger item.score
    × IsInteger item.play_time
    × AreFresh uuids items (row_of (player_id uuids start) item ∷ rows)

-- What PostgreSQL promises of the table: `Holds` relates a data base to the rows of its table, an
-- insertion of a row whose values are of the types of their columns, with a new id, the text of a UUID,
-- adds this row, and queries are answered as `HasRows` says.
pub record IsTable {B U R : Type 0} (sql : Sql B) (uuids : Uuids U R)
    (Holds : B → List Row → Type 0) : Type 0 where
  pub answers : (b : B) (rows : List Row) → Holds b rows → HasRows sql b rows
  pub inserts :
      (b : B) (rows : List Row) (row : Row) (id : U)
      → Holds b rows
      → row.id ≡ uuids.to_text id
      → any_of (has_id row.id) rows ≡ false
      → size row.name ≤ 100
      → IsInteger row.score
      → IsInteger row.play_time_ms
      → (b' : B) × (sql.execute_with insert_text row b ≡ ok b') × Holds b' (row ∷ rows)

module _ {B U R : Type 0} (sql : Sql B) (Holds : B → List Row → Type 0) (uuids : Uuids U R)
    (table : IsTable sql uuids Holds) where
  save_all-Holds :
      (b : B) (rows : List Row) (items : List (R × PlayerRecordItem))
      → Holds b rows
      → AreFresh uuids items rows
      → (b' : B) × (rows' : List Row) × (save_all sql uuids items b ≡ ok b')
        × Holds b' rows'
        × Permᴰ
            (map record_of rows')
            (map (λ (x : R × PlayerRecordItem). x.1) items ++ map record_of rows)
  unfolding save_all save_retired_player save_retired player_id new_tagged to_string
  save_all-Holds b rows [] h fresh = (b, rows, refl, h, Permᴰ.refl _)
  save_all-Holds b rows ((start, item) ∷ items) h (new, short, score, time, fresh) =
      let new_row = row_of (player_id uuids start) item in
      let (b1, e1, h1) =
        table.inserts b rows new_row (uuids.random start) h refl new short score time in
      let (b', rows', e, h', p) = save_all-Holds b1 (new_row ∷ rows) items h1 fresh in
      (
        b',
        rows',
        rw (e1, e) refl,
        h',
        Permᴰ.trans p
            (perm_middle (map (λ (x : R × PlayerRecordItem). x.1) items) item (map record_of rows)),
      )

  -- If the table keeps the promise, the ids are new, the names short enough and scores and times in the
  -- range of `int`, then saving the records of retired players returns, and a first page that is long enough then shows the saved records
  -- and those of before, each once and in the order of the ranking.
  pub save_all-get_retired :
      (b : B) (rows : List Row) (items : List (R × PlayerRecordItem)) (n : ℕ)
      → Holds b rows
      → AreFresh uuids items rows
      → length items + length rows ≤ n
      → n < 2 ^ 31
      → (b' : B) × (page : List PlayerRecordItem) × (save_all sql uuids items b ≡ ok b')
        × (get_retired sql (pos 0) (pos n) b' ≡ ok page)
        × Permᴰ page (map (λ (x : R × PlayerRecordItem). x.1) items ++ map record_of rows)
        × IsRanked (map key_of page)
  save_all-get_retired b rows items n h fresh l ln =
      let (b', rows', e, h', p) = save_all-Holds b rows items h fresh in
      let size_is = length-Permᴰ p in
      let (page, q, perm, ranked) =
        get_retired-all sql b' rows' n (table.answers b' rows' h')
          (omega (
            arith,
            l,
            size_is,
            length-map record_of rows',
            length-map record_of rows,
            length-map (λ (x : R × PlayerRecordItem). x.1) items,
            length-append (map (λ (x : R × PlayerRecordItem). x.1) items) (map record_of rows),
          ))
          ln in
      (b', page, e, q, Permᴰ.trans perm p, ranked)
