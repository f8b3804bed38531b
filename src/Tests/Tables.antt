-- ===== src/Tests/Tables.antt =====
-- The theorems on the table of retired players at concrete values: a data base that keeps its rows in
-- the order of the ranking.
use mathlib.Core.List.Permᴰ
use dog_game_cpp.Common.{
  ℕ, ◌≡◌, refl, inl, inr, pos, pos_part, Bool, true, false, List, [], ◌∷◌, ◌++◌, map, String,
  if◌then◌else◌, arith, ok, Permᴰ, All, All-map, Bool-cases,
}
use dog_game_cpp.DataTypes.{PlayerRecordItem}
use dog_game_cpp.Request.{size}
use dog_game_cpp.Tagged.{Uuids, new_tagged, to_string}
use dog_game_cpp.DataBase.{record_of, Row, Sql, get_retired, player_id, save_all}
use dog_game_cpp.DataBase.Ranking.{Key, ranks, IsRanked}
use dog_game_cpp.DataBase.Slices.{take, drop}
use dog_game_cpp.DataBase.Pages.{HasRows, key_of, key_of_row, get_retired-pages}
use dog_game_cpp.DataBase.Saved.{IsTable, save_all-get_retired}

abbrev before : Row → Row → Bool
before a b = ranks (key_of_row a) (key_of_row b)

insert_row : Row → List Row → List Row
insert_row row [] = row ∷ []
insert_row row (r ∷ rows) =
    let rest = insert_row row rows in if before row r then row ∷ r ∷ rows else r ∷ rest

insert_row-perm : (row : Row) (rows : List Row) → Permᴰ (insert_row row rows) (row ∷ rows)
unfolding insert_row
insert_row-perm row [] = Permᴰ.refl _
insert_row-perm row (r ∷ rows) = elim (Bool-cases (before row r)) [
  | inl y ↦ rw y (Permᴰ.refl _)
  | inr n ↦ rw n (Permᴰ.trans (Permᴰ.cons refl (insert_row-perm row rows)) (Permᴰ.swap refl refl))
]

other_first : (a b : Key) → ranks a b ≡ false → ranks b a ≡ true
other_first a b e = ground (arith, e)

ranks_trans : (a b c : Key) → ranks a b ≡ true → ranks b c ≡ true → ranks a c ≡ true
ranks_trans a b c h k = ground (arith, h, k)

insert_row-All :
    (k : Key) (row : Row) (rows : List Row)
    → ranks k (key_of_row row) ≡ true
    → All (λ j. ranks k j ≡ true) (map key_of_row rows)
    → All (λ j. ranks k j ≡ true) (map key_of_row (insert_row row rows))
unfolding insert_row
insert_row-All k row [] h hs = (h, tt)
insert_row-All k row (r ∷ rows) h (p, ps) = elim (Bool-cases (before row r)) [
  | inl y ↦ rw y (h, (p, ps))
  | inr n ↦ rw n (p, insert_row-All k row rows h ps)
]

insert_row-IsRanked :
    (row : Row) (rows : List Row)
    → IsRanked (map key_of_row rows)
    → IsRanked (map key_of_row (insert_row row rows))
unfolding insert_row
insert_row-IsRanked row [] r = (tt, tt)
insert_row-IsRanked row (x ∷ rows) (h, r) = elim (Bool-cases (before row x)) [
  | inl y ↦ rw y (
    (y, All-map (map key_of_row rows) (λ j. ranks_trans (key_of_row row) (key_of_row x) j y) h),
    (h, r),
  )
  | inr n ↦ rw n (
    insert_row-All (key_of_row x) row rows (other_first (key_of_row row) (key_of_row x) n) h,
    insert_row-IsRanked row rows r,
  )
]

ranked_sql : Sql (List Row)
ranked_sql = record {
  execute = λ text b. ok b;
  execute_with = λ text row b. ok (insert_row row b);
  query = λ text max_items start b. ok (take (pos_part max_items) (drop (pos_part start) b));
}

uuids : Uuids String String
uuids = record {
  random = λ start. start;
  zero_uuid = "";
  to_text = λ id. id;
  of_text = λ text. ok text;
}

abbrev Holds : List Row → List Row → Type 0
Holds b rows = Permᴰ b rows × IsRanked (map key_of_row b)

ranked_sql-IsTable : IsTable ranked_sql uuids Holds
unfolding ranked_sql
ranked_sql-IsTable = record {
  answers = λ b rows h. record { page = λ n k ln lk. (b, h.0, h.1, refl) };
  inserts = λ b rows row id h is_id new short score time. (
    insert_row row b,
    refl,
    (Permᴰ.trans (insert_row-perm row b) (Permᴰ.cons refl h.0), insert_row-IsRanked row b h.1),
  );
}

abbrev row : String → String → ℕ → ℕ → Row
row id name score time = record { id = id; name = name; score = pos score; play_time_ms = pos time }

abbrev three_rows : List Row
three_rows = row "a" "Anna" 30 900 ∷ row "b" "Boris" 20 100 ∷ row "c" "Clara" 20 500 ∷ []

three_rows-HasRows : HasRows ranked_sql three_rows three_rows
unfolding ranked_sql
three_rows-HasRows = record {
  page =
      λ n k ln lk. (three_rows, Permᴰ.refl _, ((refl, (refl, tt)), ((refl, tt), (tt, tt))), refl);
}

two_pages :
    (first : List PlayerRecordItem) × (second : List PlayerRecordItem) × (both : List
      PlayerRecordItem)
    × (get_retired ranked_sql (pos 0) (pos 2) three_rows ≡ ok first)
    × (get_retired ranked_sql (pos 2) (pos 2) three_rows ≡ ok second)
    × (get_retired ranked_sql (pos 0) (pos 4) three_rows ≡ ok both)
    × (map key_of (first ++ second) ≡ map key_of both)
    × IsRanked (map key_of (first ++ second))
two_pages =
    get_retired-pages ranked_sql three_rows three_rows 0 2 2 three_rows-HasRows (omega arith)

abbrev retired : List (String × PlayerRecordItem)
retired =
    ("d", record { name = "Dora"; score = pos 25; play_time = pos 10 })
    ∷ ("e", record { name = "Emil"; score = pos 30; play_time = pos 950 })
    ∷ []

retired_are_shown :
    (b' : List Row) × (page : List PlayerRecordItem) × (save_all ranked_sql uuids retired three_rows
      ≡ ok b')
    × (get_retired ranked_sql (pos 0) (pos 5) b' ≡ ok page)
    × Permᴰ page (map (λ (x : String × PlayerRecordItem). x.1) retired ++ map record_of three_rows)
    × IsRanked (map key_of page)
unfolding size uuids player_id new_tagged to_string
retired_are_shown =
    save_all-get_retired ranked_sql Holds uuids ranked_sql-IsTable three_rows three_rows retired 5
      (Permᴰ.refl _, ((refl, (refl, tt)), ((refl, tt), (tt, tt))))
      (
        refl,
        omega arith,
        (omega arith, omega arith),
        (omega arith, omega arith),
        (refl, omega arith, (omega arith, omega arith), (omega arith, omega arith), tt),
      )
      (omega arith) (omega arith)
