-- ===== src/DataBase/Pages.antt =====
-- What the pages of the table of retired players show, which src/db/postgres.cpp reads.
use mathlib.Core.List.Permᴰ
use mathlib.Core.List.{map-append}
use dog_game_cpp.Common.{
  ℕ, zero, suc, ◌+◌, ◌^◌, ◌<◌, ◌≤◌, ◌≡◌, refl, sym, ap, ◌∙◌, pos, true, List, [], ◌∷◌, ◌++◌, map,
  arith, ok, length, Permᴰ,
}
use dog_game_cpp.DataTypes.{PlayerRecordItem}
use dog_game_cpp.DataBase.{Row, Sql, select_template, record_of, get_retired}
use dog_game_cpp.DataBase.Ranking.{Key, ranks, IsRanked, ranked_order}
use dog_game_cpp.DataBase.Slices.{
  take, drop, take-append_drop, drop-drop, take-all, All-take, length-Permᴰ, map-take, map-drop,
}

IsRanked-take : (n : ℕ) (ks : List Key) → IsRanked ks → IsRanked (take n ks)
IsRanked-take zero ks r = tt
IsRanked-take (suc n) [] r = tt
IsRanked-take (suc n) (k ∷ ks) (h, r) =
    (All-take (λ j. ranks k j ≡ true) n ks h, IsRanked-take n ks r)

IsRanked-drop : (n : ℕ) (ks : List Key) → IsRanked ks → IsRanked (drop n ks)
IsRanked-drop zero ks r = r
IsRanked-drop (suc n) [] r = tt
IsRanked-drop (suc n) (k ∷ ks) (h, r) = IsRanked-drop n ks r

abbrev pub key_of_row : Row → Key
key_of_row r = (r.score, r.play_time_ms)

abbrev pub key_of : PlayerRecordItem → Key
key_of r = (r.score, r.play_time)

keys_of_page : (rows : List Row) → map key_of (map record_of rows) ≡ map key_of_row rows
keys_of_page [] = refl
keys_of_page (r ∷ rows) = ap (λ t. key_of_row r ∷ t) (keys_of_page rows)

module _ {B : Type 0} (sql : Sql B) where
  -- What PostgreSQL promises of a data base whose table has the rows, in whatever order it keeps them: a
  -- query with non-negative `int` limit and offset answers with a part of some ranked order of them, and
  -- each query may choose another one.
  pub record HasRows (b : B) (rows : List Row) : Type 0 where
    pub page :
        (n k : ℕ)
        → n < 2 ^ 31
        → k < 2 ^ 31
        → (order : List Row) × Permᴰ order rows
          × IsRanked (map key_of_row order)
          × (sql.query select_template (pos n) (pos k) b ≡ ok (take n (drop k order)))

  -- One page: the keys are a part of the ranked order.
  page_keys :
      (b : B) (rows order : List Row) (n k : ℕ)
      → HasRows b rows
      → Permᴰ order rows
      → IsRanked (map key_of_row order)
      → n < 2 ^ 31
      → k < 2 ^ 31
      → (page : List PlayerRecordItem) × (get_retired sql (pos k) (pos n) b ≡ ok page)
        × (map key_of page ≡ take n (drop k (map key_of_row order)))
  unfolding get_retired
  page_keys b rows order n k h p r ln lk =
      let (other, q, s, e) = h.page n k ln lk in
      let same = ranked_order s r (Permᴰ.map key_of_row (Permᴰ.trans q (Permᴰ.symm p))) in
      (
        map record_of (take n (drop k other)),
        rw e refl,
        keys_of_page (take n (drop k other))
            ∙ map-take key_of_row n (drop k other)
            ∙ ap (take n) (map-drop key_of_row k other ∙ ap (drop k) same),
      )

  -- Where the data base has rows and keeps the promise, two pages that follow on each other hold the
  -- scores and times that one page for both holds, in the order of the ranking, highest score first and
  -- then the shortest time, however ties are broken for each of the pages.
  pub get_retired-pages :
      (b : B) (rows : List Row) (start n m : ℕ)
      → HasRows b rows
      → start + n + m < 2 ^ 31
      → (first : List PlayerRecordItem) × (second : List PlayerRecordItem) × (both : List
          PlayerRecordItem)
        × (get_retired sql (pos start) (pos n) b ≡ ok first)
        × (get_retired sql (pos (start + n)) (pos m) b ≡ ok second)
        × (get_retired sql (pos start) (pos (n + m)) b ≡ ok both)
        × (map key_of (first ++ second) ≡ map key_of both)
        × IsRanked (map key_of (first ++ second))
  get_retired-pages b rows start n m h l =
      let (order, p, r, _) = h.page n start (omega (arith, l)) (omega (arith, l)) in
      let keys = map key_of_row order in
      let (first, e1, k1) =
        page_keys b rows order n start h p r (omega (arith, l)) (omega (arith, l)) in
      let (second, e2, k2) =
        page_keys b rows order m (start + n) h p r (omega (arith, l)) (omega (arith, l)) in
      let (both, e3, k3) =
        page_keys b rows order (n + m) start h p r (omega (arith, l)) (omega (arith, l)) in
      let together : map key_of (first ++ second) ≡ take (n + m) (drop start keys) =
        map-append key_of first second
        ∙ ap (λ t. t ++ map key_of second) k1
        ∙ ap (λ t. take n (drop start keys) ++ t) (k2 ∙ ap (take m) (sym (drop-drop start n keys)))
        ∙ take-append_drop n m (drop start keys) in
      (
        first,
        second,
        both,
        e1,
        e2,
        e3,
        together ∙ sym k3,
        rw together (IsRanked-take (n + m) (drop start keys) (IsRanked-drop start keys r)),
      )

  -- Where the data base has rows and keeps the promise, a first page that is long enough shows each of
  -- them once.
  pub get_retired-all :
      (b : B) (rows : List Row) (n : ℕ)
      → HasRows b rows
      → length rows ≤ n
      → n < 2 ^ 31
      → (page : List PlayerRecordItem) × (get_retired sql (pos 0) (pos n) b ≡ ok page)
        × Permᴰ page (map record_of rows)
        × IsRanked (map key_of page)
  unfolding get_retired
  get_retired-all b rows n h l ln =
      let (order, p, r, e) = h.page n 0 ln (omega arith) in
      let whole = take-all n order (omega (arith, l, length-Permᴰ p)) in
      (map record_of order, rw (e, whole) refl, Permᴰ.map record_of p, rw (keys_of_page order) r)
