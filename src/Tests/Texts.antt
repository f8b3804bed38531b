-- ===== src/Tests/Texts.antt =====
-- The theorems on the texts of responses, and on ticks, at concrete values.
use dog_game_cpp.Common.{
  ℕ, zero, suc, ℤ, pos, negsuc, ◌+◌, ◌*◌, ◌-◌, ◌^◌, ◌≤◌, ◌≡◌, refl, sym, ap, ◌∙◌, true, List, [],
  ◌∷◌, String, str_eq, some, none, lookup, eq_iff, length, arith,
}
use dog_game_cpp.Float.Fixed.{Fixed, fixed_float}
use dog_game_cpp.Request.{size}
use dog_game_cpp.Session.Data.{Player}
use dog_game_cpp.Serializer.{
  JsonWriter, serialize_players, serialize_loots, dog_object, loot_object,
}
use dog_game_cpp.Serializer.Members.{last_with, serialize_state_lem}
use dog_game_cpp.Ticker.{Ticker, run_ticks}
use dog_game_cpp.Ticker.Drift.{sum, run_ticks_lem}
use dog_game_cpp.Tests.Values.{anna, boris, lost_key}

abbrev unary : ℕ → String
unary zero = ""
unary (suc n) = String.◌∷◌ "1" (unary n)

abbrev print : ℤ → String
print (pos n) = unary n
print (negsuc n) = String.◌∷◌ "-" (unary n)

size-unary : (n : ℕ) → size (unary n) ≡ n
unfolding size
size-unary zero = refl
size-unary (suc n) = ap suc (size-unary n)

-- Values are written as texts.
abbrev pub plain_texts : JsonWriter Fixed ℕ String
plain_texts = record {
  text = λ s. s;
  number = print;
  from_float = λ x. "f";
  from_double = λ x. "d";
  array = λ vs. "[]";
  object = λ members. "{}";
  serialize = λ s. s;
  to_string = print;
  of_int = λ n. 0;
  div = λ x y. 0;
}

print-distinct : (i k : ℕ) → str_eq (print (pos i)) (print (pos k)) ≡ true → i ≡ k
print-distinct i k e =
    sym (size-unary i) ∙ ap size ((eq_iff (unary i) (unary k)).0 e) ∙ size-unary k

-- Two players with one id.
abbrev twin : Player Fixed
twin = record boris { id = anna.id }

last_of_two :
    (lookup (print anna.id) (serialize_players plain_texts (anna ∷ twin ∷ []))
      ≡ elim (last_with plain_texts (print anna.id) (anna ∷ twin ∷ [])) [
        | some p ↦ some (dog_object plain_texts p)
        | none ↦ none
      ])
    × (lookup (print (pos 0)) (serialize_loots plain_texts (lost_key ∷ []))
        ≡ some (loot_object plain_texts lost_key))
last_of_two =
    serialize_state_lem plain_texts (anna ∷ twin ∷ []) (lost_key ∷ []) (print anna.id) 0
      print-distinct

abbrev two_ticks : List ℕ
two_ticks = 51900000 ∷ 103800000 ∷ []

abbrev started : Ticker
started = record { period = pos 50; last_tick = 1000000; has_started = true }

almost_two_lost :
    (started.last_tick ≤ (run_ticks two_ticks started).1.last_tick)
    × (sum (run_ticks two_ticks started).0 * 10 ^ 6
        ≤ (run_ticks two_ticks started).1.last_tick - started.last_tick)
    × ((run_ticks two_ticks started).1.last_tick - started.last_tick
        ≤ sum (run_ticks two_ticks started).0 * 10 ^ 6 + length two_ticks * (10 ^ 6 - 1))
almost_two_lost = run_ticks_lem two_ticks started (omega arith, (omega arith, tt))
