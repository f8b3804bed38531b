-- ===== src/Tagged.antt =====
-- src/utility/tagged.h, src/utility/tagged_uuid.h and src/utility/tagged_uuid.cpp: values that a tag
-- keeps apart, and ids of boost::uuids, which is the parameter `Uuids`.
use dog_game_cpp.Common.{ℕ, ◌≡◌, String, refl, Result, ok, ◌>>=◌}

-- `Tagged<Value, Tag>`; the type `Tag` has no use but in types.
pub record Tagged (Tag Value : Type 0) : Type 0 where
  pub value : Value

-- `U` is `UUIDType`, and `R` what a `random_generator` starts with; each `NewUUID` makes one.
pub record Uuids (U R : Type 0) : Type 0 where
  pub random : R → U
  pub zero_uuid : U
  pub to_text : U → String
  pub of_text : String → Result U

module _ {Tag Value : Type 0} where
  -- `operator<=>`, by that of the values.
  unfoldable pub compare {ℓ} :
      {Order : Type ℓ} → (Value → Value → Order) → Tagged Tag Value → Tagged Tag Value → Order
  compare by a b = by a.value b.value

  -- `TaggedHasher`
  unfoldable pub hash_of : (Value → ℕ) → Tagged Tag Value → ℕ
  hash_of hash t = hash t.value

module _ {Tag U R : Type 0} (uuids : Uuids U R) where
  -- The constructor `TaggedUUID::TaggedUUID`.
  unfoldable pub zero_tagged : Tagged Tag U
  zero_tagged = record { value = uuids.zero_uuid }

  unfoldable pub new_tagged : R → Tagged Tag U
  new_tagged start = record { value = uuids.random start }

  unfoldable pub from_string : String → Result (Tagged Tag U)
  from_string uuid_as_text = uuids.of_text uuid_as_text >>= λ id. ok (record { value = id })

  unfoldable pub to_string : Tagged Tag U → String
  to_string t = uuids.to_text t.value

  -- An id is read back from its text where boost::uuids reads it back.
  from_string-to_string :
      (t : Tagged Tag U)
      → uuids.of_text (uuids.to_text t.value) ≡ ok t.value
      → from_string (to_string t) ≡ ok t
  unfolding from_string to_string
  from_string-to_string t e = rw e refl
