-- ===== src/Http/Stream.antt =====
-- `SyncWriteOStreamAdapter` of src/network/request_handler.h. The stream is the parameter `write`,
-- which tells whether it is still good; a buffer is a list of bytes.
use dog_game_cpp.Common.{
  ℕ, ◌+◌, ◌≤◌, ◌≡◌, Bool, true, false, List, [], ◌∷◌, length, ◌==◌, if◌then◌else◌, Bool-cases, inl,
  inr, arith,
}

-- `net::buffer_size`
unfoldable pub buffer_size : List (List ℕ) → ℕ
buffer_size [] = 0
buffer_size (cb ∷ cbs) = length cb + buffer_size cbs

-- What `write_some` returns, and whether it sets `ec` to an error.
pub record Written (S : Type 0) : Type 0 where
  pub os : S
  pub bytes_written : ℕ
  pub failed : Bool

module _ {S : Type 0} (write : S → List ℕ → S × Bool) where
  -- The loop over the buffers.
  unfoldable pub write_each : S → List (List ℕ) → ℕ → Written S
  write_each os [] bytes_written = record { os = os; bytes_written = bytes_written; failed = false }
  write_each os (cb ∷ cbs) bytes_written =
      let (os', good) = write os cb in
      let skipped = write_each os cbs bytes_written in
      let rest = write_each os' cbs (bytes_written + length cb) in
      if length cb == 0
      then skipped
      else if good
      then rest
      else record { os = os'; bytes_written = bytes_written; failed = true }

  unfoldable pub write_some : S → List (List ℕ) → Written S
  write_some os cbs =
      if buffer_size cbs == 0
      then record { os = os; bytes_written = 0; failed = false }
      else write_each os cbs 0

  write_each-bytes :
      (os : S) (cbs : List (List ℕ)) (n : ℕ)
      → ((write_each os cbs n).bytes_written ≤ n + buffer_size cbs)
        × ((write_each os cbs n).failed ≡ false
            → (write_each os cbs n).bytes_written ≡ n + buffer_size cbs)
  unfolding write_each buffer_size
  write_each-bytes os [] n = (omega arith, λ _. omega arith)
  write_each-bytes os (cb ∷ cbs) n =
      let skipped = write_each-bytes os cbs n in
      let rest = write_each-bytes (write os cb).0 cbs (n + length cb) in
      elim (Bool-cases (length cb == 0)) [
        | inl y ↦
            let none : length cb ≡ 0 = ground (arith, y) in
            rw y (omega (arith, skipped.0, none), λ ok. omega (arith, skipped.1 ok, none))
        | inr y ↦ elim (Bool-cases ((write os cb).1)) [
          | inl good ↦ rw (y, good) (omega (arith, rest.0), λ ok. omega (arith, rest.1 ok))
          | inr bad ↦ rw (y, bad) (omega arith, λ e. cc)
        ]
      ]

  -- `write_some` never counts more bytes than it was given, and counts all of them where it reports
  -- no error.
  pub write_some_lem :
      (os : S) (cbs : List (List ℕ))
      → ((write_some os cbs).bytes_written ≤ buffer_size cbs)
        × ((write_some os cbs).failed ≡ false → (write_some os cbs).bytes_written ≡ buffer_size cbs)
  unfolding write_some
  write_some_lem os cbs = elim (Bool-cases (buffer_size cbs == 0)) [
    | inl y ↦
        let none : buffer_size cbs ≡ 0 = ground (arith, y) in
        rw y (omega (arith, none), λ _. omega (arith, none))
    | inr y ↦
        let all = write_each-bytes os cbs 0 in
        rw y (omega (arith, all.0), λ ok. omega (arith, all.1 ok))
  ]
