-- ===== src/Base/Results.antt =====
-- Results of code that may throw.
use Prim.Native.Nat.{ℕ}
use mathlib.Core.Bool.{Bool, true, false}
use mathlib.Core.List.{List}

-- The exceptions of the program, one constructor for each message that the source throws. The three
-- families are `InvalidIndexError`, `std::runtime_error` and `std::logic_error`/`std::length_error`.
pub data Exception : Type 0 where
  invalid_index_magic unsupported_index_version invalid_num_buckets : Exception
  invalid_indexed_up_to_offset invalid_clean_flag index_too_small : Exception
  num_buckets_zero index_missing could_not_open_index could_not_update_index : Exception
  seek_failed could_not_read_chain_offset could_not_read_db_offset : Exception
  could_not_read_next_entry_offset could_not_read_key key_too_large : Exception
  could_not_open_db invalid_db_magic unsupported_db_version db_missing : Exception
  bad_extension index_not_empty value_too_large cannot_get_record : Exception
  record_type_not_put record_key_differs index_entry_missing : Exception
  db_corrupted db_corrupted_rebuild index_not_caught_up : Exception
  staging_error no_unique_staging_path filesystem_error : Exception
  database_closed string_too_large : Exception
  temporary_directory_error no_unique_temporary_directory : Exception

-- `catch (const InvalidIndexError&)` takes these six.
abbrev pub is_invalid_index : Exception → Bool
is_invalid_index invalid_index_magic = true
is_invalid_index unsupported_index_version = true
is_invalid_index invalid_num_buckets = true
is_invalid_index invalid_indexed_up_to_offset = true
is_invalid_index invalid_clean_flag = true
is_invalid_index index_too_small = true
is_invalid_index _ = false

-- `diverges`: a loop that never ends, such as the walk along a cyclic chain. `stops_at name`: the
-- process is stopped by SIGSTOP at the failpoint of that name, so nothing behind it happens.
pub data Result {ℓ} (A : Type ℓ) : Type ℓ where
  ok : A → Result A
  throws : Exception → Result A
  diverges : Result A
  stops_at : (name : List ℕ) → Result A

abbrev pub and_then {ℓ κ} : {A : Type ℓ} {B : Type κ} → Result A → (A → Result B) → Result B
and_then (ok a) f = f a
and_then (throws e) f = throws e
and_then diverges f = diverges
and_then (stops_at name) f = stops_at name

infixl 5 ◌>>=◌ ◌>>◌
abbrev pub ◌>>=◌ {ℓ κ} : {A : Type ℓ} {B : Type κ} → Result A → (A → Result B) → Result B
r >>= f = and_then r f

abbrev pub ◌>>◌ {ℓ κ} : {A : Type ℓ} {B : Type κ} → Result A → Result B → Result B
r >> q = r >>= λ _. q
