-- ===== src/Index/Update.antt =====
-- src/index.cpp: the actions that write to an index file.
use mathlib.Core.Option
use zidanedb.Base.{
  ℕ, ◌+◌, ◌-◌, ◌%◌, ◌^◌, none, some, Bool, true, false, ◌==◌, ltb, if◌then◌else◌, length,
}
use zidanedb.Base.Results.{
  Result, ok, throws, could_not_open_index, could_not_update_index, key_too_large,
}
use zidanedb.Base.Exec.{pure, raise, reads, puts, ◌>>=◌, ◌>>◌}
use zidanedb.Constants.{max_key_size}
use zidanedb.Stream.{Bytes, seek_ok, seekg, write_at}
use zidanedb.Utils.{Read, read_uint64, write_uint64, write_uint8, write_string}
use zidanedb.Index.Read.{Index, EntryLocation, header_size, find_entry_offset}
use zidanedb.Index.File.{FileExec}

-- `std::fstream file{path_, in | out}; if (!file) throw ...;`
abbrev pub open_file : FileExec Bytes
open_file none = (throws could_not_open_index, none)
open_file (some file) = (ok file, some file)

-- `file.seekp(off)` with exceptions enabled; the handler of `ios_base::failure` names the message
abbrev pub seekp : ℕ → FileExec (Unit {0})
seekp off = if seek_ok off then pure tt else raise could_not_update_index

abbrev pub write_file : ℕ → Bytes → FileExec (Unit {0})
write_file off bytes = puts (Option.map (write_at off bytes))

unfoldable pub set_index_clean : Index → Bool → FileExec Index
set_index_clean ix val = do
  let offset = header_size ix - 1
  let code : ℕ = if val then 1 else 0
  open_file
  seekp offset
  write_file offset (write_uint8 code)
  pure (record ix { index_clean = code })

unfoldable pub set_indexed_up_to_offset : Index → ℕ → FileExec Index
set_indexed_up_to_offset ix db_offset = do
  let offset = header_size ix - 1 - 8
  open_file
  seekp offset
  write_file offset (write_uint64 db_offset)
  pure (record ix { indexed_up_to_offset = db_offset })

-- The branch of `set` that appends a new entry and links it to the previous head.
unfoldable pub append_entry : Bytes → EntryLocation → Bytes → ℕ → FileExec (Unit {0})
append_entry file offsets key db_offset = do
  let new_offset = length file
  write_file new_offset (write_uint64 db_offset)
  write_file (new_offset + 8) (write_uint64 offsets.chain_offset)
  key_bytes ← reads (λ _. write_string key max_key_size)
  write_file (new_offset + 16) key_bytes
  seekp offsets.bucket_offset
  write_file offsets.bucket_offset (write_uint64 new_offset)

-- The branch of `set` that replaces the offset of an entry.
unfoldable pub replace_entry : EntryLocation → ℕ → FileExec (Unit {0})
replace_entry offsets db_offset = do
  seekp offsets.entry_offset
  write_file offsets.entry_offset (write_uint64 db_offset)

unfoldable pub set : Index → Bytes → ℕ → FileExec (Unit {0})
unfolding find_entry_offset append_entry replace_entry
set ix key db_offset = if ltb max_key_size (length key) then raise key_too_large else do
  file ← open_file
  offsets ← reads (λ _. find_entry_offset ix file key)
  if offsets.entry_offset == 0
      then append_entry file offsets key db_offset
      else replace_entry offsets db_offset

-- `read_uint64` with exceptions enabled, on the file as it is now
abbrev value_or_failure : Read ℕ → Result ℕ
value_or_failure (Read.success n s) = ok n
value_or_failure _ = throws could_not_update_index

abbrev pub read_link : ℕ → FileExec ℕ
read_link off none = (throws could_not_update_index, none)
read_link off (some file) = (value_or_failure (read_uint64 (seekg file off)), some file)

-- What pointed at the removed entry: its predecessor's link, or the bucket's head.
unfoldable pub link_offset : EntryLocation → ℕ
link_offset offsets =
    if offsets.prev_entry_offset == 0
    then offsets.bucket_offset
    else (offsets.prev_entry_offset + 8) % 2 ^ 64

-- The branch of `erase` for an entry that is there.
unfoldable pub unlink_entry : EntryLocation → FileExec Bool
unlink_entry offsets = do
  seekp offsets.entry_offset
  write_file offsets.entry_offset (write_uint64 0)
  let next_link = (offsets.entry_offset + 8) % 2 ^ 64
  seekp next_link
  next_entry_offset ← read_link next_link
  let link = link_offset offsets
  seekp link
  write_file link (write_uint64 next_entry_offset)
  pure true

unfoldable pub erase : Index → Bytes → FileExec Bool
unfolding find_entry_offset unlink_entry
erase ix key = do
  file ← open_file
  offsets ← reads (λ _. find_entry_offset ix file key)
  if offsets.entry_offset == 0 then pure false else unlink_entry offsets
