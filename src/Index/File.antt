-- ===== src/Index/File.antt =====
-- src/index.cpp: opening an index, creating a new one, and its header fields.
use zidanedb.Base.{
  ℕ, zero, suc, ◌-◌, ◌/◌, Option, none, some, [], ◌++◌, Bool, true, false, ◌||◌, not, ◌==◌, ltb,
  if◌then◌else◌, bytes_eq, length,
}
use zidanedb.Base.Exec.{Exec, raise}
use zidanedb.Base.Results.{
  Exception, Result, ok, throws, diverges, stops_at, ◌>>=◌, invalid_index_magic,
  unsupported_index_version, invalid_num_buckets, invalid_indexed_up_to_offset, invalid_clean_flag,
  index_too_small, num_buckets_zero,
}
use zidanedb.Constants.{index_magic, index_version}
use zidanedb.Stream.{Bytes, IStream, stream}
use zidanedb.Utils.{
  read_uint64, read_uint32, read_uint8, read_string, write_uint64, write_uint32, write_uint8,
  write_string,
}
use zidanedb.Index.Read.{Index, expect, header_size}

-- `if (cond) throw e;` behind a read
abbrev pub unless_throws : {A : Type 0} → Bool → Exception → A → Result A
unless_throws true e a = ok a
unless_throws false e a = throws e

-- The header as `load` reads and checks it.
unfoldable pub load_header : IStream → Result Index
load_header s = do
  (magic, s) ← expect (read_string s (length index_magic)) invalid_index_magic
  magic ← unless_throws (bytes_eq magic index_magic) invalid_index_magic magic
  (version, s) ← expect (read_uint32 s) unsupported_index_version
  version ← unless_throws (version == index_version) unsupported_index_version version
  (num_buckets, s) ← expect (read_uint64 s) invalid_num_buckets
  num_buckets ← unless_throws (not (num_buckets == 0)) invalid_num_buckets num_buckets
  (up_to, s) ← expect (read_uint64 s) invalid_indexed_up_to_offset
  (clean, s) ← expect (read_uint8 s) invalid_clean_flag
  clean ← unless_throws (clean == 0 || clean == 1) invalid_clean_flag clean
  ok (record {
    magic = magic;
    version = version;
    num_buckets = num_buckets;
    indexed_up_to_offset = up_to;
    index_clean = clean;
  })

-- The declared bucket table must fit after the header.
unfoldable pub load : Bytes → Result Index
unfolding load_header
load file = do
  ix ← load_header (stream file 0)
  unless_throws (not (ltb ((length file - header_size ix) / 8) ix.num_buckets)) index_too_small ix

abbrev pub FileExec : Type 0 → Type 0
FileExec A = Exec (Option Bytes) A

-- The zero bucket heads that `setup` writes.
unfoldable pub empty_buckets : ℕ → Bytes
empty_buckets zero = []
empty_buckets (suc n) = write_uint64 0 ++ empty_buckets n

-- The file that `setup` writes, from the header's fields.
unfoldable pub header_bytes : Bytes → Index → Bytes
header_bytes magic ix =
    magic
    ++ (write_uint32 ix.version
        ++ (write_uint64 ix.num_buckets
            ++ (write_uint64 ix.indexed_up_to_offset ++ write_uint8 ix.index_clean)))

unfoldable pub fresh_index : ℕ → Index
fresh_index num_buckets = record {
  magic = index_magic;
  version = index_version;
  num_buckets = num_buckets;
  indexed_up_to_offset = 0;
  index_clean = 0;
}

abbrev written : ℕ → Result Bytes → Result Index × Option Bytes
written num_buckets (ok magic) = (
  ok (fresh_index num_buckets),
  some (header_bytes magic (fresh_index num_buckets) ++ empty_buckets num_buckets),
)
written num_buckets (throws e) = (throws e, some [])
written num_buckets diverges = (diverges, some [])
written num_buckets (stops_at name) = (stops_at name, some [])

-- `setup`, which the constructor calls where there is no file. A throw of `write_string` leaves the
-- file that the constructor of `ofstream` created.
unfoldable pub setup : ℕ → FileExec Index
unfolding header_bytes empty_buckets fresh_index
setup num_buckets path = written num_buckets (write_string index_magic (length index_magic))

abbrev load_or_setup : ℕ → Option Bytes → Result Index × Option Bytes
load_or_setup num_buckets (some file) = (load file, some file)
load_or_setup num_buckets none = setup num_buckets none

-- The constructor `Index(path, num_buckets)`.
unfoldable pub open_index : ℕ → FileExec Index
open_index num_buckets =
    if num_buckets == 0 then raise num_buckets_zero else load_or_setup num_buckets

unfoldable pub num_buckets : Index → ℕ
num_buckets ix = ix.num_buckets

unfoldable pub indexed_up_to_offset : Index → ℕ
indexed_up_to_offset ix = ix.indexed_up_to_offset

unfoldable pub index_clean : Index → Bool
index_clean ix = ix.index_clean == 1
