-- ===== src/Index/Header/Load.antt =====
-- `load` on a file that holds a map reads the members back.
use zidanedb.Base.{
  ℕ, ◌+◌, ◌-◌, ◌/◌, ◌≤◌, ◌≡◌, refl, ap, ◌∙◌, ◌++◌, Option, true, arith, length, append_assoc, ne→==,
  le→ltb, length-append, List, bytes_eq_self, not, ltb, ◌==◌, ◌||◌,
}
use zidanedb.Base.Results.{Result, ok, and_then, index_too_small}
use zidanedb.Constants.{index_magic, index_version}
use zidanedb.Stream.{Bytes, stream}
use zidanedb.Utils.{read_uint8, write_uint8, write_uint64, write_uint32, string_size}
use zidanedb.Utils.Integers.{read_uint64-write, read_uint32-write}
use zidanedb.Utils.Strings.{string_bytes, read_string-string_bytes}
use zidanedb.Index.Read.{Index, header_size}
use zidanedb.Index.File.{header_bytes, load, load_header, unless_throws}
use zidanedb.Index.Layout.{entries_bytes}
use zidanedb.Index.Represents.{IsHeader, Holds, header_of, heads_bytes, table_of}
use zidanedb.Index.Table.{length-table_of}

regroup_all :
    (m v n u c rest : Bytes)
    → (m ++ (v ++ (n ++ (u ++ c)))) ++ rest ≡ m ++ (v ++ (n ++ (u ++ (c ++ rest))))
regroup_all m v n u c rest = simp append_assoc

clean_ok : (c : ℕ) → c ≤ 1 → (c == 0 || c == 1) ≡ true
clean_ok c h = ground arith

length-index_magic : length index_magic ≡ 16
unfolding index_magic
length-index_magic = refl

load_header-header :
    {ix : Index}
    → IsHeader ix
    → (rest : Bytes) → load_header (stream (header_of ix ++ rest) 0) ≡ ok ix
unfolding load_header header_bytes read_uint8 write_uint8
load_header-header {ix} h rest =
    rw
      (
        regroup_all (string_bytes ix.magic) (write_uint32 ix.version) (write_uint64 ix.num_buckets)
            (write_uint64 ix.indexed_up_to_offset) (write_uint8 ix.index_clean) rest,
        h.magic,
        h.version,
        read_string-string_bytes index_magic _ (length index_magic) 0 (omega arith)
            (omega (arith, length-index_magic)),
        bytes_eq_self index_magic,
        read_uint32-write index_version _ (0 + string_size index_magic) (omega arith),
        read_uint64-write ix.num_buckets _ (0 + string_size index_magic + 4)
            (omega (arith, h.num_buckets_lt)),
        ne→== ix.num_buckets 0 (omega (arith, h.num_buckets_pos)),
        read_uint64-write ix.indexed_up_to_offset _ (0 + string_size index_magic + 4 + 8)
            h.up_to_lt,
        clean_ok ix.index_clean h.clean_le,
      )
      refl

enough_room : ℕ → Index → Result Index
enough_room size ix =
    unless_throws (not (ltb ((size - header_size ix) / 8) ix.num_buckets)) index_too_small ix

-- A file with a valid header and its bucket table, whatever follows them.
pub load-table :
    {ix : Index} (heads : List ℕ) (rest : Bytes)
    → IsHeader ix
    → length heads ≡ ix.num_buckets
    → load (table_of ix heads ++ rest) ≡ ok ix
unfolding load enough_room
load-table {ix} heads rest h heads_length =
    let file = table_of ix heads ++ rest in
    let header : load_header (stream file 0) ≡ ok ix =
      rw (append_assoc (header_of ix) (heads_bytes heads) rest)
        (load_header-header h (heads_bytes heads ++ rest)) in
    let fits =
      le→ltb ((length file - header_size ix) / 8) ix.num_buckets
        (omega (arith, length-append (table_of ix heads) rest, length-table_of ix heads)) in
    ap (λ r. and_then r (enough_room (length file))) header ∙ rw fits refl

-- Where a file holds a map under an index, `load` reads the members of that index back.
pub load-Holds :
    {ix : Index} {file : Bytes} {m : Bytes → Option ℕ} → Holds ix file m → load file ≡ ok ix
load-Holds {ix} {file} h =
    let rep = h.represents in
    rw rep.bytes (load-table h.heads (entries_bytes h.es) rep.header rep.heads_length)
