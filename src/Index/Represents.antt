-- ===== src/Index/Represents.antt =====
-- What an index file holds: the invariant of the file format, with the map from keys to log offsets
-- that the chains stand for.
use zidanedb.Base.{
  ℕ, ◌+◌, ◌*◌, ◌%◌, ◌^◌, ◌≤◌, ◌<◌, ◌≡◌, List, [], ◌∷◌, ◌++◌, Option, length, All, get_or,
}
use zidanedb.Constants.{index_magic, index_version}
use zidanedb.Stream.{Bytes}
use zidanedb.Utils.{write_uint64, fnv1a}
use zidanedb.Utils.Strings.{string_bytes}
use zidanedb.Index.Read.{Index, IndexEntry, header_size}
use zidanedb.Index.File.{header_bytes}
use zidanedb.Index.Layout.{entries_bytes}
use zidanedb.Index.Entries.{EntryFits}
use zidanedb.Index.Chains.{Node, Chain, lookup}
use zidanedb.Index.Chains.Keys.{Distinct, HashTo}

unfoldable pub heads_bytes : List ℕ → Bytes
heads_bytes [] = []
heads_bytes (h ∷ hs) = write_uint64 h ++ heads_bytes hs

-- The bucket that a key belongs to.
unfoldable pub bucket : Index → Bytes → ℕ
bucket ix key = fnv1a key % ix.num_buckets

-- The header's bytes, and with the bucket table.
abbrev pub header_of : Index → Bytes
header_of ix = header_bytes (string_bytes ix.magic) ix

abbrev pub table_of : Index → List ℕ → Bytes
table_of ix heads = header_of ix ++ heads_bytes heads

-- Where the entries begin.
abbrev pub entries_base : Index → ℕ
entries_base ix = header_size ix + 8 * ix.num_buckets

-- The object's members are those of a valid header.
pub record IsHeader (ix : Index) : Type 0 where
  pub magic : ix.magic ≡ index_magic
  pub version : ix.version ≡ index_version
  pub num_buckets_pos : 0 < ix.num_buckets
  pub num_buckets_lt : ix.num_buckets < 2 ^ 60
  pub up_to_lt : ix.indexed_up_to_offset < 2 ^ 64
  pub clean_le : ix.index_clean ≤ 1

-- The file of `ix`, made of these heads and entries, has these chains.
pub record Represents (ix : Index) (file : Bytes) (heads : List ℕ) (es : List IndexEntry)
    (chains : ℕ → List Node) : Type 0 where
  pub header : IsHeader ix
  pub bytes : file ≡ table_of ix heads ++ entries_bytes es
  pub small : length file < 2 ^ 63
  pub heads_length : length heads ≡ ix.num_buckets
  pub heads_lt : All (λ h. h < 2 ^ 63) heads
  pub entries : All EntryFits es
  pub chain :
      (b : ℕ) → b < ix.num_buckets → Chain (entries_base ix) es (get_or heads b 0) (chains b)
  pub hashed : (b : ℕ) → b < ix.num_buckets → HashTo (bucket ix) b (chains b)
  pub distinct : (b : ℕ) → b < ix.num_buckets → Distinct (chains b)

-- The file of `ix` maps keys to log offsets as `m` does.
pub record Holds (ix : Index) (file : Bytes) (m : Bytes → Option ℕ) : Type 0 where
  pub heads : List ℕ
  pub es : List IndexEntry
  pub chains : ℕ → List Node
  pub represents : Represents ix file heads es chains
  pub map : (key : Bytes) → m key ≡ lookup key (chains (bucket ix key))
