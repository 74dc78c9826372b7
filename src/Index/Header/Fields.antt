-- ===== src/Index/Header/Fields.antt =====
-- Writing the fields of the header, and reading it back.
use zidanedb.Base.{
  ℕ, ◌-◌, ◌^◌, ◌≤◌, ◌<◌, ◌≡◌, refl, ◌++◌, Option, some, Bool, if◌then◌else◌, arith, length, lt→ltb,
}
use zidanedb.Base.Results.{ok}
use zidanedb.Stream.{Bytes}
use zidanedb.Index.Read.{Index, header_size}
use zidanedb.Index.Update.{set_index_clean, set_indexed_up_to_offset}
use zidanedb.Index.Layout.{entries_bytes}
use zidanedb.Index.Represents.{Holds, table_of, bucket}
use zidanedb.Index.Table.{header_size-41}
use zidanedb.Index.Find.{end_of_file}
use zidanedb.Index.Bucket.{length-file}
use zidanedb.Index.Header.{with_clean, with_up_to, write_clean, write_up_to}

module _ {ix : Index} {file : Bytes} {m : Bytes → Option ℕ} (h : Holds ix file m) where
  -- The file with other values in the two fields holds the same map.
  Holds-fields :
      (d c : ℕ)
      → d < 2 ^ 64
      → c ≤ 1
      → Holds
          (with_up_to (with_clean ix c) d)
          (table_of (with_up_to (with_clean ix c) d) h.heads ++ entries_bytes h.es)
          m
  unfolding header_size bucket
  Holds-fields d c d_lt c_le =
      let rep = h.represents in
      let new = with_up_to (with_clean ix c) d in
      let header = rep.header in
      record {
        heads = h.heads;
        es = h.es;
        chains = h.chains;
        represents = record {
          header = record {
            magic = header.magic;
            version = header.version;
            num_buckets_pos = header.num_buckets_pos;
            num_buckets_lt = header.num_buckets_lt;
            up_to_lt = d_lt;
            clean_le = c_le;
          };
          bytes = refl;
          small =
              omega
                (arith, length-file new h.heads h.es, end_of_file rep, rep.small, rep.heads_length);
          heads_length = rep.heads_length;
          heads_lt = rep.heads_lt;
          entries = rep.entries;
          chain = rep.chain;
          hashed = rep.hashed;
          distinct = rep.distinct;
        };
        map = h.map;
      }

  length-fields :
      (d c : ℕ)
      → length (table_of (with_up_to (with_clean ix c) d) h.heads ++ entries_bytes h.es)
        ≡ length file
  unfolding header_size
  length-fields d c =
      let rep = h.represents in
      omega (
        arith,
        length-file (with_up_to (with_clean ix c) d) h.heads h.es,
        end_of_file rep,
        rep.heads_length,
      )

  header_offset_lt : header_size ix < 2 ^ 63
  header_offset_lt = omega (arith, header_size-41 h.represents.header)

  -- Where a file holds a map, `set_indexed_up_to_offset` of a 64-bit number returns the index
  -- with that field, and leaves a file of the same length that holds the same map under it.
  pub set_indexed_up_to_offset-Holds :
      (d : ℕ)
      → d < 2 ^ 64
      → (file' : Bytes) × (set_indexed_up_to_offset ix d (some file)
          ≡ (ok (with_up_to ix d), some file'))
        × Holds (with_up_to ix d) file' m
        × (length file' ≡ length file)
  unfolding set_indexed_up_to_offset
  set_indexed_up_to_offset-Holds d d_lt = (
    table_of (with_up_to ix d) h.heads ++ entries_bytes h.es,
    rw (
      lt→ltb (header_size ix - 1 - 8) (2 ^ 63) (omega (arith, header_offset_lt)),
      h.represents.bytes,
      write_up_to ix h.heads (entries_bytes h.es) d,
    ),
    Holds-fields d ix.index_clean d_lt h.represents.header.clean_le,
    length-fields d ix.index_clean,
  )

  -- Where a file holds a map, `set_index_clean` returns the index with that flag, and leaves a
  -- file of the same length that holds the same map under it.
  pub set_index_clean-Holds :
      (val : Bool)
      → (file' : Bytes) × (set_index_clean ix val (some file)
          ≡ (ok (with_clean ix (if val then 1 else 0)), some file'))
        × Holds (with_clean ix (if val then 1 else 0)) file' m
        × (length file' ≡ length file)
  unfolding set_index_clean
  set_index_clean-Holds val =
      let c : ℕ = if val then 1 else 0 in
      let c_le : c ≤ 1 = ground arith in
      (
        table_of (with_clean ix c) h.heads ++ entries_bytes h.es,
        rw (
          lt→ltb (header_size ix - 1) (2 ^ 63) (omega (arith, header_offset_lt)),
          h.represents.bytes,
          write_clean ix h.heads (entries_bytes h.es) c
              (omega (arith, header_size-41 h.represents.header)),
        ),
        Holds-fields ix.indexed_up_to_offset c h.represents.header.up_to_lt c_le,
        length-fields ix.indexed_up_to_offset c,
      )
