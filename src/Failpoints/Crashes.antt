-- ===== src/Failpoints/Crashes.antt =====
-- What is left of a database when the process is stopped at a failpoint of `put` and killed.
use zidanedb.Base.{
  ℕ, ◌+◌, ◌^◌, ◌≤◌, ◌<◌, ◌≡◌, refl, ◌∙◌, List, [], ◌∷◌, ◌++◌, Option, some, Bool, if◌then◌else◌,
  arith, length, inl, inr, le→ltb, Bool-cases,
}
use zidanedb.Base.Results.{ok}
use zidanedb.Base.Exec.{◌>>=◌, ◌>>◌}
use zidanedb.Constants.{codes, max_key_size, max_value_size}
use zidanedb.Stream.{Bytes}
use zidanedb.Record.{Crc32c, Record}
use zidanedb.Record.RoundTrip.{
  Fits, record_bytes, record_size, length-record_bytes, serialize_record-ok,
}
use zidanedb.Index.{Index, load, set_indexed_up_to_offset}
use zidanedb.Index.Represents.{Holds}
use zidanedb.Index.Header.{with_up_to}
use zidanedb.Index.Header.Fields.{set_indexed_up_to_offset-Holds}
use zidanedb.Index.Header.Load.{load-Holds}
use zidanedb.Database.{Database, DbExec, on_index, assign_index, append_record}
use zidanedb.Database.Recovery.{log_of}
use zidanedb.Database.Contents.{Stores, put_of}
use zidanedb.Database.Writes.{appended_log}
use zidanedb.Database.Opening.{log_header}
use zidanedb.Failpoints.{is_requested, failpoint, set, put_record, put}
use zidanedb.Failpoints.Stops.{set-Outcome}

-- The files of a database that was not closed: a log of these records, and an index file that loads
-- as an index of `n` buckets that is not clean.
pub record Crashed (crc : Crc32c) (rs : List Record) (n : ℕ) (d : Database) : Type 0 where
  pub index : Index
  pub idx : Bytes
  pub log : d.db_file ≡ some (log_of crc log_header rs)
  pub idx_file : d.idx_file ≡ some idx
  pub loads : load idx ≡ ok index
  pub dirty : index.index_clean ≡ 0
  pub buckets : index.num_buckets ≡ n

-- An action behind a failpoint: its final state, or the one in which the process stops.
failpoint-cases :
    {A : Type 0} (P : Database → Type 0) (requested : Option Bytes) (name : Bytes) (m : DbExec A)
    (d : Database)
    → P d
    → P (m d).1
    → P ((failpoint requested name >> m) d).1
unfolding failpoint
failpoint-cases P requested name m d stopped went =
    elim (Bool-cases (is_requested requested name)) [
      | inl asked ↦ rw asked stopped
      | inr other ↦ rw other went
    ]

failpoint_state :
    (P : Database → Type 0) (requested : Option Bytes) (name : Bytes) (d : Database)
    → P d
    → P (failpoint requested name d).1
unfolding failpoint
failpoint_state P requested name d h = elim (Bool-cases (is_requested requested name)) [
  | inl asked ↦ rw asked h
  | inr other ↦ rw other h
]

module _ {crc : Crc32c} {d : Database} {rs : List Record} (s : Stores crc d log_header rs)
    (requested : Option Bytes) (early : Bool) (key val : Bytes) where
  abbrev new_record : Record
  new_record = put_of key val

  abbrev new_records : List Record
  new_records = rs ++ new_record ∷ []

  -- The object over the new log.
  abbrev pub over : Bytes → Option Index → Database
  over idx held = record d {
    db_file = some (log_of crc log_header new_records);
    idx_file = some idx;
    index = held;
  }

  abbrev n : ℕ
  n = s.index.num_buckets

  over-Crashed :
      (held : Option Index) (idx : Bytes) (ix : Index)
      → load idx ≡ ok ix
      → ix.index_clean ≡ 0
      → ix.num_buckets ≡ n
      → Crashed crc new_records n (over idx held)
  over-Crashed held idx ix loads dirty buckets = record {
    index = ix;
    idx = idx;
    log = refl;
    idx_file = refl;
    loads = loads;
    dirty = dirty;
    buckets = buckets;
  }

  -- Behind the record in the log and its entry in the index.
  abbrev checkpoint : ℕ → DbExec (Unit {0})
  checkpoint end_offset = do
    failpoint requested (codes "before_update_indexed_up_to_offset")
    ix ← on_index (set_indexed_up_to_offset s.index end_offset)
    assign_index ix
    failpoint requested (codes "after_update_indexed_up_to_offset")

  checkpoint-Crashed :
      (end_offset : ℕ) {idx : Bytes} {m : Bytes → Option ℕ}
      → Holds s.index idx m
      → end_offset < 2 ^ 64
      → Crashed crc new_records n (checkpoint end_offset (over idx d.index)).1
  checkpoint-Crashed end_offset {idx} h lt =
      let (idx', run, holds, same) = set_indexed_up_to_offset-Holds h end_offset lt in
      let reached =
        over-Crashed (some (with_up_to s.index end_offset)) idx' _ (load-Holds holds) s.dirty
          refl in
      let last = failpoint requested (codes "after_update_indexed_up_to_offset") in
      failpoint-cases (Crashed crc new_records n) requested
        (codes "before_update_indexed_up_to_offset")
        (on_index (set_indexed_up_to_offset s.index end_offset) >>= λ ix. assign_index ix >> last)
        (over idx d.index) (over-Crashed d.index idx s.index (load-Holds h) s.dirty refl)
        (rw run (
          failpoint_state (Crashed crc new_records n) requested
            (codes "after_update_indexed_up_to_offset") _ reached))

  -- Behind the record in the log.
  abbrev indexing : ℕ → ℕ → DbExec (Unit {0})
  indexing start_offset end_offset =
      failpoint requested (codes "after_db_append")
      >> (on_index (set requested early s.index key start_offset) >> checkpoint end_offset)

  indexing-Crashed :
      (start_offset end_offset : ℕ)
      → length key ≤ max_key_size
      → start_offset < 2 ^ 64
      → end_offset < 2 ^ 64
      → length s.idx + 20 + length key < 2 ^ 63
      → Crashed crc new_records n (indexing start_offset end_offset (over s.idx d.index)).1
  indexing-Crashed start_offset end_offset short start_lt end_lt room =
      let outcome = set-Outcome requested early key start_offset s.holds short start_lt room in
      let before = over-Crashed d.index s.idx s.index (load-Holds s.holds) s.dirty refl in
      failpoint-cases (Crashed crc new_records n) requested (codes "after_db_append")
        (on_index (set requested early s.index key start_offset) >> checkpoint end_offset)
        (over s.idx d.index) before
        (elim outcome [
          | inl (w, run) ↦ rw run (checkpoint-Crashed end_offset w.holds end_lt)
          | inr (stopped, (name, asked, run), loads) ↦
              rw run (over-Crashed d.index stopped s.index loads s.dirty refl)
        ])

  pub append_record-over :
      Fits new_record
      → append_record crc new_record d ≡ (
        ok (
          length (log_of crc log_header rs),
          length (log_of crc log_header rs) + length (record_bytes crc new_record),
        ),
        over s.idx d.index,
      )
  unfolding append_record
  append_record-over fits =
      let l = length (log_of crc log_header rs) in
      rw (serialize_record-ok crc fits, s.log) refl ∙ λ i. (
        ok (l, l + length (record_bytes crc new_record)),
        record d { db_file = some (appended_log s new_record i); idx_file = s.idx_file i },
      )

  -- The records in the log of a `put` that was requested to stop.
  abbrev left_records : List Record
  left_records = if is_requested requested (codes "before_db_append") then rs else new_records

  -- Where an open database stores a list of records under a valid header, the key and the value are
  -- within the size limits, and the index file and the log stay below 2^63 bytes, a `put` leaves the
  -- records, with the new one unless it was stopped before the append, and an index that is not
  -- clean.
  pub put-Crashed :
      length key ≤ max_key_size
      → length val ≤ max_value_size
      → length s.idx + 20 + length key < 2 ^ 63
      → length (log_of crc log_header rs) + record_size new_record < 2 ^ 63
      → Crashed crc left_records n (put requested early crc key val d).1
  unfolding put put_record failpoint
  put-Crashed key_le val_le idx_room log_room =
      let fits : Fits new_record = record { key = key_le; value = val_le } in
      let l = length (log_of crc log_header rs) in
      let grown = length-record_bytes crc new_record in
      elim (Bool-cases (is_requested requested (codes "before_db_append"))) [
        | inl asked ↦
            rw
              (
                s.is_open,
                le→ltb max_key_size (length key) key_le,
                le→ltb max_value_size (length val) val_le,
                asked,
              )
              (record {
                index = s.index;
                idx = s.idx;
                log = s.log;
                idx_file = s.idx_file;
                loads = load-Holds s.holds;
                dirty = s.dirty;
                buckets = refl;
              })
        | inr other ↦
            rw
              (
                s.is_open,
                le→ltb max_key_size (length key) key_le,
                le→ltb max_value_size (length val) val_le,
                other,
                append_record-over fits,
              )
              (indexing-Crashed l (l + length (record_bytes crc new_record)) key_le (omega arith)
                (omega (arith, grown)) idx_room)
      ]
