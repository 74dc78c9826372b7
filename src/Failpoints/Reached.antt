-- ===== src/Failpoints/Reached.antt =====
-- A failpoint that is reached stops `put` and `close`.
use zidanedb.Base.{
  ℕ, ◌+◌, ◌^◌, ◌<◌, ◌≡◌, refl, sym, List, Option, some, none, Bool, true, false, arith, length,
  le→ltb, eq→==, ◌++◌,
}
use zidanedb.Base.Results.{Result, stops_at}
use zidanedb.Constants.{codes, max_key_size, max_value_size}
use zidanedb.Stream.{Bytes}
use zidanedb.Record.{Crc32c, Record}
use zidanedb.Record.RoundTrip.{Fits, record_bytes, record_size, length-record_bytes}
use zidanedb.Record.Sequence.{records_bytes}
use zidanedb.Index.{set as plain_set}
use zidanedb.Index.Set.{set-Holds}
use zidanedb.Index.Header.Fields.{set_indexed_up_to_offset-Holds, set_index_clean-Holds}
use zidanedb.Database.{Database, db_file_size, header_size}
use zidanedb.Database.Replay.{replay}
use zidanedb.Database.Recovery.{log_of}
use zidanedb.Database.Contents.{Stores, put_of}
use zidanedb.Database.Opening.{log_header}
use zidanedb.Database.Opening.Reopened.{ensure_open-ok}
use zidanedb.Failpoints.{is_requested, failpoint, set, put_record, put, mark_closed, close}
use zidanedb.Failpoints.Stops.{SetReaches, set-stops}
use zidanedb.Failpoints.Crashes.{append_record-over}

-- The run was stopped at a failpoint that is requested.
abbrev pub StopsAt : Option Bytes → Result (Unit {0}) → Type 0
StopsAt requested r = (name : Bytes) × (is_requested requested name ≡ true) × (r ≡ stops_at name)

module _ {crc : Crc32c} {d : Database} {rs : List Record} (s : Stores crc d log_header rs)
    (requested : Option Bytes) (early : Bool) (key val : Bytes) (fits : Fits (put_of key val)) where
  put-put_record :
      put requested early crc key val d ≡ put_record requested early crc s.index key val d
  unfolding put
  put-put_record =
      rw
        (
          s.is_open,
          le→ltb max_key_size (length key) fits.key,
          le→ltb max_value_size (length val) fits.value,
        )
        refl

  pub put-before_db_append :
      is_requested requested (codes "before_db_append") ≡ true
      → StopsAt requested (put requested early crc key val d).0
  unfolding put_record failpoint
  put-before_db_append asked = (_, asked, rw (put-put_record, asked) refl)

  module _ (later : is_requested requested (codes "before_db_append") ≡ false) where
    pub put-after_db_append :
        is_requested requested (codes "after_db_append") ≡ true
        → StopsAt requested (put requested early crc key val d).0
    unfolding put_record failpoint
    put-after_db_append asked = (
      _,
      asked,
      rw (put-put_record, later, append_record-over s requested early key val fits, asked) refl,
    )

    module _ (indexes : is_requested requested (codes "after_db_append") ≡ false)
        (idx_room : length s.idx + 20 + length key < 2 ^ 63)
        (log_room : length (log_of crc log_header rs) + record_size (put_of key val) < 2 ^ 63) where
      pub put-in_set :
          SetReaches requested early (replay (λ key. none) (header_size d) rs key)
          → StopsAt requested (put requested early crc key val d).0
      unfolding put_record failpoint
      put-in_set reached =
          let (stopped, (name, asked, run)) =
            set-stops requested early key (length (log_of crc log_header rs)) s.holds fits.key
              (omega arith) idx_room reached in
          (
            name,
            asked,
            rw
                (
                  put-put_record,
                  later,
                  append_record-over s requested early key val fits,
                  indexes,
                  run,
                )
                refl,
          )

      -- Behind the index, where `set` has no failpoint that is requested.
      module _
          (plain : (offset : ℕ) (f : Option Bytes)
            → set requested early s.index key offset f ≡ plain_set s.index key offset f) where
        pub put-before_up_to :
            is_requested requested (codes "before_update_indexed_up_to_offset") ≡ true
            → StopsAt requested (put requested early crc key val d).0
        unfolding put_record failpoint
        put-before_up_to asked =
            let l = length (log_of crc log_header rs) in
            let (w, run) = set-Holds key l s.holds fits.key (omega arith) idx_room in
            (
              _,
              asked,
              rw
                  (
                    put-put_record,
                    later,
                    append_record-over s requested early key val fits,
                    indexes,
                    plain l (some s.idx),
                    run,
                    asked,
                  )
                  refl,
            )

        pub put-after_up_to :
            is_requested requested (codes "before_update_indexed_up_to_offset") ≡ false
            → is_requested requested (codes "after_update_indexed_up_to_offset") ≡ true
            → StopsAt requested (put requested early crc key val d).0
        unfolding put_record failpoint
        put-after_up_to other asked =
            let l = length (log_of crc log_header rs) in
            let (w, run) = set-Holds key l s.holds fits.key (omega arith) idx_room in
            let (idx, up_to_run, holds, same) =
              set_indexed_up_to_offset-Holds w.holds
                (l + length (record_bytes crc (put_of key val)))
                (omega (arith, length-record_bytes crc (put_of key val))) in
            (
              _,
              asked,
              rw
                  (
                    put-put_record,
                    later,
                    append_record-over s requested early key val fits,
                    indexes,
                    plain l (some s.idx),
                    run,
                    other,
                    up_to_run,
                    asked,
                  )
                  refl,
            )

module _ {crc : Crc32c} {d : Database} {header : Bytes} {rs : List Record}
    (s : Stores crc d header rs) (requested : Option Bytes) where
  pub close-before_clean :
      is_requested requested (codes "before_set_index_clean") ≡ true
      → StopsAt requested (close requested d).0
  unfolding close mark_closed failpoint db_file_size
  close-before_clean asked =
      let (open_still, has_index) = ensure_open-ok d s.is_open in
      let caught =
        eq→== (length (header ++ records_bytes crc rs)) s.index.indexed_up_to_offset
          (sym s.caught_up) in
      (_, asked, rw (open_still, has_index, s.log, caught, asked) refl)

  pub close-behind_clean :
      is_requested requested (codes "before_set_index_clean") ≡ false
      → is_requested requested (codes "clean_db_close") ≡ true
      → StopsAt requested (close requested d).0
  unfolding close mark_closed failpoint db_file_size
  close-behind_clean other asked =
      let (open_still, has_index) = ensure_open-ok d s.is_open in
      let (idx', run, holds, same) = set_index_clean-Holds s.holds true in
      let caught =
        eq→== (length (header ++ records_bytes crc rs)) s.index.indexed_up_to_offset
          (sym s.caught_up) in
      (_, asked, rw (open_still, has_index, s.log, caught, other, s.idx_file, run, asked) refl)
