-- ===== src/Matrix/Crash/Stopped.antt =====
-- The child of the crash test stops at its failpoint.
use zidanedb.Base.{
  ℕ, ◌≡◌, refl, ap, ◌∙◌, bytes_eq→eq, Option, some, none, List, Bool, true, arith, inl, inr,
  bytes_eq,
}
use zidanedb.Base.Results.{Result, ok, throws, diverges, stops_at}
use zidanedb.Constants.{codes}
use zidanedb.Stream.{Bytes}
use zidanedb.Utils.{string_size}
use zidanedb.Record.{Crc32c, Record}
use zidanedb.Record.RoundTrip.{Fits, record_size}
use zidanedb.Index.{
  append_entry as plain_append_entry, replace_entry as plain_replace_entry, set as plain_set,
}
use zidanedb.Database.{
  Database, CreateDirectory, extension, destroy, put, put_record as plain_put_record,
}
use zidanedb.Database.Contents.{Stores, Found, absent, present, put_of, values, stored}
use zidanedb.Database.Removals.{value_of_key}
use zidanedb.Database.Writes.{put-grows}
use zidanedb.Database.Opening.{log_header}
use zidanedb.Failpoints
use zidanedb.Failpoints.{
  is_requested, failpoint, buffered, append_entry, replace_entry, set, put_record,
}
use zidanedb.Failpoints.Reached.{
  put-before_db_append, put-after_db_append, put-in_set, put-before_up_to, put-after_up_to,
  close-before_clean, close-behind_clean, StopsAt,
}
use zidanedb.Matrix.Workloads.{files_of, no_files, in_database}
use zidanedb.Matrix.Crash.{Failpoint, failpoint_name, initialize, worker, closing_worker}
use zidanedb.Matrix.Crash.Started.{Started, first_block}

-- The index has an offset for the keys that have a value.
no_offset :
    {crc : Crc32c} {log key : Bytes} {o : Option ℕ} {v : Option Bytes}
    → Found crc log key o v
    → v ≡ none
    → o ≡ none
no_offset absent e = refl
no_offset (present front back value at split here fits) e = cc

offset_there :
    {crc : Crc32c} {log key : Bytes} {o : Option ℕ} {v : Option Bytes} {x : Bytes}
    → Found crc log key o v
    → v ≡ some x
    → (at : ℕ) × (o ≡ some at)
offset_there absent e = cc
offset_there (present front back value at split here fits) e = (at, refl)

requested-name :
    (failpoint name : Bytes) → is_requested (some failpoint) name ≡ true → name ≡ failpoint
unfolding is_requested
requested-name failpoint name asked = bytes_eq→eq name failpoint asked

named_stop :
    {failpoint : Bytes} {r : Result (Unit {0})}
    → StopsAt (some failpoint) r
    → r ≡ stops_at failpoint
named_stop (name, asked, run) = run ∙ ap stops_at (requested-name _ name asked)

closing-stopped :
    (crc : Crc32c) (requested : Option Bytes) (r : Result (Unit {0}) × Database) {name : Bytes}
    → r.0 ≡ stops_at name
    → (closing_worker crc requested r).0 ≡ stops_at name
closing-stopped crc requested (ok u, d) h = cc
closing-stopped crc requested (throws e, d) h = cc
closing-stopped crc requested (diverges, d) h = cc
closing-stopped crc requested (stops_at n, d) h = h

player-Fits : Fits (put_of (codes "player") (codes "bellingham"))
player-Fits = record { key = omega arith; value = omega arith }

module _ {crc : Crc32c} {create child_create : ℕ → CreateDirectory} {path : Bytes} (early : Bool)
    {failpoint : Bytes} (t : Started crc create child_create path failpoint) where
  worker-put :
      StopsAt
        (some failpoint)
        (Failpoints.put (some failpoint) early crc (codes "player") (codes "bellingham") t.child).0
      → (worker crc failpoint early child_create path (files_of (destroy t.d))).0
        ≡ stops_at failpoint
  unfolding worker
  worker-put stops = rw t.opened (closing-stopped crc (some failpoint) _ (named_stop stops))

  worker-close :
      ((d : Database)
        → Failpoints.put (some failpoint) early crc (codes "player") (codes "bellingham") d
          ≡ put crc (codes "player") (codes "bellingham") d)
      → ((d : Database) (rs : List Record)
          → Stores crc d log_header rs
          → StopsAt (some failpoint) (Failpoints.close (some failpoint) d).0)
      → (worker crc failpoint early child_create path (files_of (destroy t.d))).0
        ≡ stops_at failpoint
  unfolding worker record_size string_size
  worker-close plain stops =
      let (s, within) = t.stores in
      let (d', s', put_run, buckets, grown) =
        put-grows (codes "player") (codes "bellingham") s player-Fits (omega arith)
          (omega (arith, t.log_size)) in
      rw (t.opened, plain t.child, put_run) (named_stop (stops d' _ s'))

module _ {crc : Crc32c} {create child_create : ℕ → CreateDirectory} {path : Bytes}
    (early : Bool) where
  -- Whatever the failpoint of the command line, the child of the crash test is stopped there.
  pub worker-stops :
      (failpoint : Failpoint) (t : Started crc create child_create path (failpoint_name failpoint))
      → (worker crc (failpoint_name failpoint) early child_create path (files_of (destroy t.d))).0
        ≡ stops_at (failpoint_name failpoint)
  unfolding is_requested failpoint buffered append_entry replace_entry set put_record Failpoints.put
      plain_append_entry plain_replace_entry plain_set plain_put_record put bytes_eq failpoint_name
      values stored record_size string_size
  worker-stops Failpoint.before_db_append t = worker-put early t (
      put-before_db_append t.stores.0 (some (codes "before_db_append")) early (codes "player")
        (codes "bellingham") player-Fits refl)
  worker-stops Failpoint.after_db_append t = worker-put early t (
      put-after_db_append t.stores.0 (some (codes "after_db_append")) early (codes "player")
        (codes "bellingham") player-Fits refl refl)
  worker-stops Failpoint.before_update_indexed_up_to_offset t = worker-put early t (
      put-before_up_to t.stores.0 (some (codes "before_update_indexed_up_to_offset")) early
        (codes "player") (codes "bellingham") player-Fits refl refl (omega (arith, t.stores.1))
        (omega (arith, t.log_size)) (λ offset f. refl) refl)
  worker-stops Failpoint.after_update_indexed_up_to_offset t = worker-put early t (
      put-after_up_to t.stores.0 (some (codes "after_update_indexed_up_to_offset")) early
        (codes "player") (codes "bellingham") player-Fits refl refl (omega (arith, t.stores.1))
        (omega (arith, t.log_size)) (λ offset f. refl) refl refl)
  worker-stops Failpoint.clean_db_close t =
      worker-close early t (λ d. refl) (λ d rs s. close-behind_clean s _ refl refl)
  worker-stops Failpoint.after_modify_existing_entry t =
      let (at, there) = offset_there (value_of_key (codes "player") t.stores.0) refl in
      worker-put early t (
        put-in_set t.stores.0 (some (codes "after_modify_existing_entry")) early (codes "player")
          (codes "bellingham") player-Fits refl refl (omega (arith, t.stores.1))
          (omega (arith, t.log_size)) (rw there refl))
  worker-stops Failpoint.before_update_bucket_head t =
      let gone = no_offset (value_of_key (codes "player") t.stores.0) refl in
      worker-put early t (
        put-in_set t.stores.0 (some (codes "before_update_bucket_head")) early (codes "player")
          (codes "bellingham") player-Fits refl refl (omega (arith, t.stores.1))
          (omega (arith, t.log_size)) (rw gone (inl refl)))
  worker-stops Failpoint.after_update_bucket_head t =
      let gone = no_offset (value_of_key (codes "player") t.stores.0) refl in
      worker-put early t (
        put-in_set t.stores.0 (some (codes "after_update_bucket_head")) early (codes "player")
          (codes "bellingham") player-Fits refl refl (omega (arith, t.stores.1))
          (omega (arith, t.log_size)) (rw gone (inr refl)))
  worker-stops Failpoint.before_set_index_clean t =
      worker-close early t (λ d. refl) (λ d rs s. close-before_clean s _ refl)

-- For every failpoint of the command line, whatever the buffer of a stream does: where the path ends in
-- `.zdb`, the child that opens the files of the first block of the crash test, puts the player and
-- destroys its database is stopped by the failpoint that was requested: it neither returns nor throws
-- before, and no other failpoint stops it.
pub worker-initialize :
    (crc : Crc32c) (create child_create : ℕ → CreateDirectory) (path : Bytes) (early : Bool)
    (failpoint : Failpoint)
    → extension path ≡ codes ".zdb"
    → (worker crc
        (failpoint_name failpoint)
        early
        child_create
        path
        (in_database crc create 1_000_000 path
          (initialize crc (failpoint_name failpoint))
          no_files).1).0
      ≡ stops_at (failpoint_name failpoint)
worker-initialize crc create child_create path early failpoint named =
    let t = first_block crc create child_create path (failpoint_name failpoint) named in
    rw t.first (worker-stops early failpoint t)
