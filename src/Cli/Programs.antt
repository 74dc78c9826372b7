-- ===== src/Cli/Programs.antt =====
-- The program run again and again on the same path: each run opens the files, runs its command and
-- closes them.
use zidanedb.Base.{
  ℕ, ◌+◌, ◌*◌, ◌^◌, ◌<◌, ◌≡◌, refl, ap, ◌∙◌, Option, none, some, true, false, List, [], ◌∷◌, ◌++◌,
  arith, Bool,
}
use zidanedb.Base.Results.{Exception, Result, ok, throws, diverges, stops_at, ◌>>=◌}
use zidanedb.Base.Exec.{continue}
use zidanedb.Constants.{codes}
use zidanedb.Stream.{Bytes}
use zidanedb.Record.{Crc32c, Record}
use zidanedb.Database.{
  Database, CreateDirectory, made, extension, destroy, open_database, put, get, erase,
}
use zidanedb.Database.Contents.{values}
use zidanedb.Database.Opening.Created.{open_database-sized}
use zidanedb.Database.Opening.Reopened.{open_database-destroy_sized}
use zidanedb.Cli.{
  Console, Command, put_command, get_command, delete_command, printed, shown, deleted, run_put,
  run_get, run_delete, run_command, reported, main,
}
use zidanedb.Sessions.{
  Event, put_event, get_event, erase_event, Answer, value, existed, refused, told, step, expected,
  answer, entry_room, log_room, sum,
}
use zidanedb.Sessions.Steps.{
  Opened, Follows, stored_map, put_event-Follows, get_event-Follows, erase_event-Follows,
}

-- A command as an event of the specification.
abbrev pub event : Command → Event
event (put_command key val) = put_event key val
event (get_command key) = get_event key
event (delete_command key) = erase_event key

abbrev pub events : List Command → List Event
events [] = []
events (c ∷ cs) = event c ∷ events cs

abbrev newline : Bytes
newline = 10 ∷ []

module _ (what : Exception → Bytes) where
  -- What the answer of the database looks like on the console.
  abbrev pub console : Command → Answer → Console
  console (put_command key val) (refused e) = record {
    exit_code = 1;
    output = [];
    error = codes "zidane: " ++ what e ++ newline;
  }
  console (get_command key) (value (some v)) = record {
    exit_code = 0;
    output = v ++ newline;
    error = [];
  }
  console (get_command key) (value none) = record {
    exit_code = 1;
    output = [];
    error = codes "Key not found" ++ newline;
  }
  console (delete_command key) (existed true) = record {
    exit_code = 0;
    output = codes "Key " ++ (key ++ codes " deleted") ++ newline;
    error = [];
  }
  console (delete_command key) (existed false) = record {
    exit_code = 1;
    output = [];
    error = codes "Key " ++ (key ++ codes " does not exist") ++ newline;
  }
  console _ _ = record { exit_code = 0; output = codes "Value stored" ++ newline; error = [] }

  -- The specification: what the runs print, from a map of keys to values.
  unfoldable pub consoles : List Command → (Bytes → Option Bytes) → List Console
  consoles [] m = []
  consoles (c ∷ cs) m = console c (answer (event c) m) ∷ consoles cs (expected (event c) m)

  module _ (crc : Crc32c) (create : ℕ → CreateDirectory) (n : ℕ) (path : Bytes) where
    unfoldable pub run_programs : List Command → (db idx : Option Bytes) → Result (List Console)
    run_programs [] db idx = ok []
    run_programs (c ∷ cs) db idx = do
      let left = main crc what create n path c db idx
      shown_first ← left.0
      rest ← run_programs cs left.1.db_file left.1.idx_file
      ok (shown_first ∷ rest)

    abbrev again : Command → Result Answer × Database → Result Console × Database
    again c (ok b, d) = (ok (console c b), d)
    again c (throws x, d) = (throws x, d)
    again c (diverges, d) = (diverges, d)
    again c (stops_at name, d) = (stops_at name, d)

    -- A run of a command is that of its event.
    abbrev Shows : Command → Result Console × Database → Answer → Database → Type 0
    Shows c r a d' =
        ◌≡◌ {A = Result Console × Database} (reported crc what r.0, r.1) (ok (console c a), d')

    put-Shows :
        (key val : Bytes) (r : Result (Unit {0}) × Database) {a : Answer} {d' : Database}
        → ◌≡◌ {A = Result Answer × Database} (told r.0, r.1) (ok a, d')
        → Shows
            (put_command key val)
            (continue r.0 (λ _ d. (ok (printed (codes "Value stored")), d)) r.1)
            a
            d'
    put-Shows key val (ok u, d) e = ap (again (put_command key val)) e
    put-Shows key val (throws x, d) e = ap (again (put_command key val)) e
    put-Shows key val (diverges, d) e = cc (ap (λ p. p.0) e)
    put-Shows key val (stops_at name, d) e = cc (ap (λ p. p.0) e)

    get-Shows :
        (key : Bytes) (r : Result (Option Bytes)) (d : Database) {a : Answer} {d' : Database}
        → continue r (λ v d. (ok (value v), d)) d ≡ (ok a, d')
        → Shows (get_command key) (continue r (λ v d. (ok (shown v), d)) d) a d'
    get-Shows key (ok none) d e = ap (again (get_command key)) e
    get-Shows key (ok (some v)) d e = ap (again (get_command key)) e
    get-Shows key (throws x) d e = cc (ap (λ p. p.0) e)
    get-Shows key diverges d e = cc (ap (λ p. p.0) e)
    get-Shows key (stops_at name) d e = cc (ap (λ p. p.0) e)

    delete-Shows :
        (key : Bytes) (r : Result Bool × Database) {a : Answer} {d' : Database}
        → continue r.0 (λ b d. (ok (existed b), d)) r.1 ≡ (ok a, d')
        → Shows (delete_command key) (continue r.0 (λ b d. (ok (deleted key b), d)) r.1) a d'
    delete-Shows key (ok true, d) e = ap (again (delete_command key)) e
    delete-Shows key (ok false, d) e = ap (again (delete_command key)) e
    delete-Shows key (throws x, d) e = cc (ap (λ p. p.0) e)
    delete-Shows key (diverges, d) e = cc (ap (λ p. p.0) e)
    delete-Shows key (stops_at name, d) e = cc (ap (λ p. p.0) e)

    command-Shows :
        (c : Command) (d : Database) {a : Answer} {d' : Database}
        → step crc create n path (event c) d ≡ (ok a, d')
        → Shows c (run_command crc c d) a d'
    unfolding step run_command run_put run_get run_delete
    command-Shows (put_command key val) d e = put-Shows key val (put crc key val d) e
    command-Shows (get_command key) d e = get-Shows key (get crc d key) d e
    command-Shows (delete_command key) d e = delete-Shows key (erase crc key d) e

    main-Shows :
        (c : Command) (db idx : Option Bytes) {d d' : Database} {a : Answer}
        → open_database crc create n path db idx ≡ (ok tt, d)
        → step crc create n path (event c) d ≡ (ok a, d')
        → main crc what create n path c db idx ≡ (ok (console c a), destroy d')
    unfolding main
    main-Shows c db idx {d = d} opened ran =
        rw opened (ap (λ p. (p.0, destroy p.1)) (command-Shows c d ran))

    module _ (named : extension path ≡ codes ".zdb") (first : create 0 ≡ made) (pos : 0 < n)
        (lt : n < 2 ^ 59) where
      event-Follows :
          (c : Command) {d : Database} {rs : List Record} {limit size : ℕ}
          → Opened crc d rs n limit size
          → limit + entry_room (event c) < 2 ^ 63
          → size + log_room (event c) < 2 ^ 63
          → Follows crc create n path (event c) d rs limit size
      event-Follows (put_command key val) o idx_space log_space =
          put_event-Follows crc create n path o named first pos lt key val idx_space log_space
      event-Follows (get_command key) o idx_space log_space =
          get_event-Follows crc create n path o named first pos lt key
      event-Follows (delete_command key) o idx_space log_space =
          erase_event-Follows crc create n path o named first pos lt key idx_space log_space

      run_programs-Opened :
          (cs : List Command) (db idx : Option Bytes) {d : Database} {rs : List Record}
          {limit size : ℕ}
          → open_database crc create n path db idx ≡ (ok tt, d)
          → Opened crc d rs n limit size
          → limit + sum entry_room (events cs) < 2 ^ 63
          → size + sum log_room (events cs) < 2 ^ 63
          → run_programs cs db idx ≡ ok (consoles cs (stored_map rs))
      unfolding run_programs consoles
      run_programs-Opened [] db idx opened o idx_space log_space = refl
      run_programs-Opened (c ∷ cs) db idx {limit = limit} {size = size} opened o idx_space
            log_space =
          let (d', rs', ran, o', same) = event-Follows c o (omega arith) (omega arith) in
          let map : stored_map rs' ≡ expected (event c) (stored_map _) = λ i k. same k i in
          let (s', buckets, within) = o'.stores in
          let (d'', s'', opened', report, buckets', idx_size) =
            open_database-destroy_sized create n path s' named pos in
          let o'' : Opened crc d'' rs' n (limit + entry_room (event c))
              (size + log_room (event c)) =
            record {
              stores = (s'', buckets' ∙ buckets, omega (arith, idx_size, within));
              entries = o'.entries;
              log_size = o'.log_size;
            } in
          rw
            (
              main-Shows c db idx opened ran,
              run_programs-Opened cs _ _ opened' o'' (omega arith) (omega arith),
              map,
            )
            refl

-- Where the path ends in `.zdb`, the number of buckets is positive and below 2^59, the first staging
-- directory is made, and the index file and the log stay below 2^63 bytes when every put and delete
-- takes an entry and a record: running the program with one command after the other on a path without
-- files, each run of `main` on the files that the one before it left, every run answers from a map from
-- keys to values that the puts and deletes before it made. A put exits with 0 and prints that the value
-- is stored, or with 1 and the text of its exception on the error stream where the key or the value is
-- too long; a get exits with 0 and prints the value, or with 1 and an error where the key has none; a
-- delete exits with 0 and says that the key is deleted, or with 1 and an error where it was not there.
pub run_programs-refines :
    (what : Exception → Bytes) (crc : Crc32c) (create : ℕ → CreateDirectory) (n : ℕ) (path : Bytes)
    (cs : List Command)
    → extension path ≡ codes ".zdb"
    → create 0 ≡ made
    → 0 < n
    → n < 2 ^ 59
    → 41 + 8 * n + sum entry_room (events cs) < 2 ^ 63
    → 24 + sum log_room (events cs) < 2 ^ 63
    → run_programs what crc create n path cs none none ≡ ok (consoles what cs (λ key. none))
unfolding values
run_programs-refines what crc create n path cs named first pos lt idx_space log_space =
    let (d, s, opened, report, buckets, size) =
      open_database-sized crc create n path named pos lt in
    let o : Opened crc d [] n (41 + 8 * n) 24 = record {
      stores = (s, buckets, omega (arith, size));
      entries = omega arith;
      log_size = omega arith;
    } in
    run_programs-Opened what crc create n path named first pos lt cs none none opened o idx_space
      log_space
