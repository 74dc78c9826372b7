-- ===== src/Cli.antt =====
-- apps/zidane/commands.cpp and the part of apps/zidane/zidane.cpp behind the parser, which is CLI11's:
-- what a command prints, its exit code, and the files it leaves.
pub mod Runs
pub mod Programs
use zidanedb.Base.{ℕ, Option, none, some, [], ◌∷◌, ◌++◌, Bool, true, false}
use zidanedb.Base.Exec.{pure, reads, ◌>>=◌, ◌>>◌}
use zidanedb.Base.Results.{Exception, Result, ok, throws, diverges, stops_at}
use zidanedb.Constants.{codes}
use zidanedb.Stream.{Bytes}
use zidanedb.Record.{Crc32c}
use zidanedb.Database.{Database, DbExec, CreateDirectory, put, get, erase, destroy, open_database}

-- The exit code and the bytes on the two output streams.
pub record Console : Type 0 where
  pub exit_code : ℕ
  pub output : Bytes
  pub error : Bytes

-- The subcommand that the parser found, with its arguments.
pub data Command : Type 0 where
  put_command : (key value : Bytes) → Command
  get_command delete_command : (key : Bytes) → Command

-- A text with the newline behind it.
abbrev line : Bytes → Bytes
line text = text ++ 10 ∷ []

abbrev pub printed : Bytes → Console
printed text = record { exit_code = 0; output = line text; error = [] }

abbrev pub failed : Bytes → Console
failed text = record { exit_code = 1; output = []; error = line text }

abbrev pub shown : Option Bytes → Console
shown none = failed (codes "Key not found")
shown (some value) = printed value

abbrev pub deleted : Bytes → Bool → Console
deleted key false = failed (codes "Key " ++ (key ++ codes " does not exist"))
deleted key true = printed (codes "Key " ++ (key ++ codes " deleted"))

module _ (crc : Crc32c) where
  unfoldable pub run_put : Bytes → Bytes → DbExec Console
  run_put key value = do put crc key value; pure (printed (codes "Value stored"))

  unfoldable pub run_get : Bytes → DbExec Console
  run_get key = do val ← reads (λ d. get crc d key); pure (shown val)

  unfoldable pub run_delete : Bytes → DbExec Console
  run_delete key = do existed ← erase crc key; pure (deleted key existed)

  unfoldable pub run_command : Command → DbExec Console
  run_command (put_command key value) = run_put key value
  run_command (get_command key) = run_get key
  run_command (delete_command key) = run_delete key

  -- `what` is the text of an exception.
  module _ (what : Exception → Bytes) where
    abbrev pub reported : Result Console → Result Console
    reported (ok console) = ok console
    reported (throws e) = ok (failed (codes "zidane: " ++ what e))
    reported diverges = diverges
    reported (stops_at name) = stops_at name

    -- The destructor runs where the constructor returned.
    abbrev closing : Command → Result (Unit {0}) × Database → Result Console × Database
    closing command (ok _, d) = let r = run_command command d in (reported r.0, destroy r.1)
    closing command (throws e, d) = (reported (throws e), d)
    closing command (diverges, d) = (diverges, d)
    closing command (stops_at name, d) = (stops_at name, d)

    -- `main` behind the parser, on the files of the path.
    unfoldable pub main :
        (ℕ → CreateDirectory)
        → (num_index_buckets : ℕ) → (path : Bytes) → Command
        → (db idx : Option Bytes) → Result Console × Database
    main create num_index_buckets path command db idx =
        closing command (open_database crc create num_index_buckets path db idx)
