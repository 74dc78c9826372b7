-- ===== src/Lib.antt =====
-- ZidaneDB: a key-value store in a data log and a persistent hash index.
--
-- The program: a database is two files. The data log (`x.zdb`) is a header and a sequence of records,
-- one for each `put` and `erase`, each with a CRC-32C. The index (`x.zdb.idx`) is a header, a table of
-- bucket heads and entries that chain up; it maps a key to the offset of the record that holds its
-- value. A method of `Database` appends to the log first and then changes the index. A field of the
-- index header says how much of the log is indexed, another whether the last close was clean; opening
-- a database where they do not fit cuts a torn record off the log and builds the index again.
--
-- The files:
--   Base       lists and tests over the native numbers, bits, the exceptions of the program (Results)
--              and the state and error monad of the methods (Exec)
--   Stream     a file as its bytes, an input stream as the bytes left and its position
--   Utils      src/utils.cpp; Utils/Integers and Utils/Strings are about reading what was written,
--              Utils/Prefixes about reading from the beginning of a file, Utils/Views about
--              reading from any bytes
--   Constants  src/constants.h
--   Record     src/record.cpp; Record/RoundTrip, Record/Torn and Record/Damaged are about whole
--              records, cut ones and damaged ones, Record/Views about any bytes
--   Index      src/index.cpp: Read has `find`, `empty` and `stats`, File has opening, Update has `set`,
--              `erase` and the writes of header fields. The invariant of the file is `Holds` of
--              Index/Represents, which says what map an index file stands for. Index/Layout,
--              Index/Entries and Index/Table are about the bytes, Index/Chains about the linked
--              entries, Index/Find, Index/Set, Index/Erase and Index/Header about the operations
--   Database   src/database.cpp: State has the members, Log the header and the scan, Rebuild the new
--              index and recovery, Methods the public methods, Open the constructor. Database/Scan is
--              about the scan, Replay and Recovery about the new index, Contents, Writes and Removals
--              about `get`, `put` and `erase`, Parsing and Reads about files that hold any bytes, and
--              Opening about the constructor: on no files (Opening/Created), on an index that is
--              missing, invalid or not clean (Opening/Recovered), on a log that recovery refuses
--              (Opening/Broken), on a log of any bytes (Opening/Total), and behind the destructor
--              (Opening/Reopened). `Stores` of Database/Contents is the invariant of an open
--              database, `values` the map its records stand for
--   Sessions   the calls and failures of a database's life, over Database and Failpoints: the events and
--              the map that they stand for; Sessions/Steps is about the calls, Sessions/Crashes and
--              Sessions/Cuts about the failures, Sessions/Refines about sequences of them
--   Failpoints src/failpoints.h and `Index::set`, `Database::put` and `Database::close` as the build
--              with failpoints has them (Methods); a process that is stopped there has the result
--              `stops_at` with the name of the failpoint, and the files it leaves. Reached is about
--              stopping, Stops, Crashes and Closing about these files, Recovery and Closing about
--              opening them again. `close` and `put` take the name that is requested in the
--              environment
--   Cli        apps/zidane/commands.cpp and `main` of apps/zidane/zidane.cpp behind the parser;
--              Cli/Programs is about runs of the program one behind the other
--   Matrix     apps/matrix, the program that tests the database: Utils and Processes have utils.cpp,
--              Workloads the tests that write and read pairs, Crash the test that kills a process at
--              a failpoint, Main has matrix.cpp: the part behind the parser, and in Main/Arguments the
--              options with their defaults. Workloads/Basic, Workloads/Timed, Workloads/Large and
--              Crash/Recovers are about the tests that pass, Crash/Stopped about the child that stops
--   Tests      the theorems at concrete inputs
--
-- A method is a function of the object's members and the files' bytes; `Result` has what it returns
-- or throws. A function of the source keeps its name. `write_record` is `serialize_record` with the
-- append of `append_record`.
--
-- Fuel: the loops along a chain (`find_loop`, `chain_loop`) have one round for each byte of the index
-- file, and every entry takes more than a byte; a chain that runs in a circle, where the source does
-- not end, gives `diverges`. The loops over records (`scan_loop`, `rebuild_loop`) have one round for
-- each byte of the log, and a record takes more than a byte. `to_string` has a round for each unit of
-- its number. The loops on what the system answers to `waitpid` end with the list of the answers, and
-- give `diverges` there.
--
-- Parameters: the checksum `crc32c::Extend` (the record `Crc32c`, which returns a 32-bit number), and
-- what `create_directory` answers for the random names of the staging directory. For the failpoints,
-- the requested name and whether a stream writes its buffer before the flush (`early`). For the
-- matrix tests, the order in which a `std::unordered_map` gives its pairs, what
-- `std::uniform_int_distribution` gives for its two bounds with the random engine (`Picks`), what the
-- system answers to `fork`, `kill` and `waitpid`, with the clock, and the two checks of CLI11 on the
-- options.
--
-- Not modelled: input and output errors other than a missing file, the texts of the exceptions'
-- messages, the average of `IndexStats` as a `double` (its two numbers are kept), the parser of the
-- two command lines (CLI11's), what the matrix tests print on the output stream and
-- the durations they measure, the removal of their workspace, the failpoints of `Index::set` where
-- the constructor of a process with failpoints builds the index again, the tests under tests/, and
-- the vendored libraries.
pub mod Base
pub mod Stream
pub mod Utils
pub mod Constants
pub mod Record
pub mod Index
pub mod Database
pub mod Cli
pub mod Failpoints
pub mod Matrix
pub mod Sessions
pub mod Tests
