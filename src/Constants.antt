-- ===== src/Constants.antt =====
-- src/constants.h, and the text of its magic strings as bytes.
use Prim.Native.Char.{code}
use Prim.Native.String.{String}
use zidanedb.Base.{ℕ, ◌*◌, [], ◌∷◌}
use zidanedb.Stream.{Bytes}

-- the bytes of an ASCII text
abbrev pub codes : String → Bytes
codes String.[] = []
codes (String.◌∷◌ c s) = code c ∷ codes s

abbrev pub max_key_size : ℕ
max_key_size = 1024

abbrev pub max_value_size : ℕ
max_value_size = 16 * 1024 * 1024

unfoldable pub index_magic : Bytes
index_magic = codes "ZIDANEDBINDEX026"

abbrev pub index_version : ℕ
index_version = 1

unfoldable pub db_magic : Bytes
db_magic = codes "ZIDANEDBDATABASE"

abbrev pub db_version : ℕ
db_version = 1
