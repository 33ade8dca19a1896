-- ===== src/System.antt =====
-- What gopr asks of the operating system and of tables that Go's library holds: the parameter of
-- the models that use it.
use go_packet_repeater.Base.{◌≡◌, ◌<◌, Option, some, Bytes, length}

pub record System : Type 0 where
  -- `os.ReadFile`, for files that do not change while a command line is parsed
  pub read_file : Bytes → Option Bytes
  -- `pem.Decode`: the type of the next block, and the input behind it
  pub pem_decode : Bytes → Option (Bytes × Bytes)
  -- a block that is found takes input
  pub pem_shrinks :
      (input kind rest : Bytes) → pem_decode input ≡ some (kind, rest) → length rest < length input
  -- `strings.ToUpper` and `strings.ToLower` of a text with a byte outside ASCII
  pub unicode_upper : Bytes → Bytes
  pub unicode_lower : Bytes → Bytes
