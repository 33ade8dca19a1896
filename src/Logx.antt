-- ===== src/Logx.antt =====
-- internal/logx/logx.go: which lines the log prints, and the copy loop that every relay runs. A
-- line stands for its text: the format and the arguments that it is made of.
pub mod Levels
pub mod Copying
pub mod Dump
pub mod Tiers
pub mod Relaying
use go_packet_repeater.Base.{
  ℕ, ◌+◌, Bool, true, false, not, ◌&&◌, ◌||◌, Option, none, some, List, [], ◌∷◌, ◌++◌, Bytes, codes,
  ltb, ◌==◌, min, if◌then◌else◌, is_empty, length, take, ℤ, pos, negsuc,
}

abbrev pub level_error : ℤ
level_error = pos 0

abbrev pub level_warn : ℤ
level_warn = pos 1

abbrev pub level_info : ℤ
level_info = pos 2

abbrev pub level_debug : ℤ
level_debug = pos 3

abbrev pub max_level : ℤ
max_level = level_debug

-- `a < b` for the ints of Go
abbrev pub ltz : ℤ → ℤ → Bool
ltz (pos a) (pos b) = ltb a b
ltz (pos a) (negsuc b) = false
ltz (negsuc a) (pos b) = true
ltz (negsuc a) (negsuc b) = ltb b a

-- `Clamp`
unfoldable pub clamp : ℤ → ℤ
clamp level =
    if ltz level level_error then level_error else if ltz max_level level then max_level else level

pub record Logger : Type 0 where
  pub level : ℤ
  pub verbose : Bool

-- `New`
unfoldable pub new : ℤ → Bool → Logger
new level verbose = record { level = clamp level; verbose = verbose }

pub data Line : Type 0 where
  -- a text of `log.Printf`
  text : Bytes → Line
  -- `"%s: %s %d bytes"` with the label, the arrow of the direction and the count
  chunk_line : (label : Bytes) (out : Bool) (n : ℕ) → Line
  -- `"%s: closed (sent=%d recv=%d duration=%s)"`, without the time that a connection took
  closed_line : (label : Bytes) (sent recv : ℕ) → Line
  -- what `Data` writes: the label, the arrow, and the quoted bytes
  data_line : (label : Bytes) (out : Bool) (bytes : Bytes) → Line

-- `logAt`; the logger is a pointer, and may be nil
unfoldable pub log_at : Option Logger → ℤ → Line → List Line
log_at none least line = []
log_at (some l) least line = if ltz l.level least then [] else line ∷ []

-- `Error` and `Print`
unfoldable pub print : Option Logger → Line → List Line
print l line = line ∷ []

unfoldable pub warn : Option Logger → Line → List Line
unfolding log_at
warn l = log_at l level_warn

unfoldable pub info : Option Logger → Line → List Line
unfolding log_at
info l = log_at l level_info

unfoldable pub debug : Option Logger → Line → List Line
unfolding log_at
debug l = log_at l level_debug

unfoldable pub info_enabled : Option Logger → Bool
info_enabled none = false
info_enabled (some l) = not (ltz l.level level_info)

unfoldable pub debug_enabled : Option Logger → Bool
debug_enabled none = false
debug_enabled (some l) = not (ltz l.level level_debug)

-- what every handler of a connection logs at its end
unfoldable pub closing_lines : Option Logger → Bytes → (sent recv : ℕ) → List Line
unfolding info_enabled info warn
closing_lines l label sent recv =
    if info_enabled l
    then info l (closed_line label sent recv)
    else warn l (text (label ++ codes ": closed"))

-- `Verbose`
unfoldable pub is_verbose : Option Logger → Bool
is_verbose none = false
is_verbose (some l) = l.verbose

-- `Data`
unfoldable pub dump : Option Logger → Bytes → Bool → Bytes → List Line
dump none label out p = []
dump (some l) label out p = if not l.verbose || is_empty p then [] else data_line label out p ∷ []

-- What a call of `Read` gives beside its bytes.
pub data Status : Type 0 where
  more eof : Status
  broken : ℕ → Status

pub record Chunk : Type 0 where
  pub bytes : Bytes
  pub status : Status

-- What a call of `Write` gives. It takes no more bytes than it is given, as io.Writer demands.
pub record Wrote : Type 0 where
  pub count : ℕ
  pub failure : Option ℕ

-- How the copying ends; `waiting` when the reads that are given have not ended the stream.
pub data End : Type 0 where
  waiting finished short_write : End
  write_failed read_failed : ℕ → End

-- The result of a copy, with what its writer took.
pub record Copied : Type 0 where
  pub total : ℕ
  pub end : End
  pub delivered : Bytes

abbrev pub Output : Type 0
Output = Copied × List Line

-- The result of the next write of `p`; a writer with no more results given takes all.
next_write : List Wrote → Bytes → Wrote × List Wrote
next_write [] p = (record { count = length p; failure = none }, [])
next_write (w ∷ ws) p = (record w { count = min w.count (length p) }, ws)

stop : Copied → End → Copied
stop c end = record c { end = end }

-- the write of a round, behind which `next` goes on
write_chunk : Wrote → Bytes → Copied → (Copied → Output) → Output
unfolding stop
write_chunk w p c next =
    let c' = record c { total = c.total + w.count; delivered = c.delivered ++ take w.count p } in
    elim w.failure [
      | some e ↦ (stop c' (write_failed e), [])
      | none ↦ if w.count == length p then next c' else (stop c' short_write, [])
    ]

-- what a round does behind its write
after_read : Status → Copied → (Copied → Output) → Output
unfolding stop
after_read more c next = next c
after_read eof c next = (stop c finished, [])
after_read (broken e) c next = (stop c (read_failed e), [])

log_first : List Line → Output → Output
log_first lines (c, more_lines) = (c, lines ++ more_lines)

-- the loop of `Copy`
unfoldable pub copy_from : Option Logger → Bytes → Bool → List Chunk → List Wrote → Copied → Output
unfolding next_write write_chunk after_read log_first stop
copy_from l label out [] ws c = (stop c waiting, [])
copy_from l label out (r ∷ rs) ws c =
    let (w, ws') = next_write ws r.bytes in
    let go_on = copy_from l label out rs in
    if is_empty r.bytes
    then after_read r.status c (go_on ws)
    else log_first (dump l label out r.bytes ++ debug l (chunk_line label out (length r.bytes)))
        (write_chunk w r.bytes c (λ c'. after_read r.status c' (go_on ws')))

ended : Status → ℕ → Bytes → Copied → Copied
ended more n d rest = rest
ended eof n d rest = record { total = n; end = finished; delivered = d }
ended (broken e) n d rest = record { total = n; end = read_failed e; delivered = d }

-- `io.Copy`, with the bytes written so far
unfoldable pub io_copy : List Chunk → List Wrote → ℕ → Bytes → Copied
unfolding next_write ended
io_copy [] ws n d = record { total = n; end = waiting; delivered = d }
io_copy (r ∷ rs) ws n d = elim (is_empty r.bytes) [
  | true ↦ ended r.status n d (io_copy rs ws n d)
  | false ↦
      let (w, ws') = next_write ws r.bytes in
      let m = n + w.count in
      let sent = d ++ take w.count r.bytes in
      elim w.failure [
        | some e ↦ record { total = m; end = write_failed e; delivered = sent }
        | none ↦ elim (w.count == length r.bytes) [
          | true ↦ ended r.status m sent (io_copy rs ws' m sent)
          | false ↦ record { total = m; end = short_write; delivered = sent }
        ]
      ]
]

abbrev pub nothing : Copied
nothing = record { total = 0; end = waiting; delivered = [] }

-- `Copy`
unfoldable pub copy : Option Logger → Bytes → Bool → List Chunk → List Wrote → Output
unfolding io_copy copy_from
copy l label out rs ws =
    if not (is_verbose l) && not (debug_enabled l)
    then (io_copy rs ws 0 [], [])
    else copy_from l label out rs ws nothing
