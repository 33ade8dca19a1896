-- ===== src/Config/Addr.antt =====
-- `normalizeAddr`, `isAllDigits` and `validatePort` of internal/config/parse.go, and the
-- `strconv.Atoi` of a 64-bit platform that the last one calls.
pub mod Normal
use go_packet_repeater.Base.{
  ℕ, ◌+◌, ◌-◌, ◌*◌, ◌^◌, Bool, true, false, not, ◌&&◌, ◌||◌, Option, none, some, List, [], ◌∷◌,
  ◌++◌, Bytes, codes, ltb, leb, ◌==◌, if◌then◌else◌, contains, is_empty, ℤ, pos, negsuc, Result, ok,
  err, ◌>>=◌, ◌>>◌, fail_if, map_err,
}
use go_packet_repeater.HostPort.{AddrError, split_host_port, join_host_port}

pub data PortError : Type 0 where
  invalid_port : Bytes → PortError
  out_of_range : ℤ → PortError

pub data AddressError : Type 0 where
  empty_address : AddressError
  no_port target_without_port target_without_host : Bytes → AddressError
  bad_split : Bytes → AddrError → AddressError
  bad_port : PortError → AddressError

unfoldable pub is_digit : ℕ → Bool
is_digit c = leb b'0' c && leb c b'9'

unfoldable pub all_digits : Bytes → Bool
unfolding is_digit
all_digits [] = true
all_digits (c ∷ s) = is_digit c && all_digits s

-- `isAllDigits`: a rune outside ASCII has bytes outside ASCII, and neither is a digit
is_all_digits : Bytes → Bool
unfolding all_digits
is_all_digits s = not (is_empty s) && all_digits s

-- the number that decimal digits spell behind `n`
unfoldable pub value : ℕ → Bytes → ℕ
value n [] = n
value n (c ∷ s) = value (n * 10 + (c - b'0')) s

-- what follows the sign: at least one digit, and a value that the type holds
magnitude : ℕ → Bytes → Option ℕ
unfolding is_all_digits
magnitude limit s = if is_all_digits s && leb (value 0 s) limit then some (value 0 s) else none

-- -n
negated : ℕ → ℤ
negated n = if n == 0 then pos 0 else negsuc (n - 1)

-- `strconv.Atoi`: an optional sign and decimal digits, within the range of int64
unfoldable pub atoi : Bytes → Option ℤ
unfolding magnitude negated value
atoi [] = none
atoi (c ∷ s) =
    if c == b'-'
    then elim (magnitude (2 ^ 63) s) [ none ↦ none | some n ↦ some (negated n) ]
    else if c == b'+'
    then elim (magnitude (2 ^ 63 - 1) s) [ none ↦ none | some n ↦ some (pos n) ]
    else elim (magnitude (2 ^ 63 - 1) (c ∷ s)) [ none ↦ none | some n ↦ some (pos n) ]

-- `n < 1 || n > 65535`
bad_range : ℤ → Bool
bad_range (pos n) = ltb n 1 || ltb 65535 n
bad_range (negsuc n) = true

unfoldable pub validate_port : Bytes → Result PortError (Unit {0})
unfolding bad_range
validate_port p = elim (atoi p) [
  | none ↦ err (invalid_port p)
  | some n ↦ fail_if (bad_range n) (out_of_range n)
]

abbrev pub any_host : Bytes
any_host = codes "0.0.0.0"

-- a token with no colon
bare_port : Bytes → Bool → Result AddressError Bytes
unfolding is_all_digits
bare_port tok is_target = do
  fail_if (not (is_all_digits tok)) (no_port tok)
  fail_if is_target (target_without_port tok)
  map_err bad_port (validate_port tok)
  ok (any_host ++ b':' ∷ tok)

-- a token with a colon
host_and_port : Bytes → Bool → Result AddressError Bytes
host_and_port tok is_target = do
  (host, port) ← map_err (bad_split tok) (split_host_port tok)
  map_err bad_port (validate_port port)
  fail_if (is_empty host && is_target) (target_without_host tok)
  ok (join_host_port (if is_empty host then any_host else host) port)

unfoldable pub normalize_addr : Bytes → Bool → Result AddressError Bytes
unfolding bare_port host_and_port
normalize_addr tok is_target = do
  fail_if (is_empty tok) empty_address
  if not (contains b':' tok) then bare_port tok is_target else host_and_port tok is_target
