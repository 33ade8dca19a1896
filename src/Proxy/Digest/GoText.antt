-- ===== src/Proxy/Digest/GoText.antt =====
-- The functions of Go's strings, encoding/hex and fmt that internal/proxy/digest.go calls.
use go_packet_repeater.Base.{
  ℕ, ◌+◌, ◌-◌, ◌/◌, ◌%◌, Bool, ◌&&◌, ◌||◌, [], ◌∷◌, ◌++◌, map, Bytes, codes, ltb, leb, ◌==◌,
  if◌then◌else◌, text_eq, trim,
}
use go_packet_repeater.Config.Keyword.{lower_byte, is_ascii}

-- Functions of Go's library on a text with a byte outside ASCII.
pub record Texts : Type 0 where
  -- `WriteRune` of each rune that `range` gives
  pub repaired : Bytes → Bytes
  -- `strings.TrimSpace`, `strings.EqualFold` and `%q`
  pub trim_unicode : Bytes → Bytes
  pub fold_unicode : Bytes → Bytes → Bool
  pub quote_unicode : Bytes → Bytes

unfoldable pub is_space : ℕ → Bool
is_space c = c == 32 || (leb 9 c && leb c 13)

unfoldable pub is_quote : ℕ → Bool
is_quote c = c == b'"'

unfoldable pub trim_space : Texts → Bytes → Bytes
trim_space tx s = if is_ascii s then trim is_space s else tx.trim_unicode s

unfoldable pub equal_fold : Texts → Bytes → Bytes → Bool
equal_fold tx a b =
    if is_ascii a && is_ascii b
    then text_eq (map lower_byte a) (map lower_byte b)
    else tx.fold_unicode a b

-- `hex.EncodeToString`
unfoldable pub hex_digit : ℕ → ℕ
hex_digit n = if ltb n 10 then b'0' + n else b'a' + (n - 10)

unfoldable pub hex : Bytes → Bytes
unfolding hex_digit
hex [] = []
hex (b ∷ bs) = hex_digit (b / 16) ∷ hex_digit (b % 16) ∷ hex bs

-- What `%q` makes of a byte within ASCII.
unfoldable pub escape : ℕ → Bytes
unfolding hex_digit
escape c =
    if c == b'"' || c == b'\\'
    then b'\\' ∷ c ∷ []
    else if leb 32 c && leb c 126
    then c ∷ []
    else if c == 7
    then codes "\\a"
    else if c == 8
    then codes "\\b"
    else if c == 9
    then codes "\\t"
    else if c == 10
    then codes "\\n"
    else if c == 11
    then codes "\\v"
    else if c == 12
    then codes "\\f"
    else if c == 13
    then codes "\\r"
    else codes "\\x" ++ hex_digit (c / 16) ∷ hex_digit (c % 16) ∷ []

unfoldable pub escaped : Bytes → Bytes
unfolding escape
escaped [] = []
escaped (c ∷ s) = escape c ++ escaped s

unfoldable pub quote : Texts → Bytes → Bytes
unfolding escaped
quote tx s = if is_ascii s then b'"' ∷ (escaped s ++ b'"' ∷ []) else tx.quote_unicode s
