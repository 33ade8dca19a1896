-- ===== src/Config/Keyword.antt =====
-- `matchKeyword` and `proxyMode` of internal/config/parse.go, and Go's mapping of case: byte by
-- byte for a text within ASCII, by Unicode's tables for any other.
use go_packet_repeater.Base.{
  ℕ, ◌+◌, ◌-◌, Bool, true, ◌&&◌, ◌||◌, Option, none, some, [], ◌∷◌, map, Bytes, String, codes, ltb,
  leb, if◌then◌else◌, text_eq,
}
use go_packet_repeater.System.{System}
use go_packet_repeater.Config.{Mode, http_proxy, socks_proxy}

upper_byte : ℕ → ℕ
upper_byte c = if leb b'a' c && leb c b'z' then c - 32 else c

unfoldable pub lower_byte : ℕ → ℕ
lower_byte c = if leb b'A' c && leb c b'Z' then c + 32 else c

unfoldable pub is_ascii : Bytes → Bool
is_ascii [] = true
is_ascii (c ∷ s) = ltb c 128 && is_ascii s

-- `strings.ToUpper`, `strings.ToLower`
unfoldable pub to_upper : System → Bytes → Bytes
unfolding upper_byte is_ascii
to_upper sys s = if is_ascii s then map upper_byte s else sys.unicode_upper s

unfoldable pub to_lower : System → Bytes → Bytes
unfolding lower_byte is_ascii
to_lower sys s = if is_ascii s then map lower_byte s else sys.unicode_lower s

-- `word` is a literal within ASCII
match_keyword : Bytes → String → Bool
unfolding upper_byte lower_byte
match_keyword tok word =
    text_eq tok (map upper_byte (codes word)) || text_eq tok (map lower_byte (codes word))

-- `none` where the source's second result is false
unfoldable pub proxy_mode : Bytes → Option Mode
unfolding match_keyword
proxy_mode tok =
    if match_keyword tok "proxy"
    then some http_proxy
    else if match_keyword tok "socks"
    then some socks_proxy
    else none
