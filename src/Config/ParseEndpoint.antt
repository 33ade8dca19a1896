-- ===== src/Config/ParseEndpoint.antt =====
-- `parseEndpoint` of internal/config/parse.go. A round of its loop over the suffixes reads one
-- suffix by itself (`read_suffix`), and then holds it against those before it (`add_keyword`).
pub mod Grammar
use go_packet_repeater.Base.{
  ℕ, ◌+◌, Bool, true, false, not, ◌&&◌, ◌||◌, Option, none, some, List, [], ◌∷◌, Bytes, codes, ltb,
  ◌==◌, if◌then◌else◌, text_eq, cut, split, is_empty, Result, ok, err, ◌>>=◌, ◌>>◌, fail_if,
  map_err,
}
use go_packet_repeater.System.{System}
use go_packet_repeater.Config.{Endpoint, no_endpoint}
use go_packet_repeater.Config.Addr.{AddressError, normalize_addr}
use go_packet_repeater.Config.Keyword.{to_upper, to_lower}

pub record ParsedEndpoint : Type 0 where
  pub ep : Endpoint
  pub tcp : Bool
  pub udp : Bool

-- The keys of `keywordOrder`.
pub data Keyword : Type 0 where
  tcp_word udp_word ssl_word : Keyword

-- Their values.
unfoldable pub order : Keyword → ℕ
order tcp_word = 0
order udp_word = 1
order ssl_word = 2

unfoldable pub keyword_of : Bytes → Option Keyword
keyword_of upper =
    if text_eq upper (codes "TCP")
    then some tcp_word
    else if text_eq upper (codes "UDP")
    then some udp_word
    else if text_eq upper (codes "SSL")
    then some ssl_word
    else none

pub data EndpointError : Type 0 where
  bad_address : AddressError → EndpointError
  empty_suffix mixed_case unknown_suffix not_on_target : Bytes → EndpointError
  repeated_suffix out_of_order : Keyword → EndpointError

abbrev pub is_ssl : Keyword → Bool
is_ssl ssl_word = true
is_ssl _ = false

known : Bytes → Option Keyword → Result EndpointError Keyword
known s none = err (unknown_suffix s)
known s (some k) = ok k

unfoldable pub read_suffix : System → Bool → Bytes → Result EndpointError Keyword
unfolding known
read_suffix sys is_target s = do
  fail_if (is_empty s) (empty_suffix s)
  let upper = to_upper sys s
  fail_if (not (text_eq s upper) && not (text_eq s (to_lower sys s))) (mixed_case s)
  k ← known s (keyword_of upper)
  fail_if (is_target && not (is_ssl k)) (not_on_target s)
  ok k

-- The variables of the loop: `next` is `last` + 1, and `seen` lists the keys of the map.
pub record Suffixes : Type 0 where
  pub parsed : ParsedEndpoint
  pub next : ℕ
  pub seen : List Keyword

is_seen : Keyword → List Keyword → Bool
unfolding order
is_seen k [] = false
is_seen k (j ∷ ks) = order k == order j || is_seen k ks

-- `switch upper`
set_flag : Keyword → ParsedEndpoint → ParsedEndpoint
set_flag tcp_word pe = record pe { tcp = true }
set_flag udp_word pe = record pe { udp = true }
set_flag ssl_word pe = record pe { ep = record (pe.ep) { ssl = true } }

unfoldable pub add_keyword : Keyword → Suffixes → Result EndpointError Suffixes
unfolding is_seen set_flag
add_keyword k st = do
  fail_if (is_seen k st.seen) (repeated_suffix k)
  fail_if (ltb (order k) st.next) (out_of_order k)
  ok (record { parsed = set_flag k st.parsed; next = order k + 1; seen = k ∷ st.seen })

unfoldable pub read_suffixes : System → Bool → List Bytes → Suffixes → Result EndpointError Suffixes
read_suffixes sys is_target [] st = ok st
read_suffixes sys is_target (s ∷ ss) st = do
  k ← read_suffix sys is_target s
  st' ← add_keyword k st
  read_suffixes sys is_target ss st'

-- the address token and the suffix tokens
unfoldable pub address_and_suffixes : Bytes → Bytes × List Bytes
address_and_suffixes tok = elim (cut b'/' tok) [
  | none ↦ (tok, [])
  | some (addr_tok, suffix) ↦ (addr_tok, split b'/' suffix)
]

abbrev pub no_suffixes : Bytes → Suffixes
no_suffixes addr = record {
  parsed = record { ep = record no_endpoint { addr = addr }; tcp = false; udp = false };
  next = 0;
  seen = [];
}

unfoldable pub parse_endpoint : System → Bytes → Bool → Result EndpointError ParsedEndpoint
parse_endpoint sys tok is_target = do
  let (addr_tok, suffixes) = address_and_suffixes tok
  addr ← map_err bad_address (normalize_addr addr_tok is_target)
  st ← read_suffixes sys is_target suffixes (no_suffixes addr)
  ok st.parsed
