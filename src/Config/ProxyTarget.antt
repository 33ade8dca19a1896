-- ===== src/Config/ProxyTarget.antt =====
-- `classifyProxyTarget` and `splitProxyListenSuffix` of internal/config/parse.go.
pub mod Classified
use go_packet_repeater.Base.{
  Bool, true, false, Option, none, some, List, [], ◌∷◌, Bytes, if◌then◌else◌, contains, cut, Result,
  ok, err, ◌>>=◌, ◌>>◌, map_err,
}
use go_packet_repeater.Config.{Mode}
use go_packet_repeater.Config.Addr.{AddressError, normalize_addr}
use go_packet_repeater.Config.Keyword.{proxy_mode}

pub data SuffixError : Type 0 where
  not_single : Bytes → SuffixError
  unknown_listen_suffix : Bytes → Bytes → SuffixError

-- The address token, and the frontend that the suffix names; `none` where there is no suffix.
unfoldable pub split_proxy_listen_suffix : Bytes → Result SuffixError (Bytes × Option Mode)
split_proxy_listen_suffix tok = elim (cut b'/' tok) [
  | none ↦ ok (tok, none)
  | some (addr_tok, suffix) ↦
      if contains b'/' suffix then err (not_single tok) else elim (proxy_mode suffix) [
        | none ↦ err (unknown_listen_suffix suffix tok)
        | some m ↦ ok (addr_tok, some m)
      ]
]

pub data UpstreamError : Type 0 where
  invalid_upstream : Bytes → AddressError → UpstreamError

-- the backend and the upstream's address, which is empty for the bare keyword
chained : Bytes → Bytes → Option (Result UpstreamError (Mode × Bytes))
chained addr_tok suffix = elim (proxy_mode suffix) [
  | none ↦ none
  | some m ↦
      some
        (do addr ← map_err (invalid_upstream addr_tok) (normalize_addr addr_tok true); ok (m, addr))
]

-- `none` where `ok` is false: the token is no proxy target of any kind.
unfoldable pub classify_proxy_target : Bytes → Option (Result UpstreamError (Mode × Bytes))
unfolding chained
classify_proxy_target tok = elim (proxy_mode tok) [
  | some m ↦ some (ok (m, []))
  | none ↦ elim (cut b'/' tok) [
    | none ↦ none
    | some (addr_tok, suffix) ↦ if contains b'/' suffix then none else chained addr_tok suffix
  ]
]
