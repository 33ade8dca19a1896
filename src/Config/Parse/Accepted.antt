-- ===== src/Config/Parse/Accepted.antt =====
-- Every command line that `Parse` accepts asks for help, for the version, or is one that can be run.
use go_packet_repeater.Base.{
  ◌≡◌, arith, List, [], ◌∷◌, Bytes, ok, err, inl, inr, >>=-eq-ok, map_err, map_err-eq-ok,
  Option-cases, Bool-cases,
}
use go_packet_repeater.System.{System}
use go_packet_repeater.Config.{Config, version, help, zero_config}
use go_packet_repeater.Config.Options.{Options, Scope}
use go_packet_repeater.Config.Extract.{extract_options}
use go_packet_repeater.Config.Extract.Invariant.{IsValid, extract_options-IsValid}
use go_packet_repeater.Config.ProxyTarget.{classify_proxy_target}
use go_packet_repeater.Config.ProxyTarget.Classified.{classify_proxy_target-Classified}
use go_packet_repeater.Config.Parse.{bad_options, relay_config, positional_config, parse}
use go_packet_repeater.Config.Parse.Valid.{ForwardValid, forward_config-ForwardValid}
use go_packet_repeater.Config.Parse.Proxy.{ProxyValid, proxy_config-ProxyValid}

pub data Runnable (c : Config) : Type 0 where
  shows_help : c ≡ record zero_config { mode = help } → Runnable c
  shows_version : c ≡ record zero_config { mode = version } → Runnable c
  forwards : ForwardValid c → Runnable c
  proxies : ProxyValid c → Runnable c

module _ {o : Options} {scope : Scope} (sys : System) (v : IsValid o scope) where
  relay_config-Runnable :
      (target_tok listen_tok : Bytes) {c : Config}
      → relay_config sys o target_tok listen_tok ≡ ok c
      → Runnable c
  unfolding relay_config
  relay_config-Runnable target_tok listen_tok e =
      elim (Option-cases (classify_proxy_target target_tok)) [
        | inl plain ↦
            forwards (forward_config-ForwardValid v sys target_tok listen_tok (ground arith))
        | inr (err x, refused) ↦ absurd (ground arith)
        | inr (ok (mode, upstream), chosen) ↦
            let (m, u) = rw chosen at (classify_proxy_target-Classified target_tok) in
            proxies (proxy_config-ProxyValid v mode upstream listen_tok m u (ground arith))
      ]

  positional_config-Runnable :
      (rest : List Bytes) {c : Config} → positional_config sys o rest ≡ ok c → Runnable c
  unfolding positional_config
  positional_config-Runnable (target_tok ∷ listen_tok ∷ []) e =
      relay_config-Runnable target_tok listen_tok e
  positional_config-Runnable _ e = cc

-- Every configuration that `Parse` returns can be run as it stands: either only its mode is set,
-- to help or to version; or it is a proxy with a normalized listen address on TCP, no TLS setting
-- and no target, and with credentials only towards a normalized upstream; or it is a relay with
-- two normalized addresses and the same protocols on both sides, at least one, whose TLS settings
-- are complete (a certificate or a signing CA behind a TLS listener, a key only with its
-- certificate, a server name for MITM over DTLS) and name no certificate and no signing CA for a
-- side without TLS.
pub parse-Runnable :
    (sys : System) (args : List Bytes) {c : Config} → parse sys args ≡ ok c → Runnable c
unfolding parse
parse-Runnable sys args e =
    let ((o, rest), x, later) = >>=-eq-ok (map_err bad_options (extract_options args)) _ e in
    let (scope, v) = extract_options-IsValid args (map_err-eq-ok bad_options _ x) in
    elim (Bool-cases o.help) [
      | inl h ↦ shows_help (ground arith)
      | inr h ↦ elim (Bool-cases o.version) [
        | inl k ↦ shows_version (ground arith)
        | inr k ↦ positional_config-Runnable sys v rest (ground arith)
      ]
    ]
