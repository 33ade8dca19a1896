-- ===== src/Relay/Serve.antt =====
-- `serveTCP` and `handleTCPConn` of internal/relay/tcp.go, `serveUDPDTLS` and `handleUDPDTLSConn` of
-- internal/relay/udp.go: how a relay listens and dials, and the accept loop, which `RunSOCKS` of
-- internal/proxy/socks.go has too. Connections are numbered as they come in.
use go_packet_repeater.Base.{
  ℕ, ◌≡◌, ◌↔◌, refl, ◌∙◌, subst, ap, arith, Bool, true, false, not, List, [], ◌∷◌, ◌++◌, map, Bytes,
  if◌then◌else◌, Result, ok, fail_if, ◌>>=◌, ◌>>◌, map_err,
}
use go_packet_repeater.Config.{Config}
use go_packet_repeater.Tlsutil.Settings.{Crypto, TlsError, ServerSettings, ClientSettings}
use go_packet_repeater.Relay.Settings.{
  client_tls_config, client_dtls_config, client_dtls_config-client_tls_config, server_tls_config,
  server_dtls_config,
}

-- What `ln.Accept` gives: a connection, or an error, with whether the context is cancelled by then.
pub data Accept : Type 0 where
  accepted : ℕ → Accept
  failed : Bool → Bytes → Accept

-- How an accept loop stands; `stopped` for the result nil.
pub data Ending : Type 0 where
  accepting stopped : Ending
  gave_up : Bytes → Ending

-- The loop, with the connections that it starts a handler for.
unfoldable pub accept_all : List Accept → List ℕ × Ending
accept_all [] = ([], accepting)
accept_all (accepted c ∷ more) = let (cs, end) = accept_all more in (c ∷ cs, end)
accept_all (failed true e ∷ more) = ([], stopped)
accept_all (failed false e ∷ more) = ([], gave_up e)

-- What is listened on, or dialed: an address, with settings for TLS or DTLS.
pub data Side (S : Type 0) : Type 0 where
  plain : Bytes → Side S
  secure : Bytes → S → Side S

pub data RelayError : Type 0 where
  bad_settings : TlsError → RelayError
  unresolved unreached : Bytes → RelayError

-- `RunSOCKS`; `listens` says whether it can listen on the address
unfoldable pub run_socks :
    (Bytes → Bool) → List Accept → Config → Result RelayError (List ℕ × Ending)
run_socks listens accepts cfg = do
  fail_if (not (listens cfg.listen.addr)) (unreached cfg.listen.addr)
  ok (accept_all accepts)

module _ (crypto : Crypto) where
  -- What `serveTCP` listens on.
  unfoldable pub tcp_listener : Config → Result TlsError (Side (ServerSettings crypto))
  tcp_listener cfg =
      if cfg.listen.ssl
      then (do settings ← server_tls_config crypto cfg; ok (secure cfg.listen.addr settings))
      else ok (plain cfg.listen.addr)

  -- `serveTCP`; `listens` says whether it can listen
  unfoldable pub serve_tcp :
      (Side (ServerSettings crypto) → Bool)
      → List Accept
      → Config
      → Result RelayError (List ℕ × Ending)
  unfolding tcp_listener
  serve_tcp listens accepts cfg = do
    side ← map_err bad_settings (tcp_listener cfg)
    fail_if (not (listens side)) (unreached cfg.listen.addr)
    ok (accept_all accepts)

  -- What `handleTCPConn` dials.
  unfoldable pub tcp_target : Config → Result TlsError (Side (ClientSettings crypto))
  tcp_target cfg =
      if cfg.target.ssl
      then (do settings ← client_tls_config crypto cfg; ok (secure cfg.target.addr settings))
      else ok (plain cfg.target.addr)

  -- `handleTCPConn` up to the relaying; its `defer`s close both connections
  unfoldable pub handle_tcp_conn :
      (Side (ClientSettings crypto) → Bool)
      → Config
      → Result RelayError (Side (ClientSettings crypto))
  unfolding tcp_target
  handle_tcp_conn reaches cfg = do
    side ← map_err bad_settings (tcp_target cfg)
    fail_if (not (reaches side)) (unreached cfg.target.addr)
    ok side

  -- `serveUDPDTLS`; `resolves` is what `net.ResolveUDPAddr` accepts
  unfoldable pub serve_udp_dtls :
      (Bytes → Bool)
      → (Side (ServerSettings crypto) → Bool)
      → List Accept
      → Config
      → Result RelayError (List ℕ × Ending)
  serve_udp_dtls resolves listens accepts cfg = do
    settings ← map_err bad_settings (server_dtls_config crypto cfg)
    fail_if (not (resolves cfg.listen.addr)) (unresolved cfg.listen.addr)
    fail_if (not (listens (secure cfg.listen.addr settings))) (unreached cfg.listen.addr)
    ok (accept_all accepts)

  -- What `handleUDPDTLSConn` dials.
  unfoldable pub dtls_target :
      (Bytes → Bool) → Config → Result RelayError (Side (ClientSettings crypto))
  dtls_target resolves cfg =
      if cfg.target.ssl
      then (do
        settings ← map_err bad_settings (client_dtls_config crypto cfg)
        fail_if (not (resolves cfg.target.addr)) (unresolved cfg.target.addr)
        ok (secure cfg.target.addr settings))
      else ok (plain cfg.target.addr)

  -- `handleUDPDTLSConn` up to the relaying; its `defer`s close both connections
  unfoldable pub handle_udp_dtls_conn :
      (Bytes → Bool)
      → (Side (ClientSettings crypto) → Bool)
      → Config
      → Result RelayError (Side (ClientSettings crypto))
  unfolding dtls_target
  handle_udp_dtls_conn resolves reaches cfg = do
    side ← dtls_target resolves cfg
    fail_if (not (reaches side)) (unreached cfg.target.addr)
    ok side

  -- The two handlers dial the same.
  pub handle_udp_dtls_conn-handle_tcp_conn :
      (reaches : Side (ClientSettings crypto) → Bool) (cfg : Config)
      → handle_udp_dtls_conn (λ addr. true) reaches cfg ≡ handle_tcp_conn reaches cfg
  unfolding handle_udp_dtls_conn handle_tcp_conn
  handle_udp_dtls_conn-handle_tcp_conn reaches cfg =
      ground (arith, client_dtls_config-client_tls_config crypto cfg)

abbrev StopsAt : List Accept → List ℕ → Type 0
StopsAt accepts cs =
    (e : Bytes) × (rest : List Accept) × (accepts ≡ map accepted cs ++ failed true e ∷ rest)

accept_all-StopsAt :
    (accepts : List Accept)
    → (accept_all accepts).1 ≡ stopped
    → StopsAt accepts (accept_all accepts).0
unfolding accept_all
accept_all-StopsAt [] h = cc
accept_all-StopsAt (failed true e ∷ rest) h = (e, rest, refl)
accept_all-StopsAt (failed false e ∷ rest) h = cc
accept_all-StopsAt (accepted c ∷ accepts) h =
    let (e, rest, q) = accept_all-StopsAt accepts h in (e, rest, ap (λ x. accepted c ∷ x) q)

accept_all-map :
    (cs : List ℕ) (e : Bytes) (rest : List Accept)
    → accept_all (map accepted cs ++ failed true e ∷ rest) ≡ (cs, stopped)
unfolding accept_all
accept_all-map [] e rest = refl
accept_all-map (c ∷ cs) e rest = ap (λ r. (c ∷ r.0, r.1)) (accept_all-map cs e rest)

-- An accept loop returns nil exactly where an accept fails under a cancelled context, and has then
-- handed out every connection that came before.
pub accept_all-stopped :
    (accepts : List Accept) (cs : List ℕ)
    → (accept_all accepts ≡ (cs, stopped))
      ↔ ((e : Bytes) × (rest : List Accept) × (accepts ≡ map accepted cs ++ failed true e ∷ rest))
accept_all-stopped accepts cs = (
  λ h. subst (StopsAt accepts) (ap (λ r. r.0) h) (accept_all-StopsAt accepts (ap (λ r. r.1) h)),
  λ (e, rest, q). ap accept_all q ∙ accept_all-map cs e rest,
)
