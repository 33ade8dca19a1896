-- ===== src/Relay/Log.antt =====
-- What the handlers of internal/relay, `handleTCPConn` of tcp.go and `handleUDPDTLSConn` of udp.go,
-- log of a connection. `why` gives the texts of errors; the time that a connection took is left
-- out.
use go_packet_repeater.Base.{
  ◌≤◌, ◌≡◌, refl, sym, ap, ◌∙◌, Bool, Option, List, [], ◌∷◌, ◌++◌, append-nil, Bytes, codes,
  if◌then◌else◌, Result, ok, err,
}
use go_packet_repeater.System.{System}
use go_packet_repeater.Config.{Config}
use go_packet_repeater.Config.Parse.{parse}
use go_packet_repeater.Config.Parse.Accepted.{parse-Runnable}
use go_packet_repeater.Logx.{Logger, Line, text, print, warn, info, info_enabled, closing_lines}
use go_packet_repeater.Logx.Relaying.{Exchange, Piped, pipe_conn, Relays, pipe_conn-Relays}
use go_packet_repeater.Logx.Levels.{parse-log_level}
use go_packet_repeater.Logx.Tiers.{
  relayed_lines, failed_lines, logger, info-guarded, relayed_lines-append, failed_lines-of,
}
use go_packet_repeater.Tlsutil.Settings.{Crypto, ClientSettings}
use go_packet_repeater.Relay.Serve.{
  Side, plain, secure, RelayError, bad_settings, unresolved, unreached, handle_tcp_conn,
  handle_udp_dtls_conn,
}

abbrev labelled : Bytes → Bytes → Line
labelled label words = text (label ++ words)

module _ (why : RelayError → Bytes) (peer : Bytes) where
  -- `kind` is `tcp` or `udp+dtls`
  abbrev pub error_line : Bytes → RelayError → Line
  error_line kind (bad_settings e) =
      text (kind ++ (codes ": " ++ (peer ++ (codes ": " ++ why (bad_settings e)))))
  error_line kind (unresolved addr) = text (
      kind
      ++ (codes ": "
          ++ (peer
              ++ (codes ": resolve target " ++ (addr ++ (codes ": " ++ why (unresolved addr)))))))
  error_line kind (unreached addr) = text (
      kind
      ++ (codes ": "
          ++ (peer ++ (codes ": dial " ++ (addr ++ (codes ": " ++ why (unreached addr)))))))

  module _ (crypto : Crypto) (log : Option Logger) (cfg : Config) (t : Exchange) where
    -- with what `ConnectionState` gives of the handshake with the target
    handshake_lines : Bytes → Side (ClientSettings crypto) → List Line
    handshake_lines state (plain addr) = []
    handshake_lines state (secure addr settings) =
        if info_enabled log
        then info log
            (labelled (codes "tcp " ++ peer) (codes ": tls handshake with target: " ++ state))
        else []

    tcp_end : Bytes → Result RelayError (Side (ClientSettings crypto)) → List Line
    unfolding handshake_lines
    tcp_end state (err e) = print log (error_line (codes "tcp") e)
    tcp_end state (ok side) =
        let p = pipe_conn log (codes "tcp " ++ peer) t in
        info log (labelled (codes "tcp " ++ peer) (codes ": connected to " ++ cfg.target.addr))
        ++ (handshake_lines state side
            ++ (p.lines ++ closing_lines log (codes "tcp " ++ peer) p.sent p.recv))

    -- `handleTCPConn`
    unfoldable pub tcp_log : (Side (ClientSettings crypto) → Bool) → Bytes → List Line
    unfolding tcp_end
    tcp_log reaches state =
        warn log (labelled (codes "tcp " ++ peer) (codes ": accepted"))
        ++ tcp_end state (handle_tcp_conn crypto reaches cfg)

    udp_dtls_end : Result RelayError (Side (ClientSettings crypto)) → List Line
    udp_dtls_end (err e) = print log (error_line (codes "udp+dtls") e)
    udp_dtls_end (ok side) =
        let p = pipe_conn log (codes "udp+dtls " ++ peer) t in
        info log (labelled (codes "udp+dtls " ++ peer) (codes ": connected to " ++ cfg.target.addr))
        ++ (p.lines ++ closing_lines log (codes "udp+dtls " ++ peer) p.sent p.recv)

    -- `handleUDPDTLSConn`
    unfoldable pub udp_dtls_log : (Bytes → Bool) → (Side (ClientSettings crypto) → Bool) → List Line
    unfolding udp_dtls_end
    udp_dtls_log resolves reaches =
        warn log (labelled (codes "udp+dtls " ++ peer) (codes ": accepted"))
        ++ udp_dtls_end (handle_udp_dtls_conn crypto resolves reaches cfg)

  -- The details of a connection that is relayed.
  abbrev pub tcp_details :
      (crypto : Crypto) → Config → Bytes → Side (ClientSettings crypto) → List Line
  tcp_details crypto cfg state (plain addr) =
      labelled (codes "tcp " ++ peer) (codes ": connected to " ++ cfg.target.addr) ∷ []
  tcp_details crypto cfg state (secure addr settings) =
      labelled (codes "tcp " ++ peer) (codes ": connected to " ++ cfg.target.addr)
      ∷ labelled (codes "tcp " ++ peer) (codes ": tls handshake with target: " ++ state)
      ∷ []

  abbrev pub udp_dtls_details :
      (crypto : Crypto) → Config → Side (ClientSettings crypto) → List Line
  udp_dtls_details crypto cfg side =
      labelled (codes "udp+dtls " ++ peer) (codes ": connected to " ++ cfg.target.addr) ∷ []

  -- What is logged, at the level of a configuration, of a connection with this result, which has
  -- these details if it is relayed, with this exchange.
  abbrev pub Told :
      (crypto : Crypto)
      → Bytes
      → Config
      → Exchange
      → (Side (ClientSettings crypto) → List Line)
      → Result RelayError (Side (ClientSettings crypto))
      → List Line
      → Type 0
  Told crypto kind cfg t details (err e) lines =
      lines
      ≡ failed_lines cfg.log_level (labelled (kind ++ b' ' ∷ peer) (codes ": accepted"))
          (error_line kind e)
  Told crypto kind cfg t details (ok side) lines =
      (p : Piped) × Relays cfg.log_level cfg.verbose (kind ++ b' ' ∷ peer) t p
      × (lines
          ≡ relayed_lines cfg.log_level (kind ++ b' ' ∷ peer)
              (labelled (kind ++ b' ' ∷ peer) (codes ": accepted")) (details side) p.lines p.sent
              p.recv)

  tcp_end-Told :
      (crypto : Crypto) (cfg : Config) (t : Exchange) (state : Bytes)
      (r : Result RelayError (Side (ClientSettings crypto)))
      → cfg.log_level ≤ 3
      → Told crypto (codes "tcp") cfg t (tcp_details crypto cfg state) r (
          warn
            (logger cfg.log_level cfg.verbose)
            (labelled (codes "tcp " ++ peer) (codes ": accepted"))
          ++ tcp_end crypto (logger cfg.log_level cfg.verbose) cfg t state r)
  unfolding tcp_end handshake_lines
  tcp_end-Told crypto cfg t state (err e) h =
      failed_lines-of cfg.verbose (codes "tcp " ++ peer) _ cfg.log_level _ h
  tcp_end-Told crypto cfg t state (ok (plain addr)) h =
      let p = pipe_conn (logger cfg.log_level cfg.verbose) (codes "tcp " ++ peer) t in
      (
        p,
        pipe_conn-Relays cfg.log_level cfg.verbose (codes "tcp " ++ peer) t h,
        relayed_lines-append cfg.verbose (codes "tcp " ++ peer) _ cfg.log_level
            (tcp_details crypto cfg state (plain addr)) _ [] p.lines p.sent p.recv h refl,
      )
  tcp_end-Told crypto cfg t state (ok (secure addr settings)) h =
      let log = logger cfg.log_level cfg.verbose in
      let connected =
        labelled (codes "tcp " ++ peer) (codes ": connected to " ++ cfg.target.addr) in
      let p = pipe_conn log (codes "tcp " ++ peer) t in
      (
        p,
        pipe_conn-Relays cfg.log_level cfg.verbose (codes "tcp " ++ peer) t h,
        relayed_lines-append cfg.verbose (codes "tcp " ++ peer) _ cfg.log_level
            (tcp_details crypto cfg state (secure addr settings)) _ _ p.lines p.sent p.recv h
            (ap (λ xs. info log connected ++ xs)
              (info-guarded cfg.verbose cfg.log_level _ ∙ sym (append-nil _))),
      )

  udp_dtls_end-Told :
      (crypto : Crypto) (cfg : Config) (t : Exchange)
      (r : Result RelayError (Side (ClientSettings crypto)))
      → cfg.log_level ≤ 3
      → Told crypto (codes "udp+dtls") cfg t (udp_dtls_details crypto cfg) r (
          warn
            (logger cfg.log_level cfg.verbose)
            (labelled (codes "udp+dtls " ++ peer) (codes ": accepted"))
          ++ udp_dtls_end crypto (logger cfg.log_level cfg.verbose) cfg t r)
  unfolding udp_dtls_end
  udp_dtls_end-Told crypto cfg t (err e) h =
      failed_lines-of cfg.verbose (codes "udp+dtls " ++ peer) _ cfg.log_level _ h
  udp_dtls_end-Told crypto cfg t (ok side) h =
      let p = pipe_conn (logger cfg.log_level cfg.verbose) (codes "udp+dtls " ++ peer) t in
      (
        p,
        pipe_conn-Relays cfg.log_level cfg.verbose (codes "udp+dtls " ++ peer) t h,
        relayed_lines-append cfg.verbose (codes "udp+dtls " ++ peer) _ cfg.log_level
            (udp_dtls_details crypto cfg side) _ [] p.lines p.sent p.recv h refl,
      )

  -- For every configuration that `Parse` returns, the lines that `handleTCPConn` and
  -- `handleUDPDTLSConn` log of a connection are the following, by the number of -d. If the
  -- connection is relayed: the lines of the relaying alone; its begin and its end around them;
  -- and, from -dd on, its begin, the target that it is connected to, for TCP the TLS handshake
  -- with it if there is one, the lines of the relaying, and its end with the counts of bytes,
  -- which are those of io.Copy both ways. The lines of the relaying are those of the two calls of
  -- `Copy`, each in its order: only data lines with -v and chunk lines with -ddd, all with the
  -- label of the connection. If it is not relayed: its error, from -d on behind its begin.
  pub parse-Told :
      (sys : System) (args : List Bytes) (cfg : Config) (crypto : Crypto) (t : Exchange)
      (resolves : Bytes → Bool) (reaches : Side (ClientSettings crypto) → Bool) (state : Bytes)
      → parse sys args ≡ ok cfg
      → Told crypto
          (codes "tcp")
          cfg
          t
          (tcp_details crypto cfg state)
          (handle_tcp_conn crypto reaches cfg)
          (tcp_log crypto (logger cfg.log_level cfg.verbose) cfg t reaches state)
        × Told crypto
            (codes "udp+dtls")
            cfg
            t
            (udp_dtls_details crypto cfg)
            (handle_udp_dtls_conn crypto resolves reaches cfg)
            (udp_dtls_log crypto (logger cfg.log_level cfg.verbose) cfg t resolves reaches)
  unfolding tcp_log udp_dtls_log
  parse-Told sys args cfg crypto t resolves reaches state e =
      let h = parse-log_level cfg (parse-Runnable sys args e) in
      (
        tcp_end-Told crypto cfg t state (handle_tcp_conn crypto reaches cfg) h,
        udp_dtls_end-Told crypto cfg t (handle_udp_dtls_conn crypto resolves reaches cfg) h,
      )
