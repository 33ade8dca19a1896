-- ===== src/Proxy/Log.antt =====
-- What the handlers of internal/proxy, `handleSOCKSConn` of socks.go, `handleConnect` and
-- `handleForward` of http.go, log of a connection or a request. The texts of errors are given, and
-- the time that a connection took is left out.
use go_packet_repeater.Base.{
  ℕ, zero, suc, ◌≤◌, ◌≡◌, refl, arith, Bool, Option, List, [], ◌∷◌, ◌++◌, Bytes, codes,
  if◌then◌else◌, ◌==◌,
}
use go_packet_repeater.Logx.{Logger, Line, text, print, warn, info, new, clamp, closing_lines}
use go_packet_repeater.Logx.Relaying.{Exchange, Piped, pipe_conn, Relays, pipe_conn-Relays}
use go_packet_repeater.Logx.Tiers.{
  relayed_lines, failed_lines, logger, relayed_lines-append, failed_lines-of,
}
use go_packet_repeater.Proxy.Socks.{SocksError, Addresses}
use go_packet_repeater.Proxy.Socks.Server.{
  Outcome, no_handshake, no_request, no_dial, no_reply, piped,
}
use go_packet_repeater.Proxy.Http.{Request, Forwarded, not_absolute, bad_gateway, answered}
use go_packet_repeater.Proxy.Http.Tunnel.{Connected, refused, unanswered, tunnelled}

-- `fmt` of two texts with `": "` between them
abbrev pub colon : Bytes → Bytes → Bytes
colon a b = a ++ (codes ": " ++ b)

-- A connection of which a handler logs its begin and nothing else.
abbrev pub begun_lines : ℕ → Line → List Line
begun_lines zero opened = []
begun_lines (suc level) opened = opened ∷ []

begun_lines-of :
    (verbose : Bool) (opened : Line) (level : ℕ)
    → warn (logger level verbose) opened ++ [] ≡ begun_lines level opened
unfolding warn new clamp
begun_lines-of verbose opened zero = refl
begun_lines-of verbose opened (suc level) = ground arith

module _ (net : Addresses) (why : SocksError → Bytes) (not_dialed peer : Bytes) where
  abbrev pub socks_label : Bytes
  socks_label = codes "socks " ++ peer

  abbrev pub socks_opened : Line
  socks_opened = text (colon socks_label (codes "accepted"))

  abbrev pub socks_error : Bytes → Line
  socks_error words = text (colon (codes "socks") (colon peer words))

  module _ (log : Option Logger) (t : Exchange) where
    socks_end : Outcome net → List Line
    socks_end (no_handshake e) = print log (socks_error (colon (codes "handshake") (why e)))
    socks_end (no_request e) = print log (socks_error (colon (codes "request") (why e)))
    socks_end (no_dial target) =
        print log (socks_error (colon (codes "dial " ++ target) not_dialed))
    socks_end (no_reply target) = []
    socks_end (piped target) =
        let p = pipe_conn log socks_label t in
        info log (text (colon socks_label (codes "connected to " ++ target)))
        ++ (p.lines ++ closing_lines log socks_label p.sent p.recv)

    -- `handleSOCKSConn`, by its outcome
    unfoldable pub socks_log : Outcome net → List Line
    unfolding socks_end
    socks_log outcome = warn log socks_opened ++ socks_end outcome

  -- At a level, by the outcome: a connection that could not be answered leaves no error.
  abbrev pub SocksTold : ℕ → Bool → Exchange → Outcome net → List Line → Type 0
  SocksTold level verbose t (no_handshake e) lines =
      lines ≡ failed_lines level socks_opened (socks_error (colon (codes "handshake") (why e)))
  SocksTold level verbose t (no_request e) lines =
      lines ≡ failed_lines level socks_opened (socks_error (colon (codes "request") (why e)))
  SocksTold level verbose t (no_dial target) lines =
      lines
      ≡ failed_lines level socks_opened (socks_error (colon (codes "dial " ++ target) not_dialed))
  SocksTold level verbose t (no_reply target) lines = lines ≡ begun_lines level socks_opened
  SocksTold level verbose t (piped target) lines =
      (p : Piped) × Relays level verbose socks_label t p
      × (lines
          ≡ relayed_lines level socks_label socks_opened
              (text (colon socks_label (codes "connected to " ++ target)) ∷ []) p.lines p.sent
              p.recv)

  pub socks_log-SocksTold :
      (level : ℕ) (verbose : Bool) (t : Exchange) (outcome : Outcome net)
      → level ≤ 3
      → SocksTold level verbose t outcome (socks_log (logger level verbose) t outcome)
  unfolding socks_log
  socks_log-SocksTold level verbose t (no_handshake e) h =
      failed_lines-of verbose socks_label socks_opened level _ h
  socks_log-SocksTold level verbose t (no_request e) h =
      failed_lines-of verbose socks_label socks_opened level _ h
  socks_log-SocksTold level verbose t (no_dial target) h =
      failed_lines-of verbose socks_label socks_opened level _ h
  socks_log-SocksTold level verbose t (no_reply target) h =
      begun_lines-of verbose socks_opened level
  socks_log-SocksTold level verbose t (piped target) h =
      let p = pipe_conn (logger level verbose) socks_label t in
      (
        p,
        pipe_conn-Relays level verbose socks_label t h,
        relayed_lines-append verbose socks_label socks_opened level _ _ [] p.lines p.sent p.recv h
            refl,
      )

module _ (not_dialed peer : Bytes) where
  abbrev pub connect_label : Bytes → Bytes
  connect_label host = codes "http-connect " ++ host

  module _ (log : Option Logger) (t : Exchange) where
    -- only a failed dial, which is answered with 502, is logged as an error
    connect_end : Bytes → Connected → List Line
    connect_end host (refused status) =
        if status == 502
        then print log
            (text (colon (codes "http-connect") (colon host (colon (codes "dial") not_dialed))))
        else []
    connect_end host (unanswered dial) = []
    connect_end host (tunnelled dial) =
        let p = pipe_conn log (connect_label host) t in
        info log (text (colon (connect_label host) (codes "connected to " ++ host)))
        ++ (p.lines ++ closing_lines log (connect_label host) p.sent p.recv)

    -- `handleConnect`, by how it went on
    unfoldable pub connect_log : Bytes → Connected → List Line
    unfolding connect_end
    connect_log host c =
        warn log (text (colon (connect_label host) (codes "request from " ++ peer)))
        ++ connect_end host c

  -- `handleForward`, by what the client is answered; `status_text` is the status of the response
  unfoldable pub forward_log : Option Logger → Bytes → Request → Forwarded → List Line
  forward_log log status_text r not_absolute = []
  forward_log log status_text r (bad_gateway out e) =
      let label = codes "http " ++ (r.method ++ b' ' ∷ r.url) in
      warn log (text (colon label (codes "request from " ++ peer)))
      ++ print log (text (colon (codes "http") (colon label e)))
  forward_log log status_text r (answered out status header copied) =
      let label = codes "http " ++ (r.method ++ b' ' ∷ r.url) in
      warn log (text (colon label (codes "request from " ++ peer)))
      ++ (info log (text (colon label status_text)) ++ copied.1)
