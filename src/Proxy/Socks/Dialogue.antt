-- ===== src/Proxy/Socks/Dialogue.antt =====
-- `dialUpstreamSOCKS` and `handleSOCKSConn` at the two ends of one connection: each reads what the
-- other writes.
use go_packet_repeater.Base.{
  ℕ, ◌≡◌, refl, sym, subst, ap, ◌∙◌, arith, Bool, true, false, some, [], ◌∷◌, ◌++◌, append-nil,
  Bytes, ◌==◌, if◌then◌else◌, is_empty, Result, ok, err, Bool-cases, ℤ,
}
use go_packet_repeater.HostPort.{split_host_port, join_host_port}
use go_packet_repeater.Config.{Mode, ForwardAuthConfig, no_auth}
use go_packet_repeater.Config.Addr.{atoi}
use go_packet_repeater.Proxy.Socks.{
  version5, auth_none, auth_no_acceptable, reply_succeeded, reply_general_fail, Conn, SocksError,
  connect_failed, bad_method, no_acceptable_method, write, to_uint16, itoa, Addresses,
}
use go_packet_repeater.Proxy.Socks.Server.{
  Dial, dial_of, Outcome, piped, no_dial, no_handshake, handle_conn,
}
use go_packet_repeater.Proxy.Socks.Client.{authenticate, connect_request, negotiate}
use go_packet_repeater.Proxy.Socks.Wire.{named}
use go_packet_repeater.Proxy.Socks.Interop.{
  reply_bytes, greeting, fresh, negotiate-reply_bytes, read_reply-reply_bytes, greet-chosen,
  handshake-greeting, handle_conn-connect_request,
}

module _ (net : Addresses) where
  -- What both ends come to, the server first, when the client writes these bytes: the server reads
  -- them, and the client reads what the server writes.
  unfoldable pub dialogue :
      (upstream : Bytes) (kind : Mode) (reaches : Dial → Bool) (auth : ForwardAuthConfig)
      (target said : Bytes)
      → (Outcome net × Conn) × (Result SocksError (Unit {0}) × Conn)
  dialogue upstream kind reaches auth target said =
      let server = handle_conn net upstream kind reaches (fresh said) in
      (server, negotiate net target auth (fresh (server.1).output))

  refused-negotiate :
      (auth : ForwardAuthConfig) (target req : Bytes)
      → auth.user ≡ []
      → connect_request net target ≡ ok req
      → (code : ℕ) → code == reply_succeeded ≡ false
      → negotiate net target auth (fresh ((version5 ∷ auth_none ∷ []) ++ reply_bytes code)) ≡ (
        err (connect_failed code),
        record (fresh (0 ∷ 0 ∷ 0 ∷ 0 ∷ 0 ∷ 0 ∷ [])) {
          output = greeting auth ++ req;
          closed = true;
        },
      )
  unfolding negotiate authenticate write
  refused-negotiate auth target req u e code z = ground (
    arith,
    greet-chosen auth (fresh []) auth_none (reply_bytes code) refl,
    read_reply-reply_bytes net code (record (fresh []) { output = greeting auth ++ req }) [],
  )

  user-negotiate :
      (auth : ForwardAuthConfig) (target : Bytes)
      → is_empty auth.user ≡ false
      → negotiate net target auth (fresh (version5 ∷ auth_no_acceptable ∷ [])) ≡ (
        err (bad_method auth_no_acceptable),
        record (fresh []) { output = greeting auth; closed = true },
      )
  unfolding negotiate
  user-negotiate auth target u =
      ground (arith, greet-chosen auth (fresh []) auth_no_acceptable [] refl)

  user-handle_conn :
      (upstream : Bytes) (kind : Mode) (reaches : Dial → Bool) (auth : ForwardAuthConfig)
      → is_empty auth.user ≡ false
      → handle_conn net upstream kind reaches (fresh (greeting auth ++ [])) ≡ (
        no_handshake no_acceptable_method,
        record (fresh []) { output = version5 ∷ auth_no_acceptable ∷ []; closed = true },
      )
  unfolding handle_conn
  user-handle_conn upstream kind reaches auth u = ground (arith, u, handshake-greeting auth [])

  -- What a client says to a gopr: its greeting, and its request if that is accepted.
  abbrev pub said_to_gopr : ForwardAuthConfig → Bytes → Bytes
  said_to_gopr auth req = greeting auth ++ (if is_empty auth.user then req else [])

  -- How the two ends, the server first, come out for a target that the server understands as `asked`.
  abbrev pub Agreed :
      Bool
      → Bool
      → Bytes
      → Bytes
      → (Outcome net × Conn) × (Result SocksError (Unit {0}) × Conn)
      → Type 0
  Agreed true true asked said ((out, s), (r, c)) =
      (out ≡ piped asked)
      × (r ≡ ok tt)
      × (c.output ≡ said)
      × (c.input ≡ [])
      × (c.closed ≡ false)
      × (s.closed ≡ true)
  Agreed true false asked said ((out, s), (r, c)) =
      (out ≡ no_dial asked)
      × (r ≡ err (connect_failed reply_general_fail))
      × (c.output ≡ said)
      × (c.closed ≡ true)
      × (s.closed ≡ true)
  Agreed false b asked said ((out, s), (r, c)) =
      (out ≡ no_handshake no_acceptable_method)
      × (r ≡ err (bad_method auth_no_acceptable))
      × (c.output ≡ said)
      × (c.closed ≡ true)
      × (s.closed ≡ true)

  -- How the server ends for a client with no user.
  abbrev answered : Bytes → Bool → Outcome net × Conn
  answered asked reached = (
    if reached then piped asked else no_dial asked,
    record (fresh []) {
      output =
          version5
          ∷ auth_none
          ∷ reply_bytes (if reached then reply_succeeded else reply_general_fail);
      closed = true;
    },
  )

  -- what the client makes of it
  abbrev heard :
      ForwardAuthConfig
      → Bytes
      → Outcome net × Conn
      → (Outcome net × Conn) × (Result SocksError (Unit {0}) × Conn)
  heard auth target server = (server, negotiate net target auth (fresh (server.1).output))

  answered-Agreed :
      (auth : ForwardAuthConfig) (target req asked : Bytes) (reached : Bool)
      → auth.user ≡ []
      → connect_request net target ≡ ok req
      → Agreed true reached asked
          (greeting auth ++ req)
          (heard auth target (answered asked reached))
  answered-Agreed auth target req asked true u e =
      rw (negotiate-reply_bytes net auth target req [] u e) (refl, refl, refl, refl, refl, refl)
  answered-Agreed auth target req asked false u e =
      rw (refused-negotiate auth target req u e reply_general_fail refl)
        (refl, refl, refl, refl, refl)

  -- When `dialUpstreamSOCKS` and `handleSOCKSConn` are at the two ends of one connection and no
  -- write fails, for a target with a host and a numeric port: what the client writes is what the
  -- server has read, and the two agree. With no user, the server dials the target, directly or
  -- through its upstream, and the client succeeds, its connection open and nothing of the answers
  -- left unread, if it is reached, and otherwise gets a general failure and closes its
  -- connection. With a user, the server refuses the greeting, and the client reports this and
  -- closes its connection. The server closes its end in all cases.
  pub dialogue-Agreed :
      (upstream : Bytes) (kind : Mode) (reaches : Dial → Bool) (auth : ForwardAuthConfig)
      (target host port_str : Bytes) (port : ℤ) (req : Bytes)
      → split_host_port target ≡ ok (host, port_str)
      → atoi port_str ≡ some port
      → connect_request net target ≡ ok req
      → let asked = join_host_port (named net (net.parse_ip host) host) (itoa (to_uint16 port)) in
        Agreed
          (is_empty auth.user)
          (reaches (dial_of upstream kind asked))
          asked
          (said_to_gopr auth req)
          (dialogue upstream kind reaches auth target (said_to_gopr auth req))
  unfolding dialogue
  dialogue-Agreed upstream kind reaches auth target host port_str port req s a e = by_user auth.user
    where
      asked : Bytes
      asked = join_host_port (named net (net.parse_ip host) host) (itoa (to_uint16 port))

      reached : Bool
      reached = reaches (dial_of upstream kind asked)

      with_user : Bytes → ForwardAuthConfig
      with_user user = record { user = user; pass = auth.pass }

      serves :
          handle_conn net upstream kind reaches (fresh (greeting no_auth ++ req))
          ≡ answered asked reached
      serves =
          ap (λ r. handle_conn net upstream kind reaches (fresh (greeting no_auth ++ r)))
            (sym (append-nil req))
          ∙ handle_conn-connect_request net upstream kind reaches target host port_str port req [] s
              a e
          ∙ ground (arith, Bool-cases reached)

      by_user :
          (user : Bytes)
          → Agreed (is_empty user) reached asked (said_to_gopr (with_user user) req) (
              dialogue upstream kind reaches
                (with_user user)
                target
                (said_to_gopr (with_user user) req))
      by_user [] =
          subst
            (λ x.
              Agreed true reached asked (greeting no_auth ++ req) (heard (with_user []) target x))
            (sym serves) (answered-Agreed (with_user []) target req asked reached refl e)
      by_user (x ∷ user) =
          let auth' = with_user (x ∷ user) in
          subst (λ y. Agreed false reached asked (greeting auth' ++ []) (heard auth' target y))
            (sym (user-handle_conn upstream kind reaches auth' refl))
            (rw (user-negotiate auth' target refl) (refl, refl, refl, refl, refl))
