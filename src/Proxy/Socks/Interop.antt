-- ===== src/Proxy/Socks/Interop.antt =====
-- A SOCKS5 session of gopr's client with gopr's server, in both directions.
use go_packet_repeater.Base.{
  ℕ, ◌≡◌, refl, arith, Bool, true, false, some, [], ◌∷◌, ◌++◌, Bytes, ◌==◌, if◌then◌else◌, is_empty,
  ok, err, contains, ℤ,
}
use go_packet_repeater.HostPort.{split_host_port, join_host_port}
use go_packet_repeater.Config.{Mode, ForwardAuthConfig, no_auth}
use go_packet_repeater.Config.Addr.{atoi}
use go_packet_repeater.Proxy.Socks.{
  version5, auth_none, auth_no_acceptable, atyp_ipv4, reply_succeeded, reply_general_fail, Conn,
  connect_failed, bad_method, no_acceptable_method, write, to_uint16, itoa, Addresses,
}
use go_packet_repeater.Proxy.Socks.Server.{
  Dial, dial_of, piped, no_dial, handshake, write_reply, handle_conn,
}
use go_packet_repeater.Proxy.Socks.Client.{
  want_method, greet, authenticate, connect_request, read_reply, negotiate,
}
use go_packet_repeater.Proxy.Socks.Wire.{
  with_input, read_full-append, named, read_request-connect_request,
}

-- What `socksWriteReply` writes.
abbrev pub reply_bytes : ℕ → Bytes
reply_bytes code = version5 ∷ code ∷ 0 ∷ atyp_ipv4 ∷ 0 ∷ 0 ∷ 0 ∷ 0 ∷ 0 ∷ 0 ∷ []

-- What `dialUpstreamSOCKS` greets the server with.
abbrev pub greeting : ForwardAuthConfig → Bytes
greeting auth = version5 ∷ 1 ∷ want_method auth ∷ []

-- A connection with this input, nothing written yet, on which no write fails.
abbrev pub fresh : Bytes → Conn
fresh bs = record { input = bs; output = []; faults = []; closed = false }

module _ (net : Addresses) where
  -- The client takes the server's reply for what it is, and reads nothing behind it.
  pub read_reply-reply_bytes :
      (code : ℕ) (c : Conn) (rest : Bytes)
      → read_reply net (with_input c (reply_bytes code ++ rest)) ≡ (
          if code == reply_succeeded then (ok tt, with_input c rest) else (
            err (connect_failed code),
            record c { input = 0 ∷ 0 ∷ 0 ∷ 0 ∷ 0 ∷ 0 ∷ rest; closed = true },
          ))
  unfolding read_reply
  read_reply-reply_bytes code c rest = ground (
    arith,
    read_full-append c (version5 ∷ code ∷ 0 ∷ atyp_ipv4 ∷ []) (0 ∷ 0 ∷ 0 ∷ 0 ∷ 0 ∷ 0 ∷ rest),
    read_full-append c (0 ∷ 0 ∷ 0 ∷ 0 ∷ 0 ∷ 0 ∷ []) rest,
  )

pub greet-chosen :
    (auth : ForwardAuthConfig) (c : Conn) (chosen : ℕ) (rest : Bytes)
    → c.faults ≡ []
    → greet auth (with_input c (version5 ∷ chosen ∷ rest)) ≡ (
        if chosen == want_method auth
        then (ok tt, record c { input = rest; output = c.output ++ greeting auth })
        else (
          err (bad_method chosen),
          record c { input = rest; output = c.output ++ greeting auth; closed = true },
        ))
unfolding greet write
greet-chosen auth c chosen rest f = ground (
  arith,
  read_full-append (record c { output = c.output ++ greeting auth }) (version5 ∷ chosen ∷ []) rest,
)

-- The server accepts the greeting of a client with no user, and refuses that of any other.
pub handshake-greeting :
    (auth : ForwardAuthConfig) (rest : Bytes)
    → handshake (fresh (greeting auth ++ rest)) ≡ (
        if is_empty auth.user
        then (ok tt, record (fresh rest) { output = version5 ∷ auth_none ∷ [] })
        else (
          err no_acceptable_method,
          record (fresh rest) { output = version5 ∷ auth_no_acceptable ∷ [] },
        ))
unfolding handshake write contains
handshake-greeting auth rest = ground (
  arith,
  read_full-append (fresh []) (version5 ∷ 1 ∷ []) (want_method auth ∷ rest),
  read_full-append (fresh []) (want_method auth ∷ []) rest,
)

module _ (net : Addresses) where
  -- A connection on which gopr's client writes its greeting with no user, a CONNECT request and
  -- more bytes, and on which no write fails, ends in `handleSOCKSConn` as follows: the target
  -- that was asked for is dialed, directly or through the upstream by the kind of the upstream;
  -- if it is reached, the reply says so and the bytes behind the request stay for the relay, and
  -- otherwise the reply is a general failure; the connection is closed at the end.
  pub handle_conn-connect_request :
      (upstream : Bytes) (kind : Mode) (reaches : Dial → Bool) (target host port_str : Bytes)
      (port : ℤ) (req stream : Bytes)
      → split_host_port target ≡ ok (host, port_str)
      → atoi port_str ≡ some port
      → connect_request net target ≡ ok req
      → let asked = join_host_port (named net (net.parse_ip host) host) (itoa (to_uint16 port)) in
        handle_conn net upstream kind reaches (fresh (greeting no_auth ++ (req ++ stream))) ≡ (
          if reaches (dial_of upstream kind asked)
          then (
            piped asked,
            record {
              input = stream;
              output = (version5 ∷ auth_none ∷ []) ++ reply_bytes reply_succeeded;
              faults = [];
              closed = true;
            },
          )
          else (
            no_dial asked,
            record {
              input = stream;
              output = (version5 ∷ auth_none ∷ []) ++ reply_bytes reply_general_fail;
              faults = [];
              closed = true;
            },
          ))
  unfolding handle_conn write_reply write
  handle_conn-connect_request upstream kind reaches target host port_str port req stream s a e =
      ground (
        arith,
        handshake-greeting no_auth (req ++ stream),
        read_request-connect_request net target host port_str port req stream
            (record (fresh []) { output = version5 ∷ auth_none ∷ [] }) s a e,
      )

  -- With no user, `dialUpstreamSOCKS` reads the answers that gopr's own server writes for a
  -- target that is reached, succeeds, has written its greeting and its request and nothing else,
  -- and leaves the stream behind the reply unread.
  pub negotiate-reply_bytes :
      (auth : ForwardAuthConfig) (target req stream : Bytes)
      → auth.user ≡ []
      → connect_request net target ≡ ok req
      → negotiate net target auth
          (fresh (version5 ∷ auth_none ∷ (reply_bytes reply_succeeded ++ stream)))
        ≡ (ok tt, record (fresh stream) { output = greeting auth ++ req })
  unfolding negotiate authenticate write
  negotiate-reply_bytes auth target req stream u e = ground (
    arith,
    greet-chosen auth (fresh []) auth_none (reply_bytes reply_succeeded ++ stream) refl,
    read_reply-reply_bytes net reply_succeeded (record (fresh []) { output = greeting auth ++ req })
        stream,
  )
