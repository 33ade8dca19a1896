-- ===== src/Proxy/Socks/Server.antt =====
-- The server's side: `socksHandshake`, `socksReadRequest`, `socksWriteReply`, `handleSOCKSConn`.
use go_packet_repeater.Base.{
  ℕ, Bool, true, false, not, [], ◌∷◌, Bytes, ◌==◌, if◌then◌else◌, contains, is_empty, Result, ok,
  err,
}
use go_packet_repeater.HostPort.{join_host_port}
use go_packet_repeater.Config.{Mode, http_proxy}
use go_packet_repeater.Proxy.Socks.{
  version5, auth_none, auth_no_acceptable, cmd_connect, atyp_ipv4, atyp_domain, atyp_ipv6,
  reply_succeeded, reply_general_fail, reply_cmd_not_support, reply_atyp_not_supp, Conn, SocksError,
  no_acceptable_method, bad_version, bad_command, bad_address_type, Session, ◌>>=◌, ◌>>◌, return,
  throw, throw_if, read_full, write, ignore, byte_at, uint16, itoa, Addresses,
}

choose_method : Bool → Session (Unit {0})
choose_method true = write (version5 ∷ auth_none ∷ [])
choose_method false = do
  ignore (write (version5 ∷ auth_no_acceptable ∷ []))
  throw no_acceptable_method

unfoldable pub handshake : Session (Unit {0})
unfolding choose_method
handshake = do
  hdr ← read_full 2
  throw_if (not (byte_at hdr 0 == version5)) (bad_version (byte_at hdr 0))
  methods ← read_full (byte_at hdr 1)
  choose_method (contains auth_none methods)

unfoldable pub write_reply : ℕ → Session (Unit {0})
write_reply code = write (version5 ∷ code ∷ 0 ∷ atyp_ipv4 ∷ 0 ∷ 0 ∷ 0 ∷ 0 ∷ 0 ∷ 0 ∷ [])

refuse_command : Bool → ℕ → Session (Unit {0})
refuse_command true cmd = return tt
refuse_command false cmd = do ignore (write_reply reply_cmd_not_support); throw (bad_command cmd)

-- How the target is dialed: directly, or by `dialUpstreamConnect` or `dialUpstreamSOCKS`.
pub data Dial : Type 0 where
  direct : Bytes → Dial
  by_connect by_socks : (upstream target : Bytes) → Dial

-- the switch in front of the dial
unfoldable pub dial_of : Bytes → Mode → Bytes → Dial
dial_of upstream kind target =
    if is_empty upstream
    then direct target
    else elim kind [ http_proxy ↦ by_connect upstream target | _ ↦ by_socks upstream target ]

module _ (net : Addresses) where
  unfoldable pub read_ip : ℕ → Session Bytes
  read_ip n = do b ← read_full n; return (net.ip_string b)

  unfoldable pub read_domain : Session Bytes
  read_domain = do len ← read_full 1; read_full (byte_at len 0)

  unknown_type : ℕ → Session Bytes
  unknown_type atyp = do ignore (write_reply reply_atyp_not_supp); throw (bad_address_type atyp)

  unfoldable pub read_host : ℕ → Session Bytes
  unfolding read_ip read_domain unknown_type
  read_host atyp =
      if atyp == atyp_ipv4
      then read_ip 4
      else if atyp == atyp_ipv6
      then read_ip 16
      else if atyp == atyp_domain
      then read_domain
      else unknown_type atyp

  unfoldable pub read_request : Session Bytes
  unfolding refuse_command read_host
  read_request = do
    hdr ← read_full 4
    throw_if (not (byte_at hdr 0 == version5)) (bad_version (byte_at hdr 0))
    refuse_command (byte_at hdr 1 == cmd_connect) (byte_at hdr 1)
    host ← read_host (byte_at hdr 3)
    port ← read_full 2
    return (join_host_port host (itoa (uint16 port)))

  -- How the handler of one accepted connection ends.
  pub data Outcome : Type 0 where
    no_handshake no_request : SocksError → Outcome
    no_dial no_reply piped : Bytes → Outcome

  -- `dials` says whether the target, or the upstream for it, is reached.
  finish : (Bytes → Bool) → Result SocksError Bytes × Conn → Outcome × Conn
  finish dials (err e, c) = (no_request e, c)
  finish dials (ok target, c) = elim (dials target) [
    | false ↦ (no_dial target, (write_reply reply_general_fail c).1)
    | true ↦ reply (write_reply reply_succeeded c)
  ]
    where
      reply : Result SocksError (Unit {0}) × Conn → Outcome × Conn
      reply (ok _, c') = (piped target, c')
      reply (err e, c') = (no_reply target, c')

  after_handshake : (Bytes → Bool) → Result SocksError (Unit {0}) × Conn → Outcome × Conn
  unfolding finish
  after_handshake dials (err e, c) = (no_handshake e, c)
  after_handshake dials (ok _, c) = finish dials (read_request c)

  -- `handleSOCKSConn` up to the relaying, with what its dials reach; `defer conn.Close()` closes on
  -- every way out.
  unfoldable pub handle_conn : Bytes → Mode → (Dial → Bool) → Conn → Outcome × Conn
  unfolding after_handshake
  handle_conn upstream kind reaches c =
      let (out, c') =
        after_handshake (λ target. reaches (dial_of upstream kind target)) (handshake c) in
      (out, record c' { closed = true })
