-- ===== src/Proxy/Socks/Client.antt =====
-- The client's side: `dialUpstreamSOCKS`.
pub mod Closing
pub mod Written
pub mod Bounds
use go_packet_repeater.Base.{
  ℕ, ◌+◌, Bool, true, false, not, ◌||◌, Option, none, some, List, [], ◌∷◌, ◌++◌, Bytes, ltb, ◌==◌,
  if◌then◌else◌, is_empty, length, Result, ok, err,
}
use go_packet_repeater.HostPort.{split_host_port}
use go_packet_repeater.Config.{ForwardAuthConfig}
use go_packet_repeater.Config.Addr.{atoi}
use go_packet_repeater.Proxy.Socks.{
  version5, auth_none, auth_user_pass, user_pass_version, user_pass_success, cmd_connect, atyp_ipv4,
  atyp_domain, atyp_ipv6, reply_succeeded, Conn, SocksError, name_too_long, auth_too_long,
  bad_version, bad_address_type, bad_method, auth_failed, connect_failed, dial_failed,
  bad_target_port, bad_target, Session, ◌>>=◌, ◌>>◌, return, throw, throw_if, read_full, write,
  byte_at, put_uint16, to_uint16, Ip, v4, v6, Addresses,
}

-- a call behind whose error the source calls `conn.Close()`
pub close_failed : {A : Type 0} → Result SocksError A × Conn → Result SocksError A × Conn
close_failed (ok a, c) = (ok a, c)
close_failed (err e, c) = (err e, record c { closed = true })

pub closing : {A : Type 0} → Session A → Session A
unfolding close_failed
closing m c = close_failed (m c)

-- `wantMethod`
abbrev pub want_method : ForwardAuthConfig → ℕ
want_method auth = if is_empty auth.user then auth_none else auth_user_pass

unfoldable pub greet : ForwardAuthConfig → Session (Unit {0})
unfolding closing
greet auth = do
  closing (write (version5 ∷ 1 ∷ want_method auth ∷ []))
  resp ← closing (read_full 2)
  closing (
      throw_if (not (byte_at resp 0 == version5) || not (byte_at resp 1 == want_method auth))
        (bad_method (byte_at resp 1)))

-- the username/password message of RFC 1929
unfoldable pub user_pass : ForwardAuthConfig → Bytes
user_pass auth = user_pass_version ∷ length auth.user ∷ (auth.user ++ length auth.pass ∷ auth.pass)

send_user_pass : ForwardAuthConfig → Session (Unit {0})
unfolding user_pass closing
send_user_pass auth = do
  closing (throw_if (ltb 255 (length auth.user) || ltb 255 (length auth.pass)) auth_too_long)
  closing (write (user_pass auth))
  resp ← closing (read_full 2)
  closing (throw_if (not (byte_at resp 1 == user_pass_success)) (auth_failed (byte_at resp 1)))

-- `if wantMethod == socksAuthUserPass { … }`
unfoldable pub authenticate : ForwardAuthConfig → Session (Unit {0})
unfolding send_user_pass
authenticate auth = if is_empty auth.user then return tt else send_user_pass auth

module _ (net : Addresses) where
  -- the address of the CONNECT request, by the kind of the host
  unfoldable pub address_of : Option Ip → Bytes → Result SocksError Bytes
  address_of (some (v4 b)) host = ok (atyp_ipv4 ∷ b)
  address_of (some (v6 b)) host = ok (atyp_ipv6 ∷ b)
  address_of none host =
      if ltb 255 (length host) then err name_too_long else ok (atyp_domain ∷ length host ∷ host)

  -- the CONNECT request for a target
  unfoldable pub request_to : Bytes → Bytes → Result SocksError Bytes
  request_to host port_str = elim (atoi port_str) [
    | none ↦ err (bad_target_port port_str)
    | some port ↦ elim (address_of (net.parse_ip host) host) [
      | err e ↦ err e
      | ok addr ↦ ok (version5 ∷ cmd_connect ∷ 0 ∷ (addr ++ put_uint16 (to_uint16 port)))
    ]
  ]

  unfoldable pub connect_request : Bytes → Result SocksError Bytes
  connect_request target = elim (split_host_port target) [
    | err e ↦ err (bad_target e)
    | ok (host, port_str) ↦ request_to host port_str
  ]

  lift_result : {A : Type 0} → Result SocksError A → Session A
  lift_result r c = (r, c)

  -- the length of BND.ADDR
  bound_length : ℕ → Session ℕ
  unfolding closing
  bound_length atyp =
      if atyp == atyp_ipv4
      then return 4
      else if atyp == atyp_ipv6
      then return 16
      else if atyp == atyp_domain
      then (do len ← closing (read_full 1); return (byte_at len 0))
      else closing (throw (bad_address_type atyp))

  -- the reply, its bound address read and dropped
  unfoldable pub read_reply : Session (Unit {0})
  unfolding bound_length closing
  read_reply = do
    hdr ← closing (read_full 4)
    closing (throw_if (not (byte_at hdr 0 == version5)) (bad_version (byte_at hdr 0)))
    closing (throw_if (not (byte_at hdr 1 == reply_succeeded)) (connect_failed (byte_at hdr 1)))
    n ← bound_length (byte_at hdr 3)
    _ ← closing (read_full (n + 2))
    return tt

  unfoldable pub negotiate : Bytes → ForwardAuthConfig → Session (Unit {0})
  unfolding lift_result closing
  negotiate target auth = do
    greet auth
    authenticate auth
    req ← closing (lift_result (connect_request target))
    closing (write req)
    read_reply

  -- The `Option` is what `net.DialTimeout` gives for the upstream.
  unfoldable pub dial_upstream_socks :
      Option Conn → Bytes → Bytes → ForwardAuthConfig → Result SocksError (Unit {0}) × Option Conn
  dial_upstream_socks none upstream target auth = (err (dial_failed upstream), none)
  dial_upstream_socks (some c) upstream target auth =
      let (r, c') = negotiate target auth c in (r, some c')
