-- ===== src/Proxy/Socks/Wire.antt =====
-- What one end writes, the other end reads.
use go_packet_repeater.Base.{
  ℕ, ◌<◌, ◌≡◌, refl, ap, arith, Option, none, some, [], ◌∷◌, ◌++◌, append_assoc, Bytes, length,
  take, drop, length-append, ok, inl, inr, Result-cases, ℤ,
}
use go_packet_repeater.HostPort.{split_host_port, join_host_port}
use go_packet_repeater.Config.Addr.{atoi}
use go_packet_repeater.Proxy.Socks.{
  version5, cmd_connect, atyp_ipv4, atyp_ipv6, atyp_domain, Conn, read_full, put_uint16, uint16,
  to_uint16, itoa, Ip, v4, v6, Addresses,
}
use go_packet_repeater.Proxy.Socks.Server.{read_request, read_host, read_ip, read_domain}
use go_packet_repeater.Proxy.Socks.Client.{connect_request, request_to, address_of}

take-length : (xs ys : Bytes) → take (length xs) (xs ++ ys) ≡ xs
take-length [] ys = refl
take-length (x ∷ xs) ys = ap (◌∷◌ x) (take-length xs ys)

drop-length : (xs ys : Bytes) → drop (length xs) (xs ++ ys) ≡ ys
drop-length [] ys = refl
drop-length (x ∷ xs) ys = drop-length xs ys

abbrev pub with_input : Conn → Bytes → Conn
with_input c bs = record c { input = bs }

-- Reading what is there takes it off the input.
pub read_full-append :
    (c : Conn) (xs ys : Bytes)
    → read_full (length xs) (with_input c (xs ++ ys)) ≡ (ok xs, with_input c ys)
unfolding read_full
read_full-append c xs ys =
    ground (arith, length-append {0} xs ys, take-length xs ys, drop-length xs ys)

pub read_full_exact :
    (c : Conn) (n : ℕ) (xs ys : Bytes)
    → length xs ≡ n
    → read_full n (with_input c (xs ++ ys)) ≡ (ok xs, with_input c ys)
read_full_exact c n xs ys h = rw (← h) (read_full-append c xs ys)

uint16-put_uint16 : (n : ℕ) → n < 65536 → uint16 (put_uint16 n) ≡ n
unfolding uint16 put_uint16
uint16-put_uint16 n h = omega arith

put_uint16-length : (n : ℕ) → length (put_uint16 n) ≡ 2
unfolding put_uint16
put_uint16-length n = refl

to_uint16-lt : (n : ℤ) → to_uint16 n < 65536
unfolding to_uint16
to_uint16-lt n = ground arith

module _ (net : Addresses) where
  -- How the server names the host that a client asked for: an IP address as Go prints it.
  abbrev pub named : Option Ip → Bytes → Bytes
  named (some (v4 b)) host = net.ip_string b
  named (some (v6 b)) host = net.ip_string b
  named none host = host

  read_ip-append :
      (n : ℕ) (b : Bytes) (c : Conn) (rest : Bytes)
      → length b ≡ n
      → read_ip net n (with_input c (b ++ rest)) ≡ (ok (net.ip_string b), with_input c rest)
  unfolding read_ip
  read_ip-append n b c rest h = ground (arith, read_full_exact c n b rest h)

  read_domain-append :
      (host : Bytes) (c : Conn) (rest : Bytes)
      → read_domain net (with_input c (length host ∷ (host ++ rest))) ≡ (ok host, with_input c rest)
  unfolding read_domain
  read_domain-append host c rest =
      ground
        (arith, read_full-append c (length host ∷ []) (host ++ rest), read_full-append c host rest)

  -- The server's half of a request, from its address type on.
  read_address :
      (ip : Option Ip) (host : Bytes) (atyp : ℕ) (body : Bytes) (c : Conn) (rest : Bytes)
      → net.parse_ip host ≡ ip
      → address_of net ip host ≡ ok (atyp ∷ body)
      → read_host net atyp (with_input c (body ++ rest)) ≡ (ok (named ip host), with_input c rest)
  unfolding read_host address_of
  read_address (some (v4 b)) host atyp body c rest p e =
      ground (arith, read_ip-append 4 b c rest (net.parse_ip-IsIp host (v4 b) p).0)
  read_address (some (v6 b)) host atyp body c rest p e =
      ground (arith, read_ip-append 16 b c rest (net.parse_ip-IsIp host (v6 b) p).0)
  read_address none host atyp body c rest p e = ground (arith, read_domain-append host c rest)

  read_request-parts :
      (host : Bytes) (atyp : ℕ) (body : Bytes) (n : ℕ) (c : Conn) (rest : Bytes)
      → n < 65536
      → address_of net (net.parse_ip host) host ≡ ok (atyp ∷ body)
      → read_request net
          (with_input c (version5 ∷ cmd_connect ∷ 0 ∷ atyp ∷ (body ++ (put_uint16 n ++ rest))))
        ≡ (ok (join_host_port (named (net.parse_ip host) host) (itoa n)), with_input c rest)
  unfolding read_request
  read_request-parts host atyp body n c rest small e = ground (
    arith,
    read_full_exact c 4 (version5 ∷ cmd_connect ∷ 0 ∷ atyp ∷ []) (body ++ (put_uint16 n ++ rest))
        refl,
    read_address (net.parse_ip host) host atyp body c (put_uint16 n ++ rest) refl e,
    read_full_exact c 2 (put_uint16 n) rest (put_uint16-length n),
    uint16-put_uint16 n small,
  )

  address_of-cons :
      (ip : Option Ip) (host : Bytes) {addr : Bytes}
      → address_of net ip host ≡ ok addr
      → (atyp : ℕ) × (body : Bytes) × (addr ≡ atyp ∷ body)
  unfolding address_of
  address_of-cons (some (v4 b)) host e = (atyp_ipv4, b, ground arith)
  address_of-cons (some (v6 b)) host e = (atyp_ipv6, b, ground arith)
  address_of-cons none host e = (atyp_domain, length host ∷ host, ground arith)

  request_to-parts :
      (host port_str : Bytes) (port : ℤ) {req : Bytes}
      → atoi port_str ≡ some port
      → request_to net host port_str ≡ ok req
      → (addr : Bytes) × (address_of net (net.parse_ip host) host ≡ ok addr)
        × (req ≡ version5 ∷ cmd_connect ∷ 0 ∷ (addr ++ put_uint16 (to_uint16 port)))
  unfolding request_to
  request_to-parts host port_str port a e =
      elim (Result-cases (address_of net (net.parse_ip host) host)) [
        | inl (addr, h) ↦ (addr, h, ground (arith, a, h))
        | inr (x, h) ↦ absurd (ground (arith, a, h))
      ]

  -- From the bytes of a CONNECT request that `dialUpstreamSOCKS` builds for a target with a host
  -- and a numeric port, `socksReadRequest` reads the target that was asked for: the host as sent
  -- (an IP address in Go's notation), joined with the port as uint16. It reads nothing behind the
  -- request.
  pub read_request-connect_request :
      (target host port_str : Bytes) (port : ℤ) (req rest : Bytes) (c : Conn)
      → split_host_port target ≡ ok (host, port_str)
      → atoi port_str ≡ some port
      → connect_request net target ≡ ok req
      → read_request net (with_input c (req ++ rest)) ≡ (
        ok (join_host_port (named (net.parse_ip host) host) (itoa (to_uint16 port))),
        with_input c rest,
      )
  unfolding connect_request
  read_request-connect_request target host port_str port req rest c s a e =
      let (addr, h, eq) = request_to-parts host port_str port {req = req} a (ground (arith, s)) in
      let (atyp, body, shape) = address_of-cons (net.parse_ip host) host h in
      let n = to_uint16 port in
      rw (eq, shape, append_assoc body (put_uint16 n) rest)
        (read_request-parts host atyp body n c rest (to_uint16-lt port) (rw (← shape) h))
