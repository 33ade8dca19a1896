-- ===== src/Proxy/Socks/Client/Bounds.antt =====
-- What `dialUpstreamSOCKS` writes: only bytes, and a bounded number of them.
use go_packet_repeater.Base.{
  ℤ, ℕ, ◌+◌, ◌≡◌, ◌≤◌, ◌<◌, ◌⊎◌, refl, arith, subst, true, false, not, ◌||◌, Option, none, some, [],
  ◌∷◌, ◌++◌, Bytes, ◌==◌, Result, ok, err, inl, inr, All-append, length, length-append, ltb,
  Bool-cases,
}
use go_packet_repeater.Config.{ForwardAuthConfig}
use go_packet_repeater.Config.Addr.{atoi}
use go_packet_repeater.HostPort.{AddrError, split_host_port}
use go_packet_repeater.HostPort.HostBytes.{split_host_port-All}
use go_packet_repeater.Proxy.Socks.{
  version5, cmd_connect, bad_target, bad_target_port, reply_succeeded, Conn, SocksError,
  bad_version, connect_failed, Ip, v4, v6, ◌>>=◌, ◌>>◌, IsIp, write, byte_at, Addresses, put_uint16,
  to_uint16,
}
use go_packet_repeater.Proxy.Socks.Client.{
  want_method, closing, greet, user_pass, send_user_pass, authenticate, address_of, request_to,
  connect_request, lift_result, bound_length, read_reply, negotiate, dial_upstream_socks,
}
use go_packet_repeater.Proxy.Socks.Client.Written.{
  IsBytes, Writes, bind-Writes, read_full-Writes, throw_if-Writes, return-Writes, write-Writes,
}

want_method-byte : (auth : ForwardAuthConfig) → want_method auth < 256
want_method-byte auth = ground arith

greet-Writes : (auth : ForwardAuthConfig) → Writes 3 (greet auth)
unfolding greet
greet-Writes auth =
    bind-Writes 3 0
      (write-Writes 3 (version5 ∷ 1 ∷ want_method auth ∷ [])
        (omega arith, (omega arith, (want_method-byte auth, tt))) (omega arith))
      (λ _. bind-Writes 0 0 (read_full-Writes 2) (λ resp. throw_if-Writes _ _))

user_pass-IsBytes :
    (auth : ForwardAuthConfig)
    → IsBytes auth.user
    → IsBytes auth.pass
    → length auth.user ≤ 255
    → length auth.pass ≤ 255
    → IsBytes (user_pass auth) × (length (user_pass auth) ≤ 513)
unfolding user_pass
user_pass-IsBytes auth u p lu lp = (
  (
    omega arith,
    (
      omega (arith, lu),
      All-append _ auth.user (length auth.pass ∷ auth.pass) u (omega (arith, lp), p),
    ),
  ),
  omega (arith, lu, lp, length-append auth.user (length auth.pass ∷ auth.pass)),
)

send_user_pass-Writes :
    (auth : ForwardAuthConfig)
    → IsBytes auth.user
    → IsBytes auth.pass
    → Writes 513 (send_user_pass auth)
unfolding send_user_pass
send_user_pass-Writes auth u p =
    by_length (Bool-cases (ltb 255 (length auth.user) || ltb 255 (length auth.pass)))
  where
    by_length :
        ((ltb 255 (length auth.user) || ltb 255 (length auth.pass)) ≡ true)
          ⊎ ((ltb 255 (length auth.user) || ltb 255 (length auth.pass)) ≡ false)
        → Writes 513 (send_user_pass auth)
    by_length (inl e) = record {
      bytes = λ c h. ground (arith, e, h);
      count = λ c. ground (arith, e);
    }
    by_length (inr e) =
        let (b, l) = user_pass-IsBytes auth u p (ground (arith, e)) (ground (arith, e)) in
        bind-Writes 0 513 (throw_if-Writes _ _) (λ _.
          bind-Writes 513 0 (write-Writes 513 (user_pass auth) b l)
            (λ _. bind-Writes 0 0 (read_full-Writes 2) (λ resp. throw_if-Writes _ _)))

authenticate-Writes :
    (auth : ForwardAuthConfig)
    → IsBytes auth.user
    → IsBytes auth.pass
    → Writes 513 (authenticate auth)
unfolding authenticate
authenticate-Writes auth u p = record {
  bytes = λ c h. ground (arith, h, (send_user_pass-Writes auth u p).bytes c h);
  count = λ c. ground (arith, (send_user_pass-Writes auth u p).count c);
}

put_uint16-IsBytes : (n : ℕ) → IsBytes (put_uint16 n) × (length (put_uint16 n) ≤ 2)
unfolding put_uint16
put_uint16-IsBytes n = ((omega arith, (omega arith, tt)), omega arith)

-- A message of at most `n` bytes, or none.
abbrev Fits : ℕ → Result SocksError Bytes → Type 0
Fits n (ok bs) = IsBytes bs × (length bs ≤ n)
Fits n (err e) = Unit

module _ (net : Addresses) where
  address_of-Fits :
      (host : Bytes) (o : Option Ip)
      → IsBytes host
      → ((ip : Ip) → o ≡ some ip → IsIp ip)
      → Fits 257 (address_of net o host)
  unfolding address_of
  address_of-Fits host (some (v4 b)) h i =
      let (l, v) = i (v4 b) refl in ((omega arith, v), omega (arith, l))
  address_of-Fits host (some (v6 b)) h i =
      let (l, v) = i (v6 b) refl in ((omega arith, v), omega (arith, l))
  address_of-Fits host none h i = ground (arith, h)

  request_to-Fits : (host port_str : Bytes) → IsBytes host → Fits 262 (request_to net host port_str)
  unfolding request_to
  request_to-Fits host port_str h = by_port (atoi port_str)
    where
      with_port : ℤ → Result SocksError Bytes → Result SocksError Bytes
      with_port port r = elim r [
        | err e ↦ err e
        | ok addr ↦ ok (version5 ∷ cmd_connect ∷ 0 ∷ (addr ++ put_uint16 (to_uint16 port)))
      ]

      by_addr : (port : ℤ) (r : Result SocksError Bytes) → Fits 257 r → Fits 262 (with_port port r)
      by_addr port (err e) f = tt
      by_addr port (ok addr) f =
          let (b, l) = put_uint16-IsBytes (to_uint16 port) in
          (
            (omega arith, (omega arith, (omega arith, All-append _ addr _ f.0 b))),
            omega (arith, f.1, l, length-append addr (put_uint16 (to_uint16 port))),
          )

      by_port :
          (o : Option ℤ)
          → Fits 262 (elim o [
            | none ↦ err (bad_target_port port_str)
            | some port ↦ with_port port (address_of net (net.parse_ip host) host)
          ])
      by_port none = tt
      by_port (some port) =
          by_addr port _ (address_of-Fits host (net.parse_ip host) h (net.parse_ip-IsIp host))

  connect_request-Fits : (target : Bytes) → IsBytes target → Fits 262 (connect_request net target)
  unfolding connect_request
  connect_request-Fits target h = by_split (split_host_port target) refl
    where
      by_split :
          (r : Result AddrError (Bytes × Bytes))
          → split_host_port target ≡ r
          → Fits 262 (elim r [
            | err e ↦ err (bad_target e)
            | ok (host, port_str) ↦ request_to net host port_str
          ])
      by_split (err e) q = tt
      by_split (ok (host, port_str)) q =
          request_to-Fits host port_str (split_host_port-All (λ b. b < 256) target h q)

  bound_length-Writes : (atyp : ℕ) → Writes 0 (bound_length net atyp)
  unfolding bound_length
  bound_length-Writes atyp = record {
    bytes = λ c h. ground (arith, h, (read_full-Writes 1).bytes c h);
    count = λ c. ground (arith, (read_full-Writes 1).count c);
  }

  read_reply-Writes : Writes 0 (read_reply net)
  unfolding read_reply
  read_reply-Writes = bind-Writes 0 0 (read_full-Writes 4) (λ hdr.
      bind-Writes 0 0
        (throw_if-Writes (not (byte_at hdr 0 == version5)) (bad_version (byte_at hdr 0)))
        (λ _.
          bind-Writes 0 0
            (throw_if-Writes (not (byte_at hdr 1 == reply_succeeded))
              (connect_failed (byte_at hdr 1)))
            (λ _.
              bind-Writes 0 0 (bound_length-Writes (byte_at hdr 3))
                (λ n. bind-Writes 0 0 (read_full-Writes (n + 2)) (λ _. return-Writes tt)))))

  send_request-Writes :
      (r : Result SocksError Bytes)
      → Fits 262 r
      → Writes 262 (closing (lift_result net r) >>= λ req. closing (write req) >> read_reply net)
  unfolding lift_result closing
  send_request-Writes (err e) f = record { bytes = λ c h. h; count = λ c. omega arith }
  send_request-Writes (ok req) f =
      bind-Writes 262 0 (write-Writes 262 req f.0 f.1) (λ _. read_reply-Writes)

  negotiate-Writes :
      (target : Bytes) (auth : ForwardAuthConfig)
      → IsBytes target
      → IsBytes auth.user
      → IsBytes auth.pass
      → Writes 778 (negotiate net target auth)
  unfolding negotiate
  negotiate-Writes target auth t u p = bind-Writes 3 775 (greet-Writes auth) (λ _.
      bind-Writes 513 262 (authenticate-Writes auth u p)
        (λ _. send_request-Writes (connect_request net target) (connect_request-Fits target t)))

  -- For a target and credentials that are bytes, on a dialed connection on which only bytes were
  -- written: whatever the server sends and whichever write fails, all that `dialUpstreamSOCKS`
  -- writes are bytes, also where it stores the length of a user, a password or a host name in
  -- one, and they are at most 778.
  pub dial_upstream_socks-output :
      (c : Conn) (upstream target : Bytes) (auth : ForwardAuthConfig)
      (r : Result SocksError (Unit {0})) (c' : Conn)
      → IsBytes target
      → IsBytes auth.user
      → IsBytes auth.pass
      → IsBytes c.output
      → dial_upstream_socks net (some c) upstream target auth ≡ (r, some c')
      → IsBytes c'.output × (length c'.output ≤ length c.output + 778)
  unfolding dial_upstream_socks
  dial_upstream_socks-output c upstream target auth r c' t u p h e =
      let w = negotiate-Writes target auth t u p in
      let same : (negotiate net target auth c).1 ≡ c' = ground (arith, e) in
      (
        subst (λ d. IsBytes d.output) same (w.bytes c h),
        subst (λ d. length d.output ≤ length c.output + 778) same (w.count c),
      )
