-- ===== src/Proxy/Socks/Client/Closing.antt =====
-- How `dialUpstreamSOCKS` leaves its connection: each of its error paths closes it by itself.
use go_packet_repeater.Base.{
  ℕ, ◌+◌, ◌≡◌, ◌⊎◌, refl, arith, ◌∙◌, Bool, true, false, not, Option, some, Bytes, ◌==◌, Result, ok,
  err, inl, inr,
}
use go_packet_repeater.Config.{ForwardAuthConfig}
use go_packet_repeater.Proxy.Socks.{
  version5, reply_succeeded, Conn, SocksError, bad_version, connect_failed, Session, and_then,
  ◌>>=◌, return, throw_if, read_full, write, byte_at, Addresses,
}
use go_packet_repeater.Proxy.Socks.Client.{
  closing, close_failed, greet, send_user_pass, authenticate, connect_request, lift_result,
  bound_length, read_reply, negotiate, dial_upstream_socks,
}

-- An open connection is closed after an error, and open after a success.
abbrev Closed : {A : Type 0} → Result SocksError A × Conn → Type 0
Closed (ok a, c) = c.closed ≡ false
Closed (err e, c) = c.closed ≡ true

record Closes {A : Type 0} (m : Session A) : Type 0 where
  closes : (c : Conn) → c.closed ≡ false → Closed (m c)

bind-Closes :
    {A B : Type 0} {m : Session A} {f : A → Session B}
    → Closes m
    → ((a : A) → Closes (f a))
    → Closes (m >>= f)
bind-Closes {m} {f} hm hf = record { closes = λ c h. from (m c) (hm.closes c h) }
  where
    from : (r : Result SocksError _ × Conn) → Closed r → Closed (and_then r f)
    from (ok a, c) h = (hf a).closes c h
    from (err e, c) h = h

-- A call that does not close the connection itself closes it under `closing`.
closing-Closes :
    {A : Type 0} (m : Session A) → ((c : Conn) → (m c).1.closed ≡ c.closed) → Closes (closing m)
unfolding closing
closing-Closes {A} m keeps = record { closes = λ c h. from c (m c) (keeps c) h }
  where
    from :
        (c : Conn) (r : Result SocksError A × Conn)
        → r.1.closed ≡ c.closed
        → c.closed ≡ false
        → Closed (close_failed r)
    from c (ok a, c') k h = k ∙ h
    from c (err e, c') k h = refl

read_full-Closes : (n : ℕ) → Closes (closing (read_full n))
unfolding read_full
read_full-Closes n = closing-Closes _ (λ c. ground arith)

write-Closes : (bs : Bytes) → Closes (closing (write bs))
unfolding write
write-Closes bs = closing-Closes _ (λ c. ground arith)

throw_if-Closes : (bad : Bool) (e : SocksError) → Closes (closing (throw_if bad e))
throw_if-Closes bad e = closing-Closes _ (λ c. ground arith)

return-Closes : {A : Type 0} (a : A) → Closes (return a)
return-Closes a = record { closes = λ c h. h }

greet-Closes : (auth : ForwardAuthConfig) → Closes (greet auth)
unfolding greet
greet-Closes auth =
    bind-Closes (write-Closes _)
      (λ _. bind-Closes (read_full-Closes 2) (λ resp. throw_if-Closes _ _))

send_user_pass-Closes : (auth : ForwardAuthConfig) → Closes (send_user_pass auth)
unfolding send_user_pass
send_user_pass-Closes auth = bind-Closes (throw_if-Closes _ _) (λ _.
    bind-Closes (write-Closes _)
      (λ _. bind-Closes (read_full-Closes 2) (λ resp. throw_if-Closes _ _)))

authenticate-Closes : (auth : ForwardAuthConfig) → Closes (authenticate auth)
unfolding authenticate
authenticate-Closes auth = record {
  closes = λ c h. ground (arith, (send_user_pass-Closes auth).closes c h);
}

module _ (net : Addresses) where
  bound_length-Closes : (atyp : ℕ) → Closes (bound_length net atyp)
  unfolding bound_length
  bound_length-Closes atyp = record {
    closes = λ c h. ground (arith, (read_full-Closes 1).closes c h);
  }

  read_reply-Closes : Closes (read_reply net)
  unfolding read_reply
  read_reply-Closes = bind-Closes (read_full-Closes 4) (λ hdr.
      bind-Closes (throw_if-Closes (not (byte_at hdr 0 == version5)) (bad_version (byte_at hdr 0)))
        (λ _.
          bind-Closes
            (throw_if-Closes (not (byte_at hdr 1 == reply_succeeded))
              (connect_failed (byte_at hdr 1)))
            (λ _.
              bind-Closes (bound_length-Closes (byte_at hdr 3))
                (λ n. bind-Closes (read_full-Closes (n + 2)) (λ _. return-Closes tt)))))

  negotiate-Closes :
      (target : Bytes) (auth : ForwardAuthConfig) → Closes (negotiate net target auth)
  unfolding negotiate
  negotiate-Closes target auth = bind-Closes (greet-Closes auth) (λ _.
      bind-Closes (authenticate-Closes auth) (λ _.
        bind-Closes (closing-Closes (lift_result net (connect_request net target)) (λ c. refl))
          (λ req. bind-Closes (write-Closes req) (λ _. read_reply-Closes))))

  -- On a connection that was dialed, whatever the server sends and whichever write fails,
  -- `dialUpstreamSOCKS` has closed the connection when it returns an error, and has not when it
  -- succeeds.
  pub dial_upstream_socks-closed :
      (c : Conn) (upstream target : Bytes) (auth : ForwardAuthConfig)
      (r : Result SocksError (Unit {0})) (c' : Conn)
      → c.closed ≡ false
      → dial_upstream_socks net (some c) upstream target auth ≡ (r, some c')
      → ((r ≡ ok tt) × (c'.closed ≡ false)) ⊎ ((e : SocksError) × (r ≡ err e) × (c'.closed ≡ true))
  unfolding dial_upstream_socks
  dial_upstream_socks-closed c upstream target auth r c' unclosed e =
      from (negotiate net target auth c) ((negotiate-Closes target auth).closes c unclosed) e
    where
      from :
          (out : Result SocksError (Unit {0}) × Conn)
          → Closed out
          → ◌≡◌ {A = Result SocksError (Unit {0}) × Option Conn} (out.0, some out.1) (r, some c')
          → ((r ≡ ok tt) × (c'.closed ≡ false))
            ⊎ ((e : SocksError) × (r ≡ err e) × (c'.closed ≡ true))
      from (ok _, d) k h = inl (ground arith)
      from (err x, d) k h = inr (x, ground arith, ground arith)
