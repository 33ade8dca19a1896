-- ===== src/Config/Addr/Normal.antt =====
-- What a normalized address looks like, and that normalizing it again changes nothing.
use go_packet_repeater.Base.{
  ℕ, ◌≡◌, ◌≢◌, refl, arith, Bool, true, false, [], ◌∷◌, ◌++◌, Bytes, if◌then◌else◌, contains,
  is_empty, Result, ok, err, inl, inr, Bool-cases, Result-cases, Lacks, contains-append,
  contains-cons_append,
}
use go_packet_repeater.HostPort.{split_host_port, join_host_port}
use go_packet_repeater.HostPort.RoundTrip.{
  IsHostPort, split_host_port-IsHostPort, split_host_port-join,
}
use go_packet_repeater.Config.Addr.{
  AddressError, is_digit, all_digits, is_all_digits, validate_port, normalize_addr, any_host,
  bare_port, host_and_port,
}

-- A host that is not empty, and a port in range, joined, and split again by `net.SplitHostPort`.
pub record IsNormal (addr : Bytes) : Type 0 where
  pub host : Bytes
  pub port : Bytes
  pub halves : IsHostPort host port
  pub host_given : host ≢ []
  pub port_valid : validate_port port ≡ ok tt
  pub joined : addr ≡ join_host_port host port
  pub splits : split_host_port addr ≡ ok (host, port)

of_halves :
    (host port : Bytes)
    → host ≢ []
    → validate_port port ≡ ok tt
    → IsHostPort host port
    → IsNormal (join_host_port host port)
of_halves host port given valid halves = record {
  host = host;
  port = port;
  halves = halves;
  host_given = given;
  port_valid = valid;
  joined = refl;
  splits = split_host_port-join host port halves;
}

abbrev Normal : Result AddressError Bytes → Type 0
Normal (ok addr) = IsNormal addr
Normal (err e) = Unit

all_digits-Lacks : (c : ℕ) (s : Bytes) → is_digit c ≡ false → all_digits s ≡ true → Lacks c s
unfolding all_digits
all_digits-Lacks c [] h k = tt
all_digits-Lacks c (x ∷ s) h k = ground (arith, all_digits-Lacks c s h)

bare_port-IsNormal :
    (tok : Bytes)
    → is_all_digits tok ≡ true
    → validate_port tok ≡ ok tt
    → IsNormal (any_host ++ b':' ∷ tok)
unfolding is_all_digits is_digit join_host_port contains
bare_port-IsNormal tok d v =
    of_halves any_host tok (λ e. cc) v
      (record {
        host_open = ground arith;
        host_close = ground arith;
        port_colon = all_digits-Lacks b':' tok refl (ground arith);
        port_open = all_digits-Lacks b'[' tok refl (ground arith);
        port_close = all_digits-Lacks b']' tok refl (ground arith);
      })

bare_port-Normal : (tok : Bytes) (is_target : Bool) → Normal (bare_port tok is_target)
unfolding bare_port
bare_port-Normal tok is_target = ground (arith, bare_port-IsNormal tok)

given_host : Bytes → Bytes
given_host host = if is_empty host then any_host else host

joined-IsNormal :
    (host port : Bytes)
    → IsHostPort host port
    → validate_port port ≡ ok tt
    → IsNormal (join_host_port (given_host host) port)
unfolding given_host
joined-IsNormal [] port v k =
    of_halves any_host port (λ e. cc) k
      (record {
        host_open = ground arith;
        host_close = ground arith;
        port_colon = v.port_colon;
        port_open = v.port_open;
        port_close = v.port_close;
      })
joined-IsNormal (c ∷ host) port v k = of_halves (c ∷ host) port (λ e. cc) k v

host_and_port-Normal : (tok : Bytes) (is_target : Bool) → Normal (host_and_port tok is_target)
unfolding host_and_port given_host
host_and_port-Normal tok is_target = elim (Result-cases (split_host_port tok)) [
  | inl ((host, port), e) ↦
      ground (arith, e, joined-IsNormal host port (split_host_port-IsHostPort tok e))
  | inr (x, e) ↦ ground (arith, e)
]

normalize_addr-Normal : (tok : Bytes) (is_target : Bool) → Normal (normalize_addr tok is_target)
unfolding normalize_addr
normalize_addr-Normal tok is_target =
    ground (arith, bare_port-Normal tok is_target, host_and_port-Normal tok is_target)

-- Every address that `normalizeAddr` returns is the join of a host that is not empty and a port
-- that `validatePort` accepts, and `net.SplitHostPort` gives these two back.
pub normalize_addr-IsNormal :
    (tok : Bytes) (is_target : Bool) {addr : Bytes}
    → normalize_addr tok is_target ≡ ok addr
    → IsNormal addr
normalize_addr-IsNormal tok is_target e = rw e at (normalize_addr-Normal tok is_target)

contains-join : (host port : Bytes) → contains b':' (join_host_port host port) ≡ true
unfolding join_host_port
contains-join host port = elim (Bool-cases (contains b':' host)) [
  | inl e ↦ rw e (contains-cons_append b':' b'[' host b']' port)
  | inr e ↦ rw e (contains-append b':' host port)
]

not-is_empty : (c : ℕ) (s : Bytes) → contains c s ≡ true → is_empty s ≡ false
unfolding contains
not-is_empty c [] h = cc
not-is_empty c (x ∷ s) h = refl

normalize_addr-join :
    (host port : Bytes) (is_target : Bool)
    → IsHostPort host port
    → host ≢ []
    → validate_port port ≡ ok tt
    → normalize_addr (join_host_port host port) is_target ≡ ok (join_host_port host port)
unfolding normalize_addr
normalize_addr-join [] port is_target v given k = absurd (given refl)
normalize_addr-join (c ∷ host) port is_target v given k =
    let found = contains-join (c ∷ host) port in
    ground (
      arith,
      found,
      not-is_empty b':' (join_host_port (c ∷ host) port) found,
      split_host_port-join (c ∷ host) port v,
    )

-- A normal address is its own normal form, on either side of the relay.
pub normalize_addr-normal :
    (addr : Bytes) (is_target : Bool) → IsNormal addr → normalize_addr addr is_target ≡ ok addr
normalize_addr-normal addr is_target v =
    rw v.joined (normalize_addr-join v.host v.port is_target v.halves v.host_given v.port_valid)

-- An address that `normalizeAddr` returned it accepts again and returns unchanged, whether as a
-- target or as a listen address.
pub normalize_addr_idem :
    (tok : Bytes) (is_target again : Bool) {addr : Bytes}
    → normalize_addr tok is_target ≡ ok addr
    → normalize_addr addr again ≡ ok addr
normalize_addr_idem tok is_target again {addr} e =
    normalize_addr-normal addr again (normalize_addr-IsNormal tok is_target e)
