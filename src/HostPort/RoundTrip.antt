-- ===== src/HostPort/RoundTrip.antt =====
-- Splitting and joining undo one another.
use go_packet_repeater.Base.{
  ◌++◌, ◌≡◌, inl, inr, arith, false, [], ◌∷◌, some, none, Bytes, Lacks, contains, contains-Lacks,
  Lacks-contains, contains-append, contains-cons_append, cut, cut_last, cut-IsCut,
  cut_last-IsLastCut, cut-append, cut_last-append, IsCut, IsLastCut, Bool-cases, ok, err, Result,
  Option,
}
use go_packet_repeater.HostPort.{
  AddrError, split_host_port, join_host_port, bracketed, plain, split_bracketed, split_plain,
  missing_bracket, missing_port,
}

-- What the halves of a split address look like.
pub record IsHostPort (host port : Bytes) : Type 0 where
  pub host_open : Lacks b'[' host
  pub host_close : Lacks b']' host
  pub port_colon : Lacks b':' port
  pub port_open : Lacks b'[' port
  pub port_close : Lacks b']' port

abbrev GoodSplit : Result AddrError (Bytes × Bytes) → Type 0
GoodSplit (ok (host, port)) = IsHostPort host port
GoodSplit (err e) = Unit

bracketed-GoodSplit : (host rest : Bytes) → Lacks b']' host → GoodSplit (bracketed host rest)
unfolding bracketed
bracketed-GoodSplit host [] h = tt
bracketed-GoodSplit host (c ∷ port) h = ground (
  arith,
  contains-Lacks b':' port,
  contains-Lacks b'[' port,
  contains-Lacks b'[' host,
  contains-Lacks b']' port,
)

plain-GoodSplit : (host port : Bytes) → Lacks b':' port → GoodSplit (plain host port)
unfolding plain
plain-GoodSplit host port h = ground (
  arith,
  contains-Lacks b'[' port,
  contains-Lacks b'[' host,
  contains-Lacks b']' host,
  contains-Lacks b']' port,
)

split_bracketed-GoodSplit : (s : Bytes) → GoodSplit (split_bracketed s)
unfolding split_bracketed
split_bracketed-GoodSplit s = from (cut b']' s) (cut-IsCut b']' s)
  where
    from :
        (o : Option (Bytes × Bytes))
        → IsCut b']' s o
        → GoodSplit
            (elim o [ none ↦ err missing_bracket | some (host, rest) ↦ bracketed host rest ])
    from none h = tt
    from (some (host, rest)) h = bracketed-GoodSplit host rest h.1

split_plain-GoodSplit : (s : Bytes) → GoodSplit (split_plain s)
unfolding split_plain
split_plain-GoodSplit s = from (cut_last b':' s) (cut_last-IsLastCut b':' s)
  where
    from :
        (o : Option (Bytes × Bytes))
        → IsLastCut b':' s o
        → GoodSplit (elim o [ none ↦ err missing_port | some (host, port) ↦ plain host port ])
    from none h = tt
    from (some (host, port)) h = plain-GoodSplit host port h.1

split_host_port-GoodSplit : (s : Bytes) → GoodSplit (split_host_port s)
unfolding split_host_port
split_host_port-GoodSplit [] = tt
split_host_port-GoodSplit (c ∷ s) =
    ground (arith, split_bracketed-GoodSplit s, split_plain-GoodSplit (c ∷ s))

-- Whatever an address splits into: a host with no bracket, and a port with no colon or bracket.
pub split_host_port-IsHostPort :
    (s : Bytes) {host port : Bytes} → split_host_port s ≡ ok (host, port) → IsHostPort host port
split_host_port-IsHostPort s e = rw e at (split_host_port-GoodSplit s)

bracketed-join :
    (host port : Bytes) → IsHostPort host port → bracketed host (b':' ∷ port) ≡ ok (host, port)
unfolding bracketed
bracketed-join host port v = ground (
  arith,
  Lacks-contains b':' port v.port_colon,
  Lacks-contains b'[' host v.host_open,
  Lacks-contains b'[' port v.port_open,
  Lacks-contains b']' port v.port_close,
)

plain-join :
    (host port : Bytes)
    → IsHostPort host port
    → contains b':' host ≡ false
    → plain host port ≡ ok (host, port)
unfolding plain
plain-join host port v e = ground (
  arith,
  Lacks-contains b'[' host v.host_open,
  Lacks-contains b'[' port v.port_open,
  Lacks-contains b']' host v.host_close,
  Lacks-contains b']' port v.port_close,
)

split_host_port-bracketed :
    (host port : Bytes)
    → IsHostPort host port
    → split_host_port ((b'[' ∷ host) ++ (b']' ∷ b':' ∷ port)) ≡ ok (host, port)
unfolding split_host_port
split_host_port-bracketed host port v = ground (
  arith,
  contains-cons_append b':' b'[' host b']' port,
  cut-append b']' host (b':' ∷ port) v.host_close,
  bracketed-join host port v,
)

split_host_port-plain :
    (host port : Bytes)
    → IsHostPort host port
    → contains b':' host ≡ false
    → split_host_port (host ++ b':' ∷ port) ≡ ok (host, port)
unfolding split_host_port
split_host_port-plain [] port v e = ground (
  arith,
  contains-append b':' [] port,
  cut_last-append b':' [] port v.port_colon,
  plain-join [] port v,
)
split_host_port-plain (c ∷ host) port v e = ground (
  arith,
  contains-append b':' (c ∷ host) port,
  cut_last-append b':' (c ∷ host) port v.port_colon,
  plain-join (c ∷ host) port v,
)

-- Splitting what was joined gives the host and the port back.
pub split_host_port-join :
    (host port : Bytes)
    → IsHostPort host port
    → split_host_port (join_host_port host port) ≡ ok (host, port)
unfolding join_host_port
split_host_port-join host port v = elim (Bool-cases (contains b':' host)) [
  | inl e ↦ rw e (split_host_port-bracketed host port v)
  | inr e ↦ rw e (split_host_port-plain host port v e)
]
