-- ===== src/HostPort/HostBytes.antt =====
-- The bytes of a host are bytes of the address.
use go_packet_repeater.Base.{
  ℕ, ◌≡◌, arith, subst, Option, none, some, [], ◌∷◌, Bytes, Result, ok, err, All, append-All, cut,
  cut_last, cut-IsCut, cut_last-IsLastCut, IsCut, IsLastCut,
}
use go_packet_repeater.HostPort.{
  missing_port, missing_bracket, AddrError, split_host_port, split_bracketed, split_plain,
  bracketed, plain,
}

module _ (P : ℕ → Type 0) where
  abbrev HostAll : Result AddrError (Bytes × Bytes) → Type 0
  HostAll (ok (host, port)) = All P host
  HostAll (err e) = Unit

  bracketed-HostAll : (host rest : Bytes) → All P host → HostAll (bracketed host rest)
  unfolding bracketed
  bracketed-HostAll host [] h = tt
  bracketed-HostAll host (c ∷ port) h = ground (arith, h)

  plain-HostAll : (host port : Bytes) → All P host → HostAll (plain host port)
  unfolding plain
  plain-HostAll host port h = ground (arith, h)

  split_bracketed-HostAll : (s : Bytes) → All P s → HostAll (split_bracketed s)
  unfolding split_bracketed
  split_bracketed-HostAll s h = from (cut b']' s) (cut-IsCut b']' s)
    where
      from :
          (o : Option (Bytes × Bytes))
          → IsCut b']' s o
          → HostAll
              (elim o [ none ↦ err missing_bracket | some (host, rest) ↦ bracketed host rest ])
      from none i = tt
      from (some (host, rest)) i =
          bracketed-HostAll host rest (append-All P host (b']' ∷ rest) (subst (All P) i.0 h)).0

  split_plain-HostAll : (s : Bytes) → All P s → HostAll (split_plain s)
  unfolding split_plain
  split_plain-HostAll s h = from (cut_last b':' s) (cut_last-IsLastCut b':' s)
    where
      from :
          (o : Option (Bytes × Bytes))
          → IsLastCut b':' s o
          → HostAll (elim o [ none ↦ err missing_port | some (host, port) ↦ plain host port ])
      from none i = tt
      from (some (host, port)) i =
          plain-HostAll host port (append-All P host (b':' ∷ port) (subst (All P) i.0 h)).0

  split_host_port-HostAll : (s : Bytes) → All P s → HostAll (split_host_port s)
  unfolding split_host_port
  split_host_port-HostAll [] h = tt
  split_host_port-HostAll (c ∷ s) h =
      ground (arith, split_bracketed-HostAll s h.1, split_plain-HostAll (c ∷ s) h)

  pub split_host_port-All :
      (s : Bytes) {host port : Bytes} → All P s → split_host_port s ≡ ok (host, port) → All P host
  split_host_port-All s h e = subst HostAll e (split_host_port-HostAll s h)
