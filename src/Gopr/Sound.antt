-- ===== src/Gopr/Sound.antt =====
-- What gopr runs.
use go_packet_repeater.Base.{
  ◌≡◌, ◌≢◌, arith, false, List, [], ◌∷◌, All, Bytes, ok, inl, inr, >>=-eq-ok, ok-injective, subst,
  map,
}
use go_packet_repeater.System.{System}
use go_packet_repeater.Config.{Config, http_proxy, socks_proxy}
use go_packet_repeater.Config.Parse.Valid.{ForwardValid}
use go_packet_repeater.Config.Parse.Proxy.{ProxyValid}
use go_packet_repeater.Config.Parse.Accepted.{
  Runnable, forwards, proxies, shows_help, shows_version, parse-Runnable,
}
use go_packet_repeater.Config.ParseAll.{is_info, split_arg_groups, parse_all}
use go_packet_repeater.Config.ParseAll.AllOrNothing.{Each, NoInfo, AllOf, parse_all-AllOf}
use go_packet_repeater.Relay.{listeners}
use go_packet_repeater.Gopr.{
  Service, http_service, socks_service, relay_service, Action, run_all, run_one, run, action,
}

-- A service with a configuration that is made for it.
abbrev pub IsReady : Service → Type 0
IsReady (http_service c) = ProxyValid c × (c.mode ≡ http_proxy)
IsReady (socks_service c) = ProxyValid c × (c.mode ≡ socks_proxy)
IsReady (relay_service c) = ForwardValid c × (listeners c.listen ≢ [])

abbrev pub Ready : Action → Type 0
Ready (run_all ss) = All IsReady ss
Ready _ = Unit

listeners-ready : (c : Config) → ForwardValid c → listeners c.listen ≢ []
unfolding listeners
listeners-ready c v e = ground (arith, v.some_protocol, e)

run_one-IsReady : (c : Config) → Runnable c → is_info c.mode ≡ false → IsReady (run_one c)
unfolding run_one
run_one-IsReady c (forwards v) i = ground (arith, v.mode, v, listeners-ready c v)
run_one-IsReady c (proxies v) i = ground (arith, v.mode, v)
run_one-IsReady c (shows_help h) i = absurd (ground (arith, h, i))
run_one-IsReady c (shows_version h) i = absurd (ground (arith, h, i))

module _ (sys : System) where
  Each-Runnable : (gs : List (List Bytes)) (cs : List Config) → Each sys gs cs → All Runnable cs
  Each-Runnable [] [] h = tt
  Each-Runnable (g ∷ gs) (c ∷ cs) h = (parse-Runnable sys g h.0, Each-Runnable gs cs h.1)
  Each-Runnable [] (c ∷ cs) h = absurd h
  Each-Runnable (g ∷ gs) [] h = absurd h

  run_one-All : (cs : List Config) → All Runnable cs → NoInfo sys cs → All IsReady (map run_one cs)
  run_one-All [] r n = tt
  run_one-All (c ∷ cs) r n = (run_one-IsReady c r.0 n.0, run_one-All cs r.1 n.1)

  single-Ready : (c : Config) → Runnable c → Ready (action (c ∷ []))
  unfolding action
  single-Ready c (forwards v) =
      rw v.mode (run_one-IsReady c (forwards v) (ground (arith, v.mode)), tt)
  single-Ready c (proxies v) = elim v.mode [
    | inl m ↦ rw m (run_one-IsReady c (proxies v) (ground (arith, m)), tt)
    | inr m ↦ rw m (run_one-IsReady c (proxies v) (ground (arith, m)), tt)
  ]
  single-Ready c (shows_help h) = rw h tt
  single-Ready c (shows_version h) = rw h tt

  action-Ready : (gs : List (List Bytes)) (cs : List Config) → AllOf sys gs cs → Ready (action cs)
  unfolding action
  action-Ready gs [] h = tt
  action-Ready gs (c ∷ []) h = single-Ready c (Each-Runnable gs (c ∷ []) h.0).0
  action-Ready [] (c ∷ d ∷ cs) h = absurd h.0
  action-Ready (g ∷ []) (c ∷ d ∷ cs) h = absurd h.0.1
  action-Ready (g ∷ k ∷ gs) (c ∷ d ∷ cs) (each, inl one) = absurd (ground (arith, one))
  action-Ready (g ∷ k ∷ gs) (c ∷ d ∷ cs) (each, inr plain) =
      run_one-All (c ∷ d ∷ cs) (Each-Runnable (g ∷ k ∷ gs) (c ∷ d ∷ cs) each) plain

  -- For every command line that `run` does not refuse and that does not print the usage or the
  -- version, each service that it starts has a configuration made for it: RunHTTP and RunSOCKS
  -- one of their mode that is valid for a proxy, and `relay.Run` one that is valid for a relay
  -- and starts at least one listener. No configuration for help or version reaches a service.
  pub run-Ready : (args : List Bytes) {a : Action} → run sys args ≡ ok a → Ready a
  unfolding run
  run-Ready args e =
      let (cs, p, done) = >>=-eq-ok (parse_all sys args) (λ cs. ok (action cs)) e in
      subst Ready (ok-injective done)
        (action-Ready (split_arg_groups args) cs (parse_all-AllOf sys args p))
