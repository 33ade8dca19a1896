-- ===== src/Gopr.antt =====
-- cmd/gopr/main.go: what a command line makes gopr do.
pub mod Sound
pub mod Gathering
use go_packet_repeater.Base.{
  ℕ, ◌≡◌, refl, arith, All, Option, none, some, is_empty, if◌then◌else◌, List, [], ◌∷◌, Bytes,
  Result, ok, err, ◌>>=◌, map,
}
use go_packet_repeater.System.{System}
use go_packet_repeater.Config.{Config, Mode, http_proxy, socks_proxy, help, version}
use go_packet_repeater.Config.ParseAll.{ParseAllError, parse_all}

-- `proxy.RunHTTP`, `proxy.RunSOCKS` or `relay.Run` with a configuration
pub data Service : Type 0 where
  http_service socks_service relay_service : Config → Service

pub data Action : Type 0 where
  print_usage print_version : Action
  -- all of them at once
  run_all : List Service → Action

-- `runOne`
unfoldable pub run_one : Config → Service
run_one cfg = elim cfg.mode [
  | http_proxy ↦ http_service cfg
  | socks_proxy ↦ socks_service cfg
  | _ ↦ relay_service cfg
]

action : List Config → Action
unfolding run_one
action (cfg ∷ []) = elim cfg.mode [
  | help ↦ print_usage
  | version ↦ print_version
  | _ ↦ run_all (run_one cfg ∷ [])
]
action cfgs = run_all (map run_one cfgs)

-- `run`, up to what the services return
unfoldable pub run : System → List Bytes → Result ParseAllError Action
unfolding action
run sys args = do cfgs ← parse_all sys args; ok (action cfgs)

-- The errors that `run` joins, from what its services returned in the end.
gathered : List (Option Bytes) → List Bytes
gathered [] = []
gathered (none ∷ rs) = gathered rs
gathered (some e ∷ rs) = e ∷ gathered rs

-- What `main` makes of the errors that `run` joins, which are nil if there are none.
unfoldable pub joined_code : List Bytes → ℕ
joined_code errs = if is_empty errs then 0 else 1

action_code : (List Service → List (Option Bytes)) → Action → ℕ
unfolding gathered joined_code
action_code returns print_usage = 0
action_code returns print_version = 0
action_code returns (run_all ss) = joined_code (gathered (returns ss))

-- The exit code of `main`, with what the services that `run` starts return.
unfoldable pub exit_code : System → (List Service → List (Option Bytes)) → List Bytes → ℕ
unfolding action_code
exit_code sys returns args = elim (run sys args) [ err e ↦ 1 | ok a ↦ action_code returns a ]

gathered-none : (rs : List (Option Bytes)) → All (λ r. r ≡ none) rs → gathered rs ≡ []
unfolding gathered
gathered-none [] h = refl
gathered-none (none ∷ rs) h = gathered-none rs h.1
gathered-none (some e ∷ rs) h = cc

-- The exit code is 0 where all services that were started returned nil.
pub exit_code-run :
    (sys : System) (returns : List Service → List (Option Bytes)) (args : List Bytes)
    (ss : List Service)
    → run sys args ≡ ok (run_all ss)
    → All (λ r. r ≡ none) (returns ss)
    → exit_code sys returns args ≡ 0
unfolding exit_code action_code joined_code
exit_code-run sys returns args ss e h = ground (arith, e, gathered-none (returns ss) h)
