-- ===== src/Proxy/Http/Shutdown.antt =====
-- How `RunHTTP` of internal/proxy/http.go ends: its `ListenAndServe`, the goroutine that calls
-- `Shutdown`, and the requests that are being served, in any order of their steps. That
-- `ListenAndServe` returns as soon as `Shutdown` is called, and takes no more requests, is
-- documented behaviour of net/http.
use go_packet_repeater.Base.{
  ℕ, suc, ◌-◌, ◌<◌, ◌≡◌, arith, Bool, true, false, Option, none, some, List, [], ◌∷◌, Bytes,
}

-- What `ListenAndServe` returns.
pub data ServeError : Type 0 where
  server_closed : ServeError
  serve_failed : Bytes → ServeError

-- the result of `RunHTTP`, `none` for nil
unfoldable pub result_of : ServeError → Option Bytes
result_of server_closed = none
result_of (serve_failed e) = some e

-- `closing` once `Shutdown` is called; `outcome` once `RunHTTP` has returned
pub record Server : Type 0 where
  pub cancelled : Bool
  pub closing : Bool
  pub active : ℕ
  pub outcome : Option (Option Bytes)

pub data Event : Type 0 where
  -- the context is cancelled; the goroutine calls `Shutdown`
  cancels shuts : Event
  -- a request is taken; its handler ends
  takes ends : Event
  -- `ListenAndServe` returns, and `RunHTTP` with it
  returns : ServeError → Event

abbrev pub serving : Server
serving = record { cancelled = false; closing = false; active = 0; outcome = none }

unfoldable pub step : Event → Server → Server
unfolding result_of
step cancels s = record s { cancelled = true }
step shuts s = record s { closing = true }
step takes s = record s { active = suc s.active }
step ends s = record s { active = s.active - 1 }
step (returns e) s = record s { outcome = some (result_of e) }

abbrev pub CanHappen : Event → Server → Type 0
CanHappen cancels s = Unit
CanHappen shuts s = (s.cancelled ≡ true) × (s.closing ≡ false)
CanHappen takes s = (s.closing ≡ false) × (s.outcome ≡ none)
CanHappen ends s = 0 < s.active
CanHappen (returns server_closed) s = (s.closing ≡ true) × (s.outcome ≡ none)
CanHappen (returns (serve_failed e)) s = s.outcome ≡ none

-- The states that a row of events leads to, the last event first.
pub data Run : List Event → Server → Type 0 where
  start : Run [] serving
  after :
      {es : List Event} {s : Server} (e : Event)
      → Run es s
      → CanHappen e s
      → Run (e ∷ es) (step e s)

abbrev IsOrderly : Server → Type 0
IsOrderly s = (s.closing ≡ true → s.cancelled ≡ true) × (s.outcome ≡ some none → s.closing ≡ true)

step-IsOrderly : (e : Event) (s : Server) → CanHappen e s → IsOrderly s → IsOrderly (step e s)
unfolding step
step-IsOrderly cancels s c v = ground (arith, v)
step-IsOrderly shuts s c v = ground (arith, v, c)
step-IsOrderly takes s c v = ground (arith, v)
step-IsOrderly ends s c v = ground (arith, v)
step-IsOrderly (returns server_closed) s c v = ground (arith, v, c)
step-IsOrderly (returns (serve_failed e)) s c v = ground (arith, v)

-- `RunHTTP` returns nil only under a cancelled context, behind a call of `Shutdown`.
pub returned_nil-cancelled :
    {es : List Event} {s : Server}
    → Run es s
    → s.outcome ≡ some none
    → (s.cancelled ≡ true) × (s.closing ≡ true)
returned_nil-cancelled run h = let v = orderly run in (v.0 (v.1 h), v.1 h)
  where
    orderly : {es : List Event} {s : Server} → Run es s → IsOrderly s
    orderly start = ground arith
    orderly (after e run c) = step-IsOrderly e _ c (orderly run)
