-- ===== src/Relay/Waiting/Progress.antt =====
-- That `Run` can always come to its end once its context is cancelled.
use go_packet_repeater.Base.{
  ℕ, zero, suc, ◌<◌, ◌≤◌, ◌≡◌, refl, arith, true, Option, none, Bytes, length,
}
use go_packet_repeater.Config.{Endpoint}
use go_packet_repeater.Relay.{listeners}
use go_packet_repeater.Relay.Waiting.{
  Phase, serving, failing, gone, Stage, selecting, draining, returned, Wait, Event, quits, leaves,
  closes_done, sees_done, drains, is_gone, step, CanHappen,
}

module _ (listen : Endpoint) where
  -- The states that can follow a state.
  pub data Reaches (s : Wait) : Wait → Type 0 where
    here : Reaches s s
    onward : {t : Wait} (e : Event) → Reaches s t → CanHappen listen e t → Reaches s (step e t)

  -- From `s`, the first `n` listeners can end, with nothing else changed but what they do.
  abbrev Settled : ℕ → Wait → Type 0
  Settled n s =
      (t : Wait) × Reaches s t
      × (t.cancelled ≡ true)
      × (t.stage ≡ s.stage)
      × ((i : ℕ) → i < n → is_gone (t.phase i) ≡ true)

  settle-next :
      (n : ℕ) (s t : Wait) (p : Phase)
      → n < length (listeners listen)
      → t.phase n ≡ p
      → Reaches s t
      → t.cancelled ≡ true
      → t.stage ≡ s.stage
      → ((i : ℕ) → i < n → is_gone (t.phase i) ≡ true)
      → Settled (suc n) s
  unfolding step
  settle-next n s t serving l e run c g h =
      (step (quits n) t, onward (quits n) run (l, e, c), c, g, λ i m. ground (arith, h i, m))
  settle-next n s t (failing x) l e run c g h = (
    step (leaves n) t,
    onward (leaves n) run (x, e),
    ground (arith, e, c),
    ground (arith, e, g),
    λ i m. ground (arith, e, h i, m),
  )
  settle-next n s t (gone r) l e run c g h = (t, run, c, g, λ i m. ground (arith, h i, m, e))

  settle : (n : ℕ) (s : Wait) → n ≤ length (listeners listen) → s.cancelled ≡ true → Settled n s
  settle zero s l c = (s, here, c, refl, λ i m. absurd (omega (arith, m)))
  settle (suc n) s l c =
      let (t, run, c', g, h) = settle n s (omega (arith, l)) c in
      settle-next n s t (t.phase n) (omega (arith, l)) refl run c' g h

  -- From every state of `Run` of the relay and its listeners in which the context is cancelled,
  -- there are steps by which `Run` returns: its listeners can all end, whatever they have done so
  -- far, and nothing of its own keeps it from seeing this.
  pub cancelled-returns :
      (s : Wait)
      → s.cancelled ≡ true
      → (t : Wait) × Reaches s t × ((r : Option Bytes) × (t.stage ≡ returned r))
  cancelled-returns s c =
      let (t, run, c', g, h) = settle (length (listeners listen)) s (omega arith) c in
      by_stage t run h t.stage refl
    where
      by_stage :
          (t : Wait)
          → Reaches s t
          → ((i : ℕ) → i < length (listeners listen) → is_gone (t.phase i) ≡ true)
          → (x : Stage) → t.stage ≡ x
          → (t : Wait) × Reaches s t × ((r : Option Bytes) × (t.stage ≡ returned r))
      by_stage t run h (returned r) e = (t, run, (r, e))
      by_stage t run h selecting e = (
        step sees_done (step closes_done t),
        onward sees_done (onward closes_done run h) (unfold step in (e, refl)),
        (none, unfold step in refl),
      )
      by_stage t run h draining e = (
        step drains (step closes_done t),
        onward drains (onward closes_done run h) (unfold step in (e, refl)),
        (none, unfold step in refl),
      )
