-- ===== src/Relay/Waiting/Returned.antt =====
-- What it means that `Run` has returned.
use go_packet_repeater.Base.{
  ℕ, ◌<◌, ◌≡◌, ◌⊎◌, inl, inr, arith, refl, true, Option, none, some, List, [], ◌∷◌, Bytes, length,
  subst, All, All-append,
}
use go_packet_repeater.Config.{Endpoint}
use go_packet_repeater.Relay.{listeners}
use go_packet_repeater.Relay.Waiting.{
  Phase, serving, failing, gone, returned, Wait, Event, cancels, quits, fails, leaves, closes_done,
  takes_error, sees_done, sees_cancel, drains, is_gone, failure, step, CanHappen, Run, start, after,
}

module _ (listen : Endpoint) where
  -- A listener has failed with this error.
  abbrev HasFailed : Wait → Bytes → Type 0
  HasFailed s e = (i : ℕ) × (i < length (listeners listen)) × (failure (s.phase i) ≡ some e)

  record Sound (s : Wait) : Type 0 where
    all_gone : s.done ≡ true → (i : ℕ) → i < length (listeners listen) → is_gone (s.phase i) ≡ true
    quit : (i : ℕ) → s.phase i ≡ gone none → s.cancelled ≡ true
    sent : All (HasFailed s) s.errors
    nil_done : s.stage ≡ returned none → s.done ≡ true
    err_failed : (e : Bytes) → s.stage ≡ returned (some e) → HasFailed s e

  -- No step takes the error of a listener back.
  Keeps : Wait → Wait → Type 0
  Keeps s s' = (i : ℕ) (e : Bytes) → failure (s.phase i) ≡ some e → failure (s'.phase i) ≡ some e

  step-Keeps : (e : Event) (s : Wait) → CanHappen listen e s → Keeps s (step e s)
  unfolding step Keeps
  step-Keeps cancels s c = λ i e h. h
  step-Keeps (quits k) s c = λ i e h. ground (arith, h, c)
  step-Keeps (fails k x) s c = λ i e h. ground (arith, h, c)
  step-Keeps (leaves k) s c = λ i e h. ground (arith, h, c)
  step-Keeps closes_done s c = λ i e h. h
  step-Keeps takes_error s c = λ i e h. ground (arith, h, c)
  step-Keeps sees_done s c = λ i e h. h
  step-Keeps sees_cancel s c = λ i e h. h
  step-Keeps drains s c = λ i e h. h

  HasFailed-Keeps : (s s' : Wait) → Keeps s s' → (e : Bytes) → HasFailed s e → HasFailed s' e
  unfolding Keeps
  HasFailed-Keeps s s' k e (i, l, h) = (i, l, k i e h)

  sent-Keeps :
      (s s' : Wait) → Keeps s s' → (es : List Bytes) → All (HasFailed s) es → All (HasFailed s') es
  sent-Keeps s s' k [] h = tt
  sent-Keeps s s' k (e ∷ es) h = (HasFailed-Keeps s s' k e h.0, sent-Keeps s s' k es h.1)

  step-all_gone :
      (e : Event) (s : Wait)
      → CanHappen listen e s
      → Sound s
      → (step e s).done ≡ true
      → (i : ℕ) → i < length (listeners listen)
      → is_gone ((step e s).phase i) ≡ true
  unfolding step
  step-all_gone cancels s c v d i l = v.all_gone d i l
  step-all_gone (quits k) s c v d i l = ground (arith, v.all_gone d i l)
  step-all_gone (fails k x) s c v d i l = ground (arith, v.all_gone d i l, v.all_gone d k c.0, c.1)
  step-all_gone (leaves k) s c v d i l = ground (arith, v.all_gone (ground (arith, d, c)) i l, c)
  step-all_gone closes_done s c v d i l = c i l
  step-all_gone takes_error s c v d i l = ground (arith, v.all_gone (ground (arith, d, c)) i l, c)
  step-all_gone sees_done s c v d i l = v.all_gone d i l
  step-all_gone sees_cancel s c v d i l = v.all_gone d i l
  step-all_gone drains s c v d i l = v.all_gone d i l

  step-quit :
      (e : Event) (s : Wait)
      → CanHappen listen e s
      → Sound s
      → (i : ℕ) → (step e s).phase i ≡ gone none
      → (step e s).cancelled ≡ true
  unfolding step
  step-quit cancels s c v i h = refl
  step-quit (quits k) s c v i h = ground (arith, c, h)
  step-quit (fails k x) s c v i h = ground (arith, v.quit i, h)
  step-quit (leaves k) s c v i h = ground (arith, v.quit i, h, c)
  step-quit closes_done s c v i h = v.quit i h
  step-quit takes_error s c v i h = ground (arith, v.quit i, h, c)
  step-quit sees_done s c v i h = v.quit i h
  step-quit sees_cancel s c v i h = v.quit i h
  step-quit drains s c v i h = v.quit i h

  -- The errors of the next state are those of this one, and the error that is sent.
  step-errors :
      (e : Event) (s : Wait) (P : Bytes → Type 0)
      → CanHappen listen e s
      → ((k : ℕ) (x : Bytes) → e ≡ fails k x → P x)
      → All P s.errors
      → All P (step e s).errors
  unfolding step
  step-errors cancels s P c h a = a
  step-errors (quits k) s P c h a = a
  step-errors (fails k x) s P c h a = All-append P s.errors (x ∷ []) a (h k x refl, tt)
  step-errors (leaves k) s P c h a = subst (All P) (ground (arith, c)) a
  step-errors closes_done s P c h a = a
  step-errors takes_error s P (c, (e, es, q)) h a =
      subst (All P) (ground (arith, q)) (subst (All P) q a).1
  step-errors sees_done s P c h a = a
  step-errors sees_cancel s P c h a = a
  step-errors drains s P c h a = a

  fails-HasFailed :
      (e : Event) (s : Wait)
      → CanHappen listen e s
      → (k : ℕ) (x : Bytes) → e ≡ fails k x
      → HasFailed (step e s) x
  unfolding step
  fails-HasFailed e s c k x h = (k, (subst (λ e. CanHappen listen e s) h c).0, ground (arith, h))

  step-err_failed :
      (e : Event) (s : Wait)
      → CanHappen listen e s
      → Sound s
      → (x : Bytes) → (step e s).stage ≡ returned (some x)
      → HasFailed (step e s) x
  unfolding step
  step-err_failed cancels s c v x h = v.err_failed x h
  step-err_failed (quits k) s c v x h =
      HasFailed-Keeps s (step (quits k) s) (step-Keeps (quits k) s c) x (v.err_failed x h)
  step-err_failed (fails k y) s c v x h =
      HasFailed-Keeps s (step (fails k y) s) (step-Keeps (fails k y) s c) x (v.err_failed x h)
  step-err_failed (leaves k) s c v x h =
      HasFailed-Keeps s (step (leaves k) s) (step-Keeps (leaves k) s c) x
        (v.err_failed x (ground (arith, c, h)))
  step-err_failed closes_done s c v x h = v.err_failed x h
  step-err_failed takes_error s (c, (e, es, q)) v x h =
      HasFailed-Keeps s (step takes_error s) (step-Keeps takes_error s (c, (e, es, q))) x
        (subst (HasFailed s) (ground (arith, q, h)) (subst (All (HasFailed s)) q v.sent).0)
  step-err_failed sees_done s c v x h = cc
  step-err_failed sees_cancel s c v x h = cc
  step-err_failed drains s c v x h = cc

  step-nil_done :
      (e : Event) (s : Wait)
      → CanHappen listen e s
      → Sound s
      → (step e s).stage ≡ returned none
      → (step e s).done ≡ true
  unfolding step
  step-nil_done cancels s c v h = v.nil_done h
  step-nil_done (quits k) s c v h = v.nil_done h
  step-nil_done (fails k x) s c v h = v.nil_done h
  step-nil_done (leaves k) s c v h = ground (arith, v.nil_done, h, c)
  step-nil_done closes_done s c v h = refl
  step-nil_done takes_error s c v h = ground (arith, v.nil_done, h, c)
  step-nil_done sees_done s c v h = c.1
  step-nil_done sees_cancel s c v h = cc
  step-nil_done drains s c v h = c.1

  Run-Sound : {es : List Event} {s : Wait} → Run listen es s → Sound s
  Run-Sound start = record {
    all_gone = λ h. cc;
    quit = λ i h. cc;
    sent = tt;
    nil_done = λ h. cc;
    err_failed = λ e h. cc;
  }
  Run-Sound (after {es} {s} e run c) =
      let v = Run-Sound run in
      record {
        all_gone = step-all_gone e s c v;
        quit = step-quit e s c v;
        sent =
            step-errors e s (HasFailed (step e s)) c (fails-HasFailed e s c)
              (sent-Keeps s (step e s) (step-Keeps e s c) s.errors v.sent);
        nil_done = step-nil_done e s c v;
        err_failed = step-err_failed e s c v;
      }

  -- What has happened where `Run` returns an error, or nil.
  abbrev pub Explains : Wait → Option Bytes → Type 0
  Explains s (some e) = (i : ℕ) × (i < length (listeners listen)) × (failure (s.phase i) ≡ some e)
  Explains s none =
      (i : ℕ)
      → i < length (listeners listen)
      → (is_gone (s.phase i) ≡ true)
        × ((s.cancelled ≡ true) ⊎ ((e : Bytes) × (failure (s.phase i) ≡ some e)))

  -- In every interleaving of `Run` of the relay with its listeners: where it has returned an
  -- error, one of its listeners has failed with this error; and where it has returned nil, all of
  -- its listeners have ended, each of them with an error unless the context is cancelled.
  pub returned-Explains :
      {es : List Event} {s : Wait} (run : Run listen es s) (r : Option Bytes)
      → s.stage ≡ returned r
      → Explains s r
  returned-Explains run (some e) h = (Run-Sound run).err_failed e h
  returned-Explains {s} run none h = λ i l.
      let v = Run-Sound run in
      let g = v.all_gone (v.nil_done h) i l in (g, by_phase i (s.phase i) refl g)
    where
      by_phase :
          (i : ℕ) (p : Phase)
          → s.phase i ≡ p
          → is_gone p ≡ true
          → (s.cancelled ≡ true) ⊎ ((e : Bytes) × (failure p ≡ some e))
      by_phase i (gone (some e)) h g = inr (e, refl)
      by_phase i (gone none) h g = inl ((Run-Sound run).quit i h)
      by_phase i serving h g = cc
      by_phase i (failing e) h g = cc
