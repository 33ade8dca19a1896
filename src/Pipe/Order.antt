-- ===== src/Pipe/Order.antt =====
-- Each direction by itself: what one peer has sent, what of it the loop has read, and what the
-- other peer was written.
use go_packet_repeater.Base.{
  ℕ, zero, suc, ◌-◌, ◌⊎◌, inl, inr, Bool-cases, ◌≤◌, ◌<◌, ◌≡◌, ◌≢◌, arith, refl, Bool, true, false,
  List, [], ◌∷◌, ◌++◌, Bytes, if◌then◌else◌, length, take, drop, take-drop, append_assoc,
  append-nil, subst, sym, ap, ◌∙◌,
}
use go_packet_repeater.Pipe.{
  Who, other, same, Loop, running, finished, broken, Pipe, Event, sends, ends, passes, meets_end,
  fails, CanHappen, step, Run, start, after,
}

pub record Flow : Type 0 where
  pub sent : Bytes
  pub unread : Bytes
  pub ended : Bool
  pub written : Bytes
  pub loop : Loop

abbrev pub flow : Pipe → Who → Flow
flow p w = record {
  sent = (p.stream w).sent;
  unread = (p.stream w).unread;
  ended = (p.stream w).ended;
  written = (p.stream (other w)).written;
  loop = p.loop w;
}

-- What an event does to the direction that it is about.
abbrev pub flow_step : Event → Flow → Flow
flow_step (sends w bs) f = record f { sent = f.sent ++ bs; unread = f.unread ++ bs }
flow_step (ends w) f = record f { ended = true }
flow_step (passes w n) f = record f {
  unread = drop n f.unread;
  written = f.written ++ take n f.unread;
}
flow_step (meets_end w) f = record f { loop = finished }
flow_step (fails w n m) f = record f {
  unread = drop n f.unread;
  written = f.written ++ take m f.unread;
  loop = broken;
}

abbrev pub about : Event → Who
about (sends w bs) = w
about (ends w) = w
about (passes w n) = w
about (meets_end w) = w
about (fails w n m) = w

-- Each step acts on one direction, as on that direction alone, and leaves the other as it is.
pub flow-step :
    (closes : Who → Bool) (e : Event) (p : Pipe) (w : Who)
    → flow (step closes e p) w ≡ (if same (about e) w then flow_step e (flow p w) else flow p w)
unfolding step
flow-step closes (sends v bs) p w = ground arith
flow-step closes (ends v) p w = ground arith
flow-step closes (passes v n) p w = ground arith
flow-step closes (meets_end v) p w = ground arith
flow-step closes (fails v n m) p w = ground arith

abbrev FlowCan : Event → Flow → Type 0
FlowCan (sends w bs) f = f.ended ≡ false
FlowCan (ends w) f = f.ended ≡ false
FlowCan (passes w n) f = (f.loop ≡ running) × (0 < n) × (n ≤ length f.unread)
FlowCan (meets_end w) f = (f.loop ≡ running) × (f.unread ≡ []) × (f.ended ≡ true)
FlowCan (fails w n m) f = (f.loop ≡ running) × (m ≤ n) × (n ≤ length f.unread)

-- Bytes are lost only where the loop broke.
record Passed (f : Flow) : Type 0 where
  lost : Bytes
  in_order : f.sent ≡ f.written ++ (lost ++ f.unread)
  unbroken : f.loop ≢ broken → lost ≡ []
  drained : f.loop ≡ finished → (f.unread ≡ []) × (f.ended ≡ true)

drop-nil : (n : ℕ) → ◌≡◌ {A = Bytes} (drop n []) []
drop-nil zero = refl
drop-nil (suc n) = refl

drop-drop : (m n : ℕ) (bs : Bytes) → m ≤ n → drop (n - m) (drop m bs) ≡ drop n bs
drop-drop zero n bs h = ap (λ k. drop k bs) (omega arith)
drop-drop (suc m) zero bs h = absurd (omega (arith, h))
drop-drop (suc m) (suc n) [] h = drop-nil (suc n - suc m)
drop-drop (suc m) (suc n) (x ∷ bs) h =
    ap (λ k. drop k (drop m bs)) (omega arith) ∙ drop-drop m n bs (omega (arith, h))

flow_step-Passed : (e : Event) (f : Flow) → FlowCan e f → Passed f → Passed (flow_step e f)
flow_step-Passed (sends w bs) f c v = record {
  lost = v.lost;
  in_order =
      ap (λ x. x ++ bs) v.in_order
      ∙ append_assoc f.written (v.lost ++ f.unread) bs
      ∙ ap (λ x. f.written ++ x) (append_assoc v.lost f.unread bs);
  unbroken = v.unbroken;
  drained = λ h. ground (arith, c, v.drained h);
}
flow_step-Passed (ends w) f c v = record {
  lost = v.lost;
  in_order = v.in_order;
  unbroken = v.unbroken;
  drained = λ h. ground (arith, v.drained h);
}
flow_step-Passed (passes w n) f c v = record {
  lost = [];
  in_order =
      v.in_order
      ∙ ap (λ x. f.written ++ x)
          (ap (λ l. l ++ f.unread) (v.unbroken (λ h. ground (arith, c, h)))
            ∙ sym (take-drop n f.unread))
      ∙ sym (append_assoc f.written (take n f.unread) (drop n f.unread));
  unbroken = λ h. refl;
  drained = λ h. ground (arith, c, h);
}
flow_step-Passed (meets_end w) f c v = record {
  lost = v.lost;
  in_order = v.in_order;
  unbroken = λ h. v.unbroken (λ g. ground (arith, c, g));
  drained = λ h. (c.1, c.2);
}
flow_step-Passed (fails w n m) f c v = record {
  lost = take (n - m) (drop m f.unread);
  in_order =
      v.in_order
      ∙ ap (λ x. f.written ++ x)
          (ap (λ l. l ++ f.unread) (v.unbroken (λ h. ground (arith, c, h)))
            ∙ sym (take-drop m f.unread)
            ∙ ap (λ x. take m f.unread ++ x) (sym (take-drop (n - m) (drop m f.unread))))
      ∙ sym (append_assoc f.written (take m f.unread) _)
      ∙ ap (λ x. (f.written ++ take m f.unread) ++ (take (n - m) (drop m f.unread) ++ x))
          (drop-drop m n f.unread c.1);
  unbroken = λ h. absurd (h refl);
  drained = λ h. cc;
}

flow-can : (e : Event) (p : Pipe) → CanHappen e p → FlowCan e (flow p (about e))
flow-can (sends w bs) p c = c
flow-can (ends w) p c = c
flow-can (passes w n) p c = c
flow-can (meets_end w) p c = c
flow-can (fails w n m) p c = c

same_iff : (v w : Who) → same v w ≡ true → v ≡ w
same_iff v w e = ground arith

step-Passed :
    (closes : Who → Bool) (e : Event) (p : Pipe) (w : Who)
    → CanHappen e p
    → Passed (flow p w)
    → Passed (flow (step closes e p) w)
step-Passed closes e p w c v =
    subst Passed (sym (flow-step closes e p w)) (from (Bool-cases (same (about e) w)))
  where
    from :
        (same (about e) w ≡ true) ⊎ (same (about e) w ≡ false)
        → Passed (if same (about e) w then flow_step e (flow p w) else flow p w)
    from (inl s) = rw s (
        flow_step-Passed e (flow p w)
          (subst (λ x. FlowCan e (flow p x)) (same_iff (about e) w s) (flow-can e p c)) v)
    from (inr s) = rw s v

Run-Passed :
    {closes : Who → Bool} {es : List Event} {p : Pipe}
    → Run closes es p
    → (w : Who) → Passed (flow p w)
Run-Passed start w = record { lost = []; in_order = refl; unbroken = λ h. refl; drained = λ h. cc }
Run-Passed {closes} (after {es} {p} e run c) w = step-Passed closes e p w c (Run-Passed run w)

-- After every interleaving of the two copy loops with what the peers do, the bytes written to one
-- peer are a first part of those that the other peer sent, in their order; and once the loop
-- between them has finished, they are all of them, and this peer has ended its stream.
pub written-sent :
    {closes : Who → Bool} {es : List Event} {p : Pipe} (run : Run closes es p) (w : Who)
    → ((rest : Bytes) × ((p.stream w).sent ≡ (p.stream (other w)).written ++ rest))
      × (p.loop w ≡ finished
          → ((p.stream (other w)).written ≡ (p.stream w).sent) × ((p.stream w).ended ≡ true))
written-sent {closes} {es} {p} run w =
    let v = Run-Passed run w in
    (
      (v.lost ++ (p.stream w).unread, v.in_order),
      λ h. ground (
        arith,
        h,
        v.drained h,
        v.unbroken (λ g. ground (arith, h, g)),
        v.in_order,
        append-nil (p.stream (other w)).written,
      ),
    )
