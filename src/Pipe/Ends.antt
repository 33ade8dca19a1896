-- ===== src/Pipe/Ends.antt =====
-- How the ends of the streams pass through, and when the loops end.
use go_packet_repeater.Base.{
  ℕ, zero, suc, ◌+◌, ◌⊎◌, inl, inr, ◌≤◌, ◌<◌, ◌≡◌, ◌≢◌, arith, refl, Bool, true, false, List, [],
  ◌∷◌, Bytes, if◌then◌else◌, length, drop, ap,
}
use go_packet_repeater.Pipe.{
  Who, other, same, Loop, running, Pipe, Event, sends, ends, passes, meets_end, fails, CanHappen,
  step, Run, start, after,
}

-- The write half of the other side is shut exactly when the loop has left, if it can be.
Shut : (Who → Bool) → Pipe → Who → Type 0
Shut closes p w =
    (p.loop w ≡ running → (p.stream (other w)).shut ≡ false)
    × (p.loop w ≢ running → (p.stream (other w)).shut ≡ closes (other w))

step-Shut :
    (closes : Who → Bool) (e : Event) (p : Pipe) (w : Who)
    → CanHappen e p
    → Shut closes p w
    → Shut closes (step closes e p) w
unfolding step Shut
step-Shut closes (sends v bs) p w c h = ground (arith, h)
step-Shut closes (ends v) p w c h = ground (arith, h)
step-Shut closes (passes v n) p w c h = ground (arith, h)
step-Shut closes (meets_end v) p w c h = ground (arith, h, c)
step-Shut closes (fails v n m) p w c h = ground (arith, h, c)

-- After every interleaving of the two copy loops, the write half of a connection is open while
-- the loop that writes to it runs, and once that loop has ended, with or without an error, it is
-- shut exactly if the connection has a CloseWrite that the code calls.
pub shut-loop :
    {closes : Who → Bool} {es : List Event} {p : Pipe} (run : Run closes es p) (w : Who)
    → (p.loop w ≡ running → (p.stream (other w)).shut ≡ false)
      × (p.loop w ≢ running → (p.stream (other w)).shut ≡ closes (other w))
unfolding Shut
shut-loop {closes} run w = from run
  where
    from : {es : List Event} {p : Pipe} → Run closes es p → Shut closes p w
    from start = ((λ h. refl), (λ h. absurd (h refl)))
    from (after {es} {p} e run c) = step-Shut closes e p w c (from run)

-- Events from one state to another, the first event first.
pub data Steps (closes : Who → Bool) : List Event → Pipe → Pipe → Type 0 where
  none_left : {p : Pipe} → Steps closes [] p p
  first :
      {es : List Event} {p q : Pipe} (e : Event)
      → CanHappen e p
      → Steps closes es (step closes e p) q
      → Steps closes (e ∷ es) p q

-- The rounds of the loop that reads `w`.
abbrev pub rounds : Who → List Event → ℕ
rounds w [] = 0
rounds w (passes v n ∷ es) = if same v w then suc (rounds w es) else rounds w es
rounds w (meets_end v ∷ es) = if same v w then suc (rounds w es) else rounds w es
rounds w (fails v n m ∷ es) = if same v w then suc (rounds w es) else rounds w es
rounds w (_ ∷ es) = rounds w es

length-drop : (n : ℕ) (bs : Bytes) → length (drop n bs) + n ≤ length bs + n
length-drop zero bs = omega arith
length-drop (suc n) [] = omega arith
length-drop (suc n) (x ∷ bs) = omega (arith, length-drop n bs)

drop-lt : (n : ℕ) (bs : Bytes) → 0 < n → n ≤ length bs → length (drop n bs) < length bs
drop-lt zero bs l h = absurd (omega (arith, l))
drop-lt (suc n) [] l h = absurd (omega (arith, h))
drop-lt (suc n) (x ∷ bs) l h = omega (arith, length-drop n bs)

is_running : Loop → Bool
is_running running = true
is_running _ = false

-- The rounds that a loop has left, once its stream has ended.
abbrev left : Pipe → Who → ℕ
left p w = if is_running (p.loop w) then suc (length (p.stream w).unread) else 0

step-left :
    (closes : Who → Bool) (e : Event) (p : Pipe) (w : Who)
    → CanHappen e p
    → (p.stream w).ended ≡ true
    → ((step closes e p).stream w).ended ≡ true
      × (rounds w (e ∷ []) + left (step closes e p) w ≤ left p w)
unfolding step is_running
step-left closes (sends v bs) p w c h = ground (arith, h, c)
step-left closes (ends v) p w c h = ground (arith, h, c)
step-left closes (passes v n) p w c h = ground (arith, h, c, drop-lt n (p.stream v).unread)
step-left closes (meets_end v) p w c h = ground (arith, h, c)
step-left closes (fails v n m) p w c h = ground (arith, h, c)

rounds-cons :
    (w : Who) (e : Event) (es : List Event) → rounds w (e ∷ es) ≡ rounds w (e ∷ []) + rounds w es
rounds-cons w (sends v bs) es = omega arith
rounds-cons w (ends v) es = omega arith
rounds-cons w (passes v n) es = ground arith
rounds-cons w (meets_end v) es = ground arith
rounds-cons w (fails v n m) es = ground arith

rounds-left :
    {closes : Who → Bool} {es : List Event} {p q : Pipe}
    → Steps closes es p q
    → (w : Who) → (p.stream w).ended ≡ true
    → rounds w es + left q w ≤ left p w
rounds-left none_left w h = omega arith
rounds-left {closes} {p = p} (first {es} e c rest) w h =
    let (still, fewer) = step-left closes e p w c h in
    omega (arith, fewer, rounds-left rest w still, rounds-cons w e es)

left-le : (p : Pipe) (w : Who) → left p w ≤ suc (length (p.stream w).unread)
unfolding is_running
left-le p w = ground arith

Steps-ended :
    {closes : Who → Bool} {es : List Event} {p q : Pipe}
    → Steps closes es p q
    → (w : Who) → (p.stream w).ended ≡ true
    → (q.stream w).ended ≡ true
Steps-ended none_left w h = h
Steps-ended {closes} {p = p} (first e c rest) w h =
    Steps-ended rest w (step-left closes e p w c h).0

-- A loop whose stream has ended can always run.
next_round :
    (q : Pipe) (w : Who)
    → q.loop w ≡ running
    → (q.stream w).ended ≡ true
    → CanHappen (meets_end w) q ⊎ CanHappen (passes w 1) q
next_round q w r e = by_unread (q.stream w).unread refl
  where
    by_unread :
        (bs : Bytes)
        → (q.stream w).unread ≡ bs
        → CanHappen (meets_end w) q ⊎ CanHappen (passes w 1) q
    by_unread [] h = inl (r, h, e)
    by_unread (x ∷ bs) h = inr (r, omega arith, omega (arith, ap length h))

-- From a state in which a peer has ended its stream, the loop that reads it makes at most one
-- round for each byte that is not read yet and one more, whatever happens between its rounds; and
-- as long as it runs, it can make a round.
pub rounds-le :
    {closes : Who → Bool} {es : List Event} {p q : Pipe}
    → Steps closes es p q
    → (w : Who) → (p.stream w).ended ≡ true
    → (rounds w es ≤ suc (length (p.stream w).unread))
      × (q.loop w ≡ running → CanHappen (meets_end w) q ⊎ CanHappen (passes w 1) q)
rounds-le {q = q} steps w h =
    let l = rounds-left steps w h in
    (omega (arith, l, left-le _ w), λ r. next_round q w r (Steps-ended steps w h))
