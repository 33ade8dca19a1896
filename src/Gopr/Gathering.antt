-- ===== src/Gopr/Gathering.antt =====
-- How `run` of cmd/gopr/main.go waits for the services that it started, and gathers their errors. The
-- goroutines of the services end in any order; a service is named by its number.
use go_packet_repeater.Base.{
  ℕ, zero, suc, ◌+◌, ◌<◌, ◌≤◌, ◌≡◌, ◌==◌, refl, sym, ap, ◌∙◌, arith, Bool, true, false, Option,
  none, some, List, [], ◌∷◌, ◌++◌, Bytes, length, if◌then◌else◌, Bool-cases, inl, inr, ◌↔◌, subst,
}
use go_packet_repeater.Gopr.{joined_code}

-- What each service has returned, if it has ended, with `none` for nil; what `errCh` holds; and what
-- `run` joins and returns.
pub record Gathering : Type 0 where
  pub result : ℕ → Option (Option Bytes)
  pub errors : List Bytes
  pub joined : Option (List Bytes)

pub data Event : Type 0 where
  -- `runOne` returns, its error is sent, and `wg.Done`
  ends : ℕ → Option Bytes → Event
  -- `wg.Wait` returns, `errCh` is closed, and its errors are joined
  joins : Event

abbrev put : ℕ → Option Bytes → (ℕ → Option (Option Bytes)) → ℕ → Option (Option Bytes)
put i r f j = if j == i then some r else f j

abbrev pub sent : Option Bytes → List Bytes
sent none = []
sent (some e) = e ∷ []

unfoldable pub step : Event → Gathering → Gathering
step (ends i r) s = record s { result = put i r s.result; errors = s.errors ++ sent r }
step joins s = record s { joined = some s.errors }

abbrev pub launched : Gathering
launched = record { result = λ i. none; errors = []; joined = none }

-- Only a service that was started ends, and only once; `joins` is the end of all.
abbrev pub CanHappen : ℕ → Event → Gathering → Type 0
CanHappen n (ends i r) s = (i < n) × (s.result i ≡ none)
CanHappen n joins s =
    ((i : ℕ) → i < n → (r : Option Bytes) × (s.result i ≡ some r)) × (s.joined ≡ none)

-- The states that a row of events leads to with `n` services, the last event first.
pub data Run (n : ℕ) : List Event → Gathering → Type 0 where
  start : Run n [] launched
  after :
      {es : List Event} {s : Gathering} (e : Event)
      → Run n es s
      → CanHappen n e s
      → Run n (e ∷ es) (step e s)

-- How many of the first `n` numbers pass a test, and how many texts.
abbrev pub count_below : ℕ → (ℕ → Bool) → ℕ
count_below zero f = 0
count_below (suc n) f = count_below n f + (if f n then 1 else 0)

abbrev pub count : (Bytes → Bool) → List Bytes → ℕ
count p [] = 0
count p (x ∷ xs) = (if p x then 1 else 0) + count p xs

-- An error that passes a test.
abbrev pub failed_with : (Bytes → Bool) → Option (Option Bytes) → Bool
failed_with p (some (some e)) = p e
failed_with p _ = false

count-append :
    (p : Bytes → Bool) (xs ys : List Bytes) → count p (xs ++ ys) ≡ count p xs + count p ys
count-append p [] ys = omega arith
count-append p (x ∷ xs) ys = ground (arith, count-append p xs ys)

count_below-same :
    (n : ℕ) (f g : ℕ → Bool) → ((j : ℕ) → j < n → f j ≡ g j) → count_below n f ≡ count_below n g
count_below-same zero f g h = refl
count_below-same (suc n) f g h =
    ground (arith, h n (omega arith), count_below-same n f g (λ j l. h j (omega (arith, l))))

count-sent :
    (p : Bytes → Bool) (r : Option Bytes)
    → count p (sent r) ≡ (if failed_with p (some r) then 1 else 0)
count-sent p none = refl
count-sent p (some e) = ground arith

put-same :
    (n : ℕ) (p : Bytes → Bool) (i : ℕ) (r : Option Bytes) (f : ℕ → Option (Option Bytes))
    → n == i ≡ true
    → count_below n (λ j. failed_with p (put i r f j)) ≡ count_below n (λ j. failed_with p (f j))
put-same n p i r f e = count_below-same n _ _ (λ j l. ground (arith, e, l))

-- One more passes where one number changes from failing to passing.
count_below-put :
    (n : ℕ) (p : Bytes → Bool) (i : ℕ) (r : Option Bytes) (f : ℕ → Option (Option Bytes))
    → i < n
    → f i ≡ none
    → count_below n (λ j. failed_with p (put i r f j))
      ≡ count_below n (λ j. failed_with p (f j)) + count p (sent r)
count_below-put zero p i r f l h = absurd (omega (arith, l))
count_below-put (suc n) p i r f l h = elim (Bool-cases (n == i)) [
  | inl e ↦ ground (arith, e, h, count-sent p r, put-same n p i r f e)
  | inr e ↦ ground (arith, e, count_below-put n p i r f (ground (arith, l, e)) h)
]

-- `run` has waited for all services; its errors are those that they returned, each as often; and the
-- exit code tells whether there are any.
abbrev pub Gathers : ℕ → Gathering → List Bytes → Type 0
Gathers n s errs =
    ((i : ℕ) → i < n → (r : Option Bytes) × (s.result i ≡ some r))
    × ((p : Bytes → Bool) → count p errs ≡ count_below n (λ i. failed_with p (s.result i)))
    × ((joined_code errs ≡ 0) ↔ ((i : ℕ) → i < n → s.result i ≡ some none))

abbrev Counted : ℕ → Gathering → Type 0
Counted n s =
    (p : Bytes → Bool) → count p s.errors ≡ count_below n (λ i. failed_with p (s.result i))

none-failed : (n : ℕ) (p : Bytes → Bool) → 0 ≡ count_below n (λ i. failed_with p none)
none-failed zero p = refl
none-failed (suc n) p = ground (arith, none-failed n p)

Run-Counted : {n : ℕ} {es : List Event} {s : Gathering} → Run n es s → Counted n s
unfolding step
Run-Counted start p = none-failed _ p
Run-Counted (after {es} {s} (ends i r) run c) p =
    count-append p s.errors (sent r)
    ∙ ap (λ m. m + count p (sent r)) (Run-Counted run p)
    ∙ sym (count_below-put _ p i r s.result c.0 c.1)
Run-Counted (after joins run c) p = Run-Counted run p

count-length : (xs : List Bytes) → count (λ x. true) xs ≡ length xs
count-length [] = refl
count-length (x ∷ xs) = ground (arith, count-length xs)

count_below-le : (n : ℕ) (f : ℕ → Bool) → count_below n f ≤ n
count_below-le zero f = omega arith
count_below-le (suc n) f = ground (arith, count_below-le n f)

-- `errCh` has room for one error of each service, so that no service waits to send its own.
pub errors-fit : {n : ℕ} {es : List Event} {s : Gathering} → Run n es s → length s.errors ≤ n
errors-fit {n} {es} {s} run = ground (
  arith,
  count-length s.errors,
  Run-Counted run (λ x. true),
  count_below-le n (λ i. failed_with (λ x. true) (s.result i)),
)

-- With no error counted, all have returned nil, and the other way round.
none_failed-nil :
    (n : ℕ) (f : ℕ → Option (Option Bytes))
    → ((i : ℕ) → i < n → (r : Option Bytes) × (f i ≡ some r))
    → count_below n (λ i. failed_with (λ x. true) (f i)) ≡ 0
    → (i : ℕ) → i < n
    → f i ≡ some none
none_failed-nil zero f ended h i l = absurd (omega (arith, l))
none_failed-nil (suc n) f ended h i l = elim (Bool-cases (i == n)) [
  | inl e ↦ by_result e (ended i l).0 (ended i l).1
  | inr e ↦
      none_failed-nil n f (λ j m. ended j (omega (arith, m))) (omega (arith, h)) i
        (ground (arith, l, e))
]
  where
    by_result : i == n ≡ true → (r : Option Bytes) → f i ≡ some r → f i ≡ some none
    by_result e none e' = e'
    by_result e (some x) e' = absurd (ground (arith, e, e', h))

nil-none_failed :
    (n : ℕ) (f : ℕ → Option (Option Bytes))
    → ((i : ℕ) → i < n → f i ≡ some none)
    → count_below n (λ i. failed_with (λ x. true) (f i)) ≡ 0
nil-none_failed zero f h = refl
nil-none_failed (suc n) f h =
    ground (arith, h n (omega arith), nil-none_failed n f (λ i l. h i (omega (arith, l))))

-- In every interleaving of the services that `run` has started: where `run` has returned, all
-- services have ended; the errors that it joins are those that the services returned, each as
-- often as it was returned; and the exit code of `main` for them is 0 exactly if all services
-- returned nil.
pub joined-Gathers :
    {n : ℕ} {es : List Event} {s : Gathering}
    → Run n es s
    → (errs : List Bytes) → s.joined ≡ some errs
    → Gathers n s errs
unfolding step joined_code
joined-Gathers start errs h = cc
joined-Gathers (after {es} {s} (ends i r) run c) errs h =
    absurd (ground (arith, c, (joined-Gathers run errs h).0 i c.0))
joined-Gathers (after {es} {s} joins run c) errs h =
    let counted : Counted _ s = Run-Counted run in
    subst (Gathers _ (step joins s)) (ground (arith, h)) (
      c.0,
      counted,
      (
        λ z.
            none_failed-nil _ s.result c.0
              (ground (arith, z, counted (λ x. true), count-length s.errors)),
        λ h.
            ground
              (arith, nil-none_failed _ s.result h, counted (λ x. true), count-length s.errors),
      ),
    )
