-- ===== src/Proxy/Http/Closing.antt =====
-- The connections that `dialUpstreamConnect` makes.
use go_packet_repeater.Base.{
  ℕ, suc, ◌≡◌, ◌≤◌, ◌⊎◌, refl, arith, Bool, true, false, not, ◌||◌, Option, none, some, [], Bytes,
  ◌==◌, if◌then◌else◌, is_empty, Result, ok, err, Bool-cases, inl, inr,
}
use go_packet_repeater.System.{System}
use go_packet_repeater.Config.{ForwardAuthConfig}
use go_packet_repeater.Proxy.Digest.{Texts, DigestChallenge, DigestError, find_digest_challenge}
use go_packet_repeater.Proxy.Http.{
  Response, basic, values, status_proxy_auth_required, proxy_authenticate,
}
use go_packet_repeater.Proxy.Http.Connect.{
  Contact, unreachable, unwritable, unreadable, answers, Dialer, no_dials, close, dialed, attempt,
  connect_attempt, Attempt, Tunnel, second_answer, answer_digest, answer_challenge, first_answer,
  dial_upstream_connect, refused,
}

abbrev AllClosed : Dialer → Type 0
AllClosed d = (i : ℕ) → d.is_open i ≡ false

abbrev OnlyOpen : ℕ → Dialer → Type 0
OnlyOpen i d = (j : ℕ) → d.is_open j ≡ (j == i)

close-AllClosed : (i : ℕ) (d : Dialer) → OnlyOpen i d → AllClosed (close i d)
unfolding close
close-AllClosed i d h j = ground (arith, h j)

module _ (contacts : ℕ → Contact) where
  abbrev Attempted : ℕ → Attempt → Type 0
  Attempted n (err e, d) = (d.made ≡ n) × AllClosed d
  Attempted n (ok (i, resp), d) = (d.made ≡ n) × OnlyOpen i d × (contacts i ≡ answers resp)

  connect_attempt-Attempted :
      (target auth_header : Bytes) (d : Dialer)
      → AllClosed d
      → Attempted (suc d.made) (connect_attempt contacts target auth_header d)
  unfolding connect_attempt
  connect_attempt-Attempted target auth_header d h = by_contact (contacts d.made) refl
    where
      by_contact :
          (c : Contact)
          → contacts d.made ≡ c
          → Attempted (suc d.made) (attempt c target auth_header d)
      by_contact unreachable e = unfold attempt in (refl, h)
      by_contact unwritable e = unfold attempt close dialed in (refl, λ j. ground (arith, h j))
      by_contact unreadable e = unfold attempt close dialed in (refl, λ j. ground (arith, h j))
      by_contact (answers resp) e = unfold attempt dialed in (refl, (λ j. ground (arith, h j)), e)

  -- At most two dials; no connection is left open but the one that is returned, on which the
  -- upstream answered with 200.
  abbrev pub Closed : Tunnel → Type 0
  Closed (err e, d) = (d.made ≤ 2) × ((i : ℕ) → d.is_open i ≡ false)
  Closed (ok i, d) =
      (d.made ≤ 2)
      × ((j : ℕ) → d.is_open j ≡ (j == i))
      × ((resp : Response) × (contacts i ≡ answers resp) × (resp.status ≡ 200))

  second_answer-Closed : (n : ℕ) → n ≤ 2 → (a : Attempt) → Attempted n a → Closed (second_answer a)
  unfolding second_answer close
  second_answer-Closed n l (err e, d) h = (omega (arith, l, h.0), h.1)
  second_answer-Closed n l (ok (i, resp), d) h = by_status (Bool-cases (resp.status == 200))
    where
      by_status :
          (resp.status == 200 ≡ true) ⊎ (resp.status == 200 ≡ false)
          → Closed (
              if not (resp.status == 200)
              then (err (refused resp.status), close i d)
              else (ok i, d))
      by_status (inl e) = rw e (omega (arith, l, h.0), h.1, (resp, h.2, ground (arith, e)))
      by_status (inr e) = rw e (omega (arith, l, h.0), close-AllClosed i d h.1)

module _ (sys : System) (tx : Texts) (md5 : Bytes → Bytes) (random : Option Bytes)
    (contacts : ℕ → Contact) (target : Bytes) (auth : ForwardAuthConfig) where
  answer_digest-Closed :
      (d : Dialer) (r : Result DigestError Bytes)
      → d.made ≡ 1
      → AllClosed d
      → Closed contacts (answer_digest contacts target d r)
  unfolding answer_digest
  answer_digest-Closed d (err e) m h = (omega (arith, m), h)
  answer_digest-Closed d (ok header) m h =
      second_answer-Closed contacts (suc d.made) (omega (arith, m)) _
        (connect_attempt-Attempted contacts target header d h)

  answer_challenge-Closed :
      (status : ℕ) (d : Dialer) (found : Option DigestChallenge)
      → d.made ≡ 1
      → AllClosed d
      → Closed contacts (answer_challenge sys tx md5 random contacts target auth status d found)
  unfolding answer_challenge
  answer_challenge-Closed status d none m h = (omega (arith, m), h)
  answer_challenge-Closed status d (some ch) m h = answer_digest-Closed d _ m h

  first_answer-Closed :
      (a : Attempt)
      → Attempted contacts 1 a
      → Closed contacts (first_answer sys tx md5 random contacts target auth a)
  unfolding first_answer close
  first_answer-Closed (err e, d) h = (omega (arith, h.0), h.1)
  first_answer-Closed (ok (i, resp), d) h = by_status (Bool-cases (resp.status == 200))
    where
      refused_or_retried : Tunnel
      refused_or_retried =
          if not (resp.status == status_proxy_auth_required) || is_empty auth.user
          then (err (refused resp.status), close i d)
          else answer_challenge sys tx md5 random contacts target auth resp.status (close i d)
              (find_digest_challenge sys tx (values proxy_authenticate resp.header))

      closed : AllClosed (close i d)
      closed = close-AllClosed i d h.1

      by_user :
          (b : Bool)
          → Closed contacts (
              if b
              then (err (refused resp.status), close i d)
              else answer_challenge sys tx md5 random contacts target auth resp.status
                  (close i d)
                  (find_digest_challenge sys tx (values proxy_authenticate resp.header)))
      by_user true = (omega (arith, h.0), closed)
      by_user false = answer_challenge-Closed resp.status (close i d) _ h.0 closed

      by_status :
          (resp.status == 200 ≡ true) ⊎ (resp.status == 200 ≡ false)
          → Closed contacts (if resp.status == 200 then (ok i, d) else refused_or_retried)
      by_status (inl e) = rw e (omega (arith, h.0), h.1, (resp, h.2, ground (arith, e)))
      by_status (inr e) =
          rw e (by_user (not (resp.status == status_proxy_auth_required) || is_empty auth.user))

  -- Whatever its dials meet, `dialUpstreamConnect` makes at most two of them. If it returns an
  -- error, every connection is closed; if it returns a connection, all others are closed, this
  -- one is open, and the upstream answered on it with 200.
  pub dial_upstream_connect-Closed :
      Closed contacts (dial_upstream_connect sys tx md5 random contacts target auth)
  unfolding dial_upstream_connect
  dial_upstream_connect-Closed = first_answer-Closed _ (
      connect_attempt-Attempted contacts target
        (if not (is_empty auth.user) then basic auth else []) no_dials (λ i. refl))
