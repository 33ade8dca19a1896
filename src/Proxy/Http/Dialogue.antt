-- ===== src/Proxy/Http/Dialogue.antt =====
-- `dialUpstreamConnect` and `handleConnect` of internal/proxy/http.go at the two ends of one
-- connection.
use go_packet_repeater.Base.{
  ℕ, ◌≡◌, refl, ◌∙◌, Bool, true, false, ◌&&◌, Option, [], Bytes, if◌then◌else◌, ok, err, ◌==◌,
}
use go_packet_repeater.System.{System}
use go_packet_repeater.Config.{Mode, ForwardAuthConfig}
use go_packet_repeater.Proxy.Digest.{Texts}
use go_packet_repeater.Proxy.Socks.Server.{Dial}
use go_packet_repeater.Proxy.Http.{tunnel_of, status_ok, status_proxy_auth_required}
use go_packet_repeater.Proxy.Http.Connect.{
  Contact, no_dials, unreadable, answers, Tunnel, connect_message, dial_upstream_connect,
  first_answer, connect_attempt, attempt,
}
use go_packet_repeater.Proxy.Http.Tunnel.{
  Hijack, unsupported, failed, hijacked, Connected, refused, unanswered, tunnelled, handle_connect,
}

-- What `http.Error` or the written answer of `handleConnect` is to its client; without an answer the
-- connection is closed.
abbrev pub contact_of : Connected → Contact
contact_of (refused status) = answers (record { status = status; header = []; content = [] })
contact_of (tunnelled dial) = answers (record { status = status_ok; header = []; content = [] })
contact_of (unanswered dial) = unreadable

abbrev pub succeeds : Tunnel → Bool
succeeds (ok i, d) = true
succeeds (err e, d) = false

abbrev pub tunnels : Connected → Bool
tunnels (tunnelled dial) = true
tunnels _ = false

-- The client's connection is taken over, and the answer is written.
abbrev pub opens : Hijack → Bool
opens (hijacked is_written) = is_written
opens _ = false

tunnels-opens :
    (h : Hijack) (b : Bool) (dial : Dial)
    → tunnels (
        if b
        then elim h [
          | unsupported ↦ refused 500
          | failed ↦ refused 500
          | hijacked true ↦ tunnelled dial
          | hijacked false ↦ unanswered dial
        ]
        else refused 502)
      ≡ (opens h && b)
tunnels-opens unsupported false dial = refl
tunnels-opens unsupported true dial = refl
tunnels-opens failed false dial = refl
tunnels-opens failed true dial = refl
tunnels-opens (hijacked true) false dial = refl
tunnels-opens (hijacked true) true dial = refl
tunnels-opens (hijacked false) false dial = refl
tunnels-opens (hijacked false) true dial = refl

-- Neither a success nor a challenge.
abbrev Final : Connected → Type 0
Final (refused status) =
    (status == status_ok ≡ false) × (status == status_proxy_auth_required ≡ false)
Final _ = Unit

handle_connect-Final :
    (upstream : Bytes) (kind : Mode) (reaches : Dial → Bool) (hijack : Hijack) (target : Bytes)
    → Final (handle_connect upstream kind reaches hijack target)
unfolding handle_connect
handle_connect-Final upstream kind reaches hijack target =
    by_dial (reaches (tunnel_of upstream kind target)) hijack
  where
    by_dial :
        (b : Bool) (h : Hijack)
        → Final (
            if b
            then elim h [
              | unsupported ↦ refused 500
              | failed ↦ refused 500
              | hijacked true ↦ tunnelled (tunnel_of upstream kind target)
              | hijacked false ↦ unanswered (tunnel_of upstream kind target)
            ]
            else refused 502)
    by_dial false h = (refl, refl)
    by_dial true unsupported = (refl, refl)
    by_dial true failed = (refl, refl)
    by_dial true (hijacked true) = tt
    by_dial true (hijacked false) = tt

module _ (sys : System) (tx : Texts) (md5 : Bytes → Bytes) (random : Option Bytes) where
  first_answer-tunnels :
      (contacts : ℕ → Contact) (target : Bytes) (auth : ForwardAuthConfig) (header : Bytes)
      (c : Connected)
      → Final c
      → succeeds (
          first_answer sys tx md5 random contacts target auth
            (attempt (contact_of c) target header no_dials))
        ≡ tunnels c
  unfolding first_answer attempt
  first_answer-tunnels contacts target auth header (refused status) (e, e') = rw (e, e') refl
  first_answer-tunnels contacts target auth header (unanswered dial) h = refl
  first_answer-tunnels contacts target auth header (tunnelled dial) h = refl

  -- Whether `dialUpstreamConnect` gets a tunnel from a gopr that listens as an HTTP proxy.
  unfoldable pub dials_gopr :
      ForwardAuthConfig → Bytes → Mode → (Dial → Bool) → Hijack → Bytes → Bool
  dials_gopr auth upstream kind reaches hijack target = succeeds (
      dial_upstream_connect sys tx md5 random
        (λ i.
          contact_of (handle_connect upstream kind reaches hijack (connect_message target []).host))
        target auth)

  dials_gopr-tunnels :
      (auth : ForwardAuthConfig) (upstream : Bytes) (kind : Mode) (reaches : Dial → Bool)
      (hijack : Hijack) (target : Bytes)
      → dials_gopr auth upstream kind reaches hijack target
        ≡ tunnels (handle_connect upstream kind reaches hijack target)
  unfolding dials_gopr dial_upstream_connect connect_attempt connect_message
  dials_gopr-tunnels auth upstream kind reaches hijack target =
      first_answer-tunnels _ target auth _ (handle_connect upstream kind reaches hijack target)
        (handle_connect-Final upstream kind reaches hijack target)

  pub dials_gopr-opens :
      (auth : ForwardAuthConfig) (upstream : Bytes) (kind : Mode) (reaches : Dial → Bool)
      (hijack : Hijack) (target : Bytes)
      → dials_gopr auth upstream kind reaches hijack target
        ≡ (opens hijack && reaches (tunnel_of upstream kind target))
  unfolding handle_connect
  dials_gopr-opens auth upstream kind reaches hijack target =
      dials_gopr-tunnels auth upstream kind reaches hijack target
      ∙ tunnels-opens hijack _ (tunnel_of upstream kind target)
