-- ===== src/Proxy/Http/Sent.antt =====
-- The requests that `upstreamAuthTransport` makes of one request.
use go_packet_repeater.Base.{
  suc, ◌≡◌, ◌≤◌, ◌⊎◌, refl, ap, ◌∙◌, arith, Bool, true, false, not, Option, none, some, [], ◌∷◌,
  ◌++◌, append-nil, Bytes, ◌==◌, text_eq, if◌then◌else◌, length, Result, ok, err, inl, inr, All,
}
use go_packet_repeater.System.{System}
use go_packet_repeater.Config.{ForwardAuthConfig}
use go_packet_repeater.Proxy.Digest.{
  Texts, DigestChallenge, DigestError, find_digest_challenge, build_digest_authorization,
}
use go_packet_repeater.Proxy.Http.{
  Header, values, set, del, Request, Response, Body, no_body, body, broken_body, basic,
  proxy_authorization, proxy_authenticate, status_proxy_auth_required,
}
use go_packet_repeater.Proxy.Http.Headers.{values-del}
use go_packet_repeater.Proxy.Http.Auth.{
  Exchange, read_body, clone_with, round_trip, with_body, first_trip, challenged, second_trip,
}

values-append :
    (name : Bytes) (h h' : Header) → values name (h ++ h') ≡ values name h ++ values name h'
unfolding values
values-append name [] h' = refl
values-append name ((k, v) ∷ h) h' = ground (arith, values-append name h h')

values-set :
    (name n v : Bytes) (h : Header)
    → values name (set n v h) ≡ (if text_eq n name then v ∷ [] else values name h)
unfolding set values
values-set name n v h =
    values-append name (del n h) ((n, v) ∷ [])
    ∙ ground (arith, values-del name n h, append-nil (values name h))

module _ (sys : System) (tx : Texts) (md5 : Bytes → Bytes) (random : Option Bytes)
    (inner : Bool → Request → Result Bytes Response) (auth : ForwardAuthConfig)
    (req : Request) where
  -- What proves the user: the Basic credentials, or the answer to a Digest challenge for this request.
  abbrev pub Proves : Bytes → Type 0
  Proves c =
      (c ≡ basic auth)
      ⊎ ((ch : DigestChallenge) × (build_digest_authorization md5 tx random ch req.method req.url
              auth.user auth.pass
            ≡ ok c))

  -- The request itself, with one header replaced.
  abbrev pub Presents : Request → Type 0
  Presents r =
      (record r { header = req.header } ≡ req)
      × ((c : Bytes) × Proves c
          × ((name : Bytes)
              → values name r.header
                ≡ (if text_eq proxy_authorization name then c ∷ [] else values name req.header)))

  clone_with-Presents :
      (content : Body) (c : Bytes)
      → read_body req.content ≡ ok content
      → Proves c
      → Presents (clone_with req content c)
  unfolding clone_with
  clone_with-Presents content c e p = (
    ap (λ b. record req { content = b }) (read_body-same req.content content e),
    (c, p, λ name. values-set name proxy_authorization c req.header),
  )
    where
      read_body-same : (b b' : Body) → read_body b ≡ ok b' → b' ≡ b
      read_body-same no_body b' e = unfold read_body in cc
      read_body-same (body bs) b' e = unfold read_body in cc
      read_body-same (broken_body x) b' e = unfold read_body in cc

  abbrev Sound : Exchange → Type 0
  Sound x = All Presents x.sent × (length x.sent ≤ suc x.closed) × (x.closed ≤ 1)

  module _ (content : Body) (same : read_body req.content ≡ ok content) where
    first-Presents : Presents (clone_with req content (basic auth))
    first-Presents = clone_with-Presents content (basic auth) same (inl refl)

    second_trip-Sound :
        (ch : DigestChallenge) (r : Result DigestError Bytes)
        → build_digest_authorization md5 tx random ch req.method req.url auth.user auth.pass ≡ r
        → Sound (second_trip sys tx md5 random inner auth req content r)
    unfolding second_trip
    second_trip-Sound ch (err e) h = ((first-Presents, tt), omega arith, omega arith)
    second_trip-Sound ch (ok c) h = (
      (first-Presents, (clone_with-Presents content c same (inr (ch, h)), tt)),
      omega arith,
      omega arith,
    )

    challenged-Sound :
        (resp : Response) (found : Option DigestChallenge)
        → Sound (challenged sys tx md5 random inner auth req content resp found)
    unfolding challenged
    challenged-Sound resp none = ((first-Presents, tt), omega arith, omega arith)
    challenged-Sound resp (some ch) = second_trip-Sound ch _ refl

    first_trip-Sound :
        (r : Result Bytes Response) → Sound (first_trip sys tx md5 random inner auth req content r)
    unfolding first_trip
    first_trip-Sound (err e) = ((first-Presents, tt), omega arith, omega arith)
    first_trip-Sound (ok resp) = by_status (not (resp.status == status_proxy_auth_required))
      where
        by_status :
            (b : Bool)
            → Sound (
                if b
                then record {
                  result = ok resp;
                  sent = clone_with req content (basic auth) ∷ [];
                  closed = 0;
                }
                else challenged sys tx md5 random inner auth req content resp
                    (find_digest_challenge sys tx (values proxy_authenticate resp.header)))
        by_status true = ((first-Presents, tt), omega arith, omega arith)
        by_status false = challenged-Sound resp _

  -- Every request that `upstreamAuthTransport` sends for a request is this request, its body
  -- included, with one Proxy-Authorization line in place of any that it had: the Basic
  -- credentials, or the answer to a Digest challenge for its method and URL. At most one response
  -- is closed, and the requests are at most one more than these.
  pub round_trip-Presents :
      All Presents (round_trip sys tx md5 random inner auth req).sent
      × (length (round_trip sys tx md5 random inner auth req).sent
          ≤ suc (round_trip sys tx md5 random inner auth req).closed)
      × ((round_trip sys tx md5 random inner auth req).closed ≤ 1)
  unfolding round_trip
  round_trip-Presents = by_body (read_body req.content) refl
    where
      by_body :
          (r : Result Bytes Body)
          → read_body req.content ≡ r
          → Sound (with_body sys tx md5 random inner auth req r)
      by_body (err e) h = unfold with_body in (tt, omega arith, omega arith)
      by_body (ok content) h =
          unfold with_body in
          first_trip-Sound content h (inner true (clone_with req content (basic auth)))
