-- ===== src/Proxy/Http/Auth.antt =====
-- `upstreamAuthTransport` of internal/proxy/http.go.
use go_packet_repeater.Base.{
  ℕ, Bool, true, false, not, Option, none, some, List, [], ◌∷◌, Bytes, ◌==◌, if◌then◌else◌, Result,
  ok, err,
}
use go_packet_repeater.System.{System}
use go_packet_repeater.Config.{ForwardAuthConfig}
use go_packet_repeater.Proxy.Digest.{
  Texts, DigestChallenge, DigestError, find_digest_challenge, build_digest_authorization,
}
use go_packet_repeater.Proxy.Http.{
  values, set, Body, no_body, body, broken_body, Request, Response, status_proxy_auth_required,
  basic, proxy_authorization, proxy_authenticate,
}

pub data AuthError : Type 0 where
  unreadable_body inner_failed : Bytes → AuthError
  no_digest : DigestError → AuthError

-- The result, the requests that were handed to the inner transport, and how many of their responses
-- were closed.
pub record Exchange : Type 0 where
  pub result : Result AuthError Response
  pub sent : List Request
  pub closed : ℕ

-- `io.ReadAll(req.Body)`; the clones get what it read
unfoldable pub read_body : Body → Result Bytes Body
read_body no_body = ok no_body
read_body (body bs) = ok (body bs)
read_body (broken_body e) = err e

-- `cloneWithBody`, and `Header.Set` on the clone
unfoldable pub clone_with : Request → Body → Bytes → Request
clone_with req content credentials = record req {
  header = set proxy_authorization credentials req.header;
  content = content;
}

unfoldable pub inner_result : Result Bytes Response → Result AuthError Response
inner_result (ok resp) = ok resp
inner_result (err e) = err (inner_failed e)

module _ (sys : System) (tx : Texts) (md5 : Bytes → Bytes) (random : Option Bytes)
    (inner : Bool → Request → Result Bytes Response) (auth : ForwardAuthConfig)
    (req : Request) where
  -- with the header that answers the challenge
  unfoldable pub second_trip : Body → Result DigestError Bytes → Exchange
  unfolding clone_with inner_result
  second_trip content (err e) = record {
    result = err (no_digest e);
    sent = clone_with req content (basic auth) ∷ [];
    closed = 1;
  }
  second_trip content (ok credentials) = record {
    result = inner_result (inner false (clone_with req content credentials));
    sent = clone_with req content (basic auth) ∷ clone_with req content credentials ∷ [];
    closed = 1;
  }

  -- with the challenge that was found
  unfoldable pub challenged : Body → Response → Option DigestChallenge → Exchange
  unfolding clone_with second_trip
  challenged content resp none = record {
    result = ok resp;
    sent = clone_with req content (basic auth) ∷ [];
    closed = 0;
  }
  challenged content resp (some ch) =
      second_trip content
        (build_digest_authorization md5 tx random ch req.method req.url auth.user auth.pass)

  -- behind the first request
  unfoldable pub first_trip : Body → Result Bytes Response → Exchange
  unfolding clone_with challenged
  first_trip content (err e) = record {
    result = err (inner_failed e);
    sent = clone_with req content (basic auth) ∷ [];
    closed = 0;
  }
  first_trip content (ok resp) =
      if not (resp.status == status_proxy_auth_required)
      then record { result = ok resp; sent = clone_with req content (basic auth) ∷ []; closed = 0 }
      else challenged content resp
          (find_digest_challenge sys tx (values proxy_authenticate resp.header))

  -- behind the reading of the body
  unfoldable pub with_body : Result Bytes Body → Exchange
  unfolding clone_with first_trip
  with_body (err e) = record { result = err (unreadable_body e); sent = []; closed = 0 }
  with_body (ok content) = first_trip content (inner true (clone_with req content (basic auth)))

  -- `RoundTrip`; `inner` gives what the transport makes of the first and of the second request
  unfoldable pub round_trip : Exchange
  unfolding read_body with_body
  round_trip = with_body (read_body req.content)
