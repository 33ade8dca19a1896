-- ===== src/Proxy/Http/Connect.antt =====
-- `dialUpstreamConnect` and `connectAttempt` of internal/proxy/http.go: which connections are made to
-- the upstream proxy, what is asked on them, and which of them are closed.
use go_packet_repeater.Base.{
  ℕ, suc, Bool, true, false, not, ◌||◌, Option, none, some, List, [], ◌∷◌, ◌++◌, Bytes, codes, ◌==◌,
  if◌then◌else◌, is_empty, Result, ok, err,
}
use go_packet_repeater.System.{System}
use go_packet_repeater.Config.{ForwardAuthConfig}
use go_packet_repeater.Proxy.Digest.{
  Texts, DigestChallenge, DigestError, find_digest_challenge, build_digest_authorization,
}
use go_packet_repeater.Proxy.Http.{
  values, set, Request, no_body, Response, status_ok, status_proxy_auth_required, basic,
  proxy_authorization, proxy_authenticate,
}

-- What a dial of the upstream meets: no connection; one on which the request cannot be written, or no
-- response can be read; or a response.
pub data Contact : Type 0 where
  unreachable unwritable unreadable : Contact
  answers : Response → Contact

-- The dials so far, which of their connections are open, and the requests that `Write` was called for.
pub record Dialer : Type 0 where
  pub made : ℕ
  pub is_open : ℕ → Bool
  pub asked : List Request

pub data ConnectError : Type 0 where
  no_dial not_written not_read : ConnectError
  refused : ℕ → ConnectError
  no_digest : DigestError → ConnectError

abbrev pub no_dials : Dialer
no_dials = record { made = 0; is_open = λ i. false; asked = [] }

-- `conn.Close()`
unfoldable pub close : ℕ → Dialer → Dialer
close i d = record d { is_open = λ j. if j == i then false else d.is_open j }

-- the request of `connectAttempt`
unfoldable pub connect_message : Bytes → Bytes → Request
connect_message target auth_header = record {
  method = codes "CONNECT";
  url = target;
  is_abs = true;
  host = target;
  header = if not (is_empty auth_header) then set proxy_authorization auth_header [] else [];
  content = no_body;
}

abbrev pub Attempt : Type 0
Attempt = Result ConnectError (ℕ × Response) × Dialer

-- A dial that gives a connection, on which the request is written.
unfoldable pub dialed : Bytes → Bytes → Dialer → Dialer
unfolding connect_message
dialed target auth_header d = record {
  made = suc d.made;
  is_open = λ j. if j == d.made then true else d.is_open j;
  asked = d.asked ++ connect_message target auth_header ∷ [];
}

-- `connectAttempt`; the connection is named by the number of its dial
unfoldable pub attempt : Contact → Bytes → Bytes → Dialer → Attempt
unfolding close dialed
attempt unreachable target auth_header d = (err no_dial, record d { made = suc d.made })
attempt unwritable target auth_header d =
    (err not_written, close d.made (dialed target auth_header d))
attempt unreadable target auth_header d = (err not_read, close d.made (dialed target auth_header d))
attempt (answers resp) target auth_header d = (ok (d.made, resp), dialed target auth_header d)

unfoldable pub connect_attempt : (ℕ → Contact) → Bytes → Bytes → Dialer → Attempt
unfolding attempt
connect_attempt contacts target auth_header d = attempt (contacts d.made) target auth_header d

abbrev pub Tunnel : Type 0
Tunnel = Result ConnectError ℕ × Dialer

-- behind the second attempt
unfoldable pub second_answer : Attempt → Tunnel
unfolding close
second_answer (err e, d) = (err e, d)
second_answer (ok (i, resp), d) =
    if not (resp.status == status_ok) then (err (refused resp.status), close i d) else (ok i, d)

-- with the header that answers the challenge
unfoldable pub answer_digest : (ℕ → Contact) → Bytes → Dialer → Result DigestError Bytes → Tunnel
answer_digest contacts target d (err e) = (err (no_digest e), d)
answer_digest contacts target d (ok header) =
    second_answer (connect_attempt contacts target header d)

module _ (sys : System) (tx : Texts) (md5 : Bytes → Bytes) (random : Option Bytes)
    (contacts : ℕ → Contact) (target : Bytes) (auth : ForwardAuthConfig) where
  -- with the challenge that was found
  unfoldable pub answer_challenge : ℕ → Dialer → Option DigestChallenge → Tunnel
  answer_challenge status d none = (err (refused status), d)
  answer_challenge status d (some ch) =
      answer_digest contacts target d
        (build_digest_authorization md5 tx random ch (codes "CONNECT") target auth.user auth.pass)

  -- behind the first attempt
  unfoldable pub first_answer : Attempt → Tunnel
  unfolding close answer_challenge
  first_answer (err e, d) = (err e, d)
  first_answer (ok (i, resp), d) =
      if resp.status == status_ok
      then (ok i, d)
      else if not (resp.status == status_proxy_auth_required) || is_empty auth.user
      then (err (refused resp.status), close i d)
      else answer_challenge resp.status (close i d)
          (find_digest_challenge sys tx (values proxy_authenticate resp.header))

  -- `dialUpstreamConnect`
  unfoldable pub dial_upstream_connect : Tunnel
  unfolding first_answer connect_attempt
  dial_upstream_connect =
      let auth_header = if not (is_empty auth.user) then basic auth else [] in
      first_answer (connect_attempt contacts target auth_header no_dials)
