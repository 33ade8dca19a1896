-- ===== src/Examples/Http.antt =====
-- An upstream proxy that asks for Digest, and a request that is forwarded through it.
use go_packet_repeater.Base.{
  ℕ, suc, ◌≡◌, ◌≤◌, refl, arith, Bool, true, false, none, some, inr, [], ◌∷◌, Bytes, codes, text_eq,
  length, All, Result, ok, ltb, if◌then◌else◌, ◌==◌,
}
use go_packet_repeater.Config.{ForwardAuthConfig}
use go_packet_repeater.Config.Keyword.{is_ascii, lower_byte}
use go_packet_repeater.Logx.{eof, finished, copy, is_verbose, debug_enabled}
use go_packet_repeater.Proxy.Digest.{
  Texts, DigestChallenge, parse_digest_challenge, build_digest_authorization, equal_fold,
  random_hex,
}
use go_packet_repeater.Proxy.Digest.Params.{is_plain-Plain, is_token-Token}
use go_packet_repeater.Proxy.Digest.Fields.{Sendable}
use go_packet_repeater.Proxy.Digest.ReadBack.{IsText, build-parse}
use go_packet_repeater.Proxy.Http.{
  Request, Response, body, answered, handle_forward, del_all, base64, proxy_authenticate,
}
use go_packet_repeater.Proxy.Http.Headers.{Forwards, handle_forward-Forwards}
use go_packet_repeater.Proxy.Http.Connect.{Contact, ConnectError, answers, dial_upstream_connect}
use go_packet_repeater.Proxy.Http.Closing.{Closed, dial_upstream_connect-Closed}
use go_packet_repeater.Proxy.Http.Auth.{round_trip}
use go_packet_repeater.Proxy.Http.Sent.{Presents, round_trip-Presents}
use go_packet_repeater.Examples.{sys}

abbrev pub texts : Texts
texts = record {
  repaired = λ s. s;
  trim_unicode = λ s. s;
  fold_unicode = λ a b. text_eq a b;
  quote_unicode = λ s. s;
}

-- a digest of one byte
abbrev pub md5 : Bytes → Bytes
md5 s = (if ltb (length s) 200 then 171 else 205) ∷ []

md5-IsText : (s : Bytes) → IsText (md5 s)
md5-IsText s = (ground arith, tt)

abbrev pub random : Bytes
random = 7 ∷ 200 ∷ []

random-IsText : IsText random
random-IsText = (omega arith, (omega arith, tt))

abbrev pub auth : ForwardAuthConfig
auth = record { user = codes "joe"; pass = codes "x" }

abbrev challenge : DigestChallenge
challenge = record {
  realm = codes "a, b";
  nonce = codes "n=1";
  opaque = codes "o";
  algorithm = codes "MD5";
  qop = codes "auth";
}

sendable : Sendable challenge (codes "h:1") (codes "joe")
sendable = record {
  user_plain = is_plain-Plain (codes "joe") refl;
  realm_plain = is_plain-Plain (codes "a, b") refl;
  nonce_plain = is_plain-Plain (codes "n=1") refl;
  nonce_given = refl;
  opaque_plain = is_plain-Plain (codes "o") refl;
  uri_plain = is_plain-Plain (codes "h:1") refl;
  algorithm_token = is_token-Token (codes "MD5") refl;
  qop_known = inr refl;
}

built :
    (header : Bytes) × (build_digest_authorization md5 texts
        (some random)
        challenge
        (codes "CONNECT")
        (codes "h:1")
        (codes "joe")
        (codes "x")
      ≡ ok header)
unfolding build_digest_authorization equal_fold is_ascii lower_byte text_eq random_hex
built = (_, refl)

build-parse_example : parse_digest_challenge sys texts built.0 ≡ some challenge
build-parse_example =
    build-parse sys texts md5 md5-IsText random random-IsText challenge (codes "CONNECT")
      (codes "h:1") (codes "joe") (codes "x") sendable built.1

encodes : base64 (codes "joe:x") ≡ codes "am9lOng="
unfolding base64
encodes = refl

-- The proxy refuses the first request with a challenge, and accepts the second.
abbrev pub asks : Response
asks = record {
  status = 407;
  header = (proxy_authenticate, codes "Digest realm=a, nonce=n") ∷ [];
  content = [];
}

abbrev pub accepts : Response
accepts = record {
  status = 200;
  header =
      (codes "Connection", codes "close") ∷ (codes "X", codes "1") ∷ (codes "X", codes "2") ∷ [];
  content = record { bytes = codes "hi"; status = eof } ∷ [];
}

abbrev contacts : ℕ → Contact
contacts i = if i == 0 then answers asks else answers accepts

dial_upstream_connect-Closed_example :
    Closed contacts (dial_upstream_connect sys texts md5 (some random) contacts (codes "h:1") auth)
dial_upstream_connect-Closed_example =
    dial_upstream_connect-Closed sys texts md5 (some random) contacts (codes "h:1") auth

abbrev pub request : Request
request = record {
  method = codes "POST";
  url = codes "http://h/";
  is_abs = true;
  host = codes "h";
  header = (codes "Proxy-Authorization", codes "Basic ?") ∷ (codes "X", codes "0") ∷ [];
  content = body (codes "text");
}

abbrev inner : Bool → Request → Result Bytes Response
inner is_first r = ok (if is_first then asks else accepts)

round_trip-Presents_example :
    All
      (Presents sys texts md5 (some random) inner auth request)
      (round_trip sys texts md5 (some random) inner auth request).sent
    × (length (round_trip sys texts md5 (some random) inner auth request).sent
        ≤ suc (round_trip sys texts md5 (some random) inner auth request).closed)
    × ((round_trip sys texts md5 (some random) inner auth request).closed ≤ 1)
round_trip-Presents_example = round_trip-Presents sys texts md5 (some random) inner auth request

handle_forward-Forwards_example :
    Forwards (inner false) request (handle_forward none (inner false) [] [] request)
handle_forward-Forwards_example = handle_forward-Forwards none (inner false) [] request

drops_hop_by_hop :
    (handle_forward none (inner false) [] [] request)
    ≡ answered
        (record request { header = (codes "X", codes "0") ∷ [] })
        200
        ((codes "X", codes "1") ∷ (codes "X", codes "2") ∷ [])
        (record { total = 2; end = finished; delivered = codes "hi" }, [])
unfolding handle_forward text_eq copy is_verbose debug_enabled del_all
drops_hop_by_hop = refl

abbrev tunnels : Result ConnectError ℕ
tunnels = (dial_upstream_connect sys texts md5 (some random) contacts (codes "h:1") auth).0
