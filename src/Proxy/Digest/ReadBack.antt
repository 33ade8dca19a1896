-- ===== src/Proxy/Digest/ReadBack.antt =====
-- The header that answers a challenge, read back.
use go_packet_repeater.Base.{
  ◌≡◌, ◌<◌, inl, inr, arith, refl, sym, ap, ◌∙◌, subst, false, some, [], ◌∷◌, ◌++◌, Bytes, codes,
  text_eq, if◌then◌else◌, is_empty, contains, contains-Lacks, cut, join, trim, trim_left, All, ok,
  Bool-cases,
}
use go_packet_repeater.System.{System}
use go_packet_repeater.Config.Keyword.{is_ascii, to_lower, lower_byte}
use go_packet_repeater.Proxy.Digest.{
  Texts, DigestChallenge, no_challenge, split_params, split_auth_params, set_param, set_params,
  set_field, trim_space, is_space, quote, hex, equal_fold, cut_or_all, parse_digest_challenge, nc,
  random_hex, response, md5_hex, ha1, build_digest_authorization,
}
use go_packet_repeater.Proxy.Digest.Params.{
  Plain, quote-Plain, Balanced, quoted-Balanced, Balanced-append, Lacks-Plain, Gives, set_param_at,
  trim-quoted,
}
use go_packet_repeater.Proxy.Digest.Answer.{hex-Plain, Named-Balanced}
use go_packet_repeater.Proxy.Digest.Solid.{Solid, append-Solid, quote-Solid, trim_space-Solid}
use go_packet_repeater.Proxy.Digest.Fields.{Sendable, fields, fields-Solid, fields-Gives}

set_params-split :
    (sys : System) (tx : Texts) (p t : Bytes) (ch ch' : DigestChallenge)
    → Balanced p
    → is_empty p ≡ false
    → set_param sys tx ch p ≡ ch
    → Gives sys tx t ch ch'
    → set_params sys tx ch (split_params false [] (p ++ t)) ≡ ch'
unfolding Balanced Gives
set_params-split sys tx p t ch ch' b n e g = ap (set_params sys tx ch) (b [] t) ∙ g ch p n e

username_ignored :
    (sys : System) (tx : Texts) (user : Bytes)
    → Plain user
    → set_param sys tx no_challenge (codes "username=" ++ quote tx user) ≡ no_challenge
unfolding set_field text_eq contains to_lower trim_space trim trim_left is_space is_ascii lower_byte
username_ignored sys tx user p =
    ap (λ q. set_param sys tx no_challenge (codes "username=" ++ q)) (quote-Plain tx user p)
    ∙ set_param_at sys tx no_challenge (codes "username") (codes "username") _ user
        (contains-Lacks b'=' (codes "username") refl) refl (trim-quoted sys tx user p)

username-Balanced :
    (sys : System) (tx : Texts) (user : Bytes)
    → Plain user
    → Balanced (codes "username=" ++ quote tx user)
unfolding contains
username-Balanced sys tx user p =
    subst (λ q. Balanced (codes "username=" ++ q)) (sym (quote-Plain tx user p))
      (Balanced-append (codes "username=") _ (Named-Balanced sys tx (codes "username") refl refl)
        (quoted-Balanced user (Lacks-Plain user p)))

header-read :
    (sys : System) (tx : Texts) (ch : DigestChallenge) (user rest : Bytes)
    → Plain user
    → is_empty ch.nonce ≡ false
    → Solid rest
    → Gives sys tx rest no_challenge ch
    → parse_digest_challenge sys tx (codes "Digest username=" ++ (quote tx user ++ rest)) ≡ some ch
unfolding parse_digest_challenge split_auth_params cut_or_all cut equal_fold
header-read sys tx ch user rest p n s g =
    let params = codes "username=" ++ (quote tx user ++ rest) in
    let solid : Solid params =
      append-Solid (codes "username=") _ (unfold is_ascii in refl)
        (append-Solid (quote tx user) rest (quote-Solid tx user p).ascii s) in
    let trimmed =
      trim_space-Solid tx b'D' (codes "igest " ++ params) (unfold is_space in refl)
        (unfold is_ascii in refl)
        (append-Solid (codes "igest ") params (unfold is_ascii in refl) solid) in
    let gives =
      set_params-split sys tx (codes "username=" ++ quote tx user) rest no_challenge ch
        (username-Balanced sys tx user p) refl (username_ignored sys tx user p) g in
    rw (trimmed, solid.ascii, gives, n) (unfold is_ascii text_eq lower_byte in refl)

-- Bytes, as MD5 and `rand.Read` give them.
abbrev pub IsText : Bytes → Type 0
IsText = All (λ b. b < 256)

-- What `buildDigestAuthorization` returns.
build-ok :
    (tx : Texts) (md5 : Bytes → Bytes) (bytes : Bytes) (ch : DigestChallenge)
    (method uri user pass : Bytes) {header : Bytes}
    → build_digest_authorization md5 tx (some bytes) ch method uri user pass ≡ ok header
    → header ≡ (
        let algorithm = if is_empty ch.algorithm then codes "MD5" else ch.algorithm in
        let h1 = ha1 md5 tx ch algorithm user pass (hex bytes) in
        let reply = response md5 ch h1 (md5_hex md5 (method ++ b':' ∷ uri)) (hex bytes) in
        codes "Digest username=" ++ (quote tx user ++ fields tx ch uri reply algorithm (hex bytes)))
unfolding build_digest_authorization random_hex
build-ok tx md5 bytes ch method uri user pass e = ground (arith, e)

response-Plain :
    (md5 : Bytes → Bytes)
    → ((s : Bytes) → IsText (md5 s))
    → (ch : DigestChallenge) (h1 h2 cnonce : Bytes) → Plain (response md5 ch h1 h2 cnonce)
unfolding response md5_hex
response-Plain md5 m ch h1 h2 cnonce = elim (Bool-cases (is_empty ch.qop)) [
  | inl e ↦ rw e (hex-Plain (md5 (h1 ++ b':' ∷ (ch.nonce ++ b':' ∷ h2))) (m _))
  | inr e ↦
      rw e (hex-Plain (md5 (join b':' (h1 ∷ ch.nonce ∷ nc ∷ cnonce ∷ ch.qop ∷ h2 ∷ []))) (m _))
]

-- From a header that `buildDigestAuthorization` returns, `parseDigestChallenge` reads back the
-- challenge that it answers: realm, nonce, opaque, algorithm and qop. The user, the URI, the
-- realm, the nonce, which is not empty, and the opaque are printable ASCII without quotes and
-- backslashes, the algorithm has no space, quote or comma, the qop is missing or auth; MD5 and
-- the random source give bytes.
pub build-parse :
    (sys : System) (tx : Texts) (md5 : Bytes → Bytes)
    → ((s : Bytes) → IsText (md5 s))
    → (bytes : Bytes) → IsText bytes
    → (ch : DigestChallenge) (method uri user pass : Bytes) {header : Bytes} → Sendable ch uri user
    → build_digest_authorization md5 tx (some bytes) ch method uri user pass ≡ ok header
    → parse_digest_challenge sys tx header ≡ some ch
build-parse sys tx md5 m bytes random ch method uri user pass v e =
    let cnonce = hex bytes in
    let algorithm = if is_empty ch.algorithm then codes "MD5" else ch.algorithm in
    let h1 = ha1 md5 tx ch algorithm user pass cnonce in
    let h2 = md5_hex md5 (method ++ b':' ∷ uri) in
    let reply = response md5 ch h1 h2 cnonce in
    let plain = response-Plain md5 m ch h1 h2 cnonce in
    let same : is_empty ch.algorithm ≡ false → algorithm ≡ ch.algorithm = λ n. rw n refl in
    ap (parse_digest_challenge sys tx) (build-ok tx md5 bytes ch method uri user pass e)
    ∙ header-read sys tx ch user (fields tx ch uri reply algorithm cnonce) v.user_plain
        v.nonce_given
        (fields-Solid sys tx ch uri user reply algorithm cnonce v plain (hex-Plain bytes random)
          same)
        (fields-Gives sys tx ch uri user reply algorithm cnonce v plain (hex-Plain bytes random)
          same)
