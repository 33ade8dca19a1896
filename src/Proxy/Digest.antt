-- ===== src/Proxy/Digest.antt =====
-- internal/proxy/digest.go: the Digest challenges of a proxy, and the answer to one. What Go does to
-- a byte outside ASCII, MD5 and the random bytes are parameters.
mod GoText
pub mod Params
pub mod Answer
pub mod Optional
pub mod Solid
pub mod Fields
pub mod ReadBack
use go_packet_repeater.Base.{
  ℕ, ◌+◌, ◌-◌, ◌/◌, ◌%◌, Bool, true, false, not, ◌&&◌, ◌||◌, Option, none, some, List, [], ◌∷◌,
  ◌++◌, map, Bytes, codes, ltb, leb, ◌==◌, if◌then◌else◌, is_empty, text_eq, cut, split, join, trim,
  Result, ok, err, fail_if, ◌>>=◌, ◌>>◌,
}
use go_packet_repeater.System.{System}
use go_packet_repeater.Config.Keyword.{lower_byte, is_ascii, to_lower}
unfoldable pub use GoText.*

pub record DigestChallenge : Type 0 where
  pub realm : Bytes
  pub nonce : Bytes
  pub opaque : Bytes
  pub algorithm : Bytes
  pub qop : Bytes

abbrev pub no_challenge : DigestChallenge
no_challenge = record { realm = []; nonce = []; opaque = []; algorithm = []; qop = [] }

-- the loop of `splitAuthParams`, with `inQuotes` and `cur`
unfoldable pub split_params : Bool → Bytes → Bytes → List Bytes
split_params in_quotes cur [] = if is_empty cur then [] else cur ∷ []
split_params in_quotes cur (r ∷ s) = elim (r == b'"') [
  | true ↦ split_params (not in_quotes) (cur ++ r ∷ []) s
  | false ↦ elim (r == b',' && not in_quotes) [
    | true ↦ cur ∷ split_params in_quotes [] s
    | false ↦ split_params in_quotes (cur ++ r ∷ []) s
  ]
]

unfoldable pub split_auth_params : Texts → Bytes → List Bytes
unfolding split_params
split_auth_params tx s = split_params false [] (if is_ascii s then s else tx.repaired s)

-- `strings.Cut`
unfoldable pub cut_or_all : ℕ → Bytes → Bytes × Bytes
cut_or_all c s = elim (cut c s) [ none ↦ (s, []) | some halves ↦ halves ]

offers_auth : Texts → List Bytes → Bool
offers_auth tx [] = false
offers_auth tx (q ∷ qs) = text_eq (trim_space tx q) (codes "auth") || offers_auth tx qs

-- the `switch` on the name of a parameter
unfoldable pub set_field : Texts → Bytes → Bytes → DigestChallenge → DigestChallenge
unfolding offers_auth
set_field tx key value ch =
    if text_eq key (codes "realm")
    then record ch { realm = value }
    else if text_eq key (codes "nonce")
    then record ch { nonce = value }
    else if text_eq key (codes "opaque")
    then record ch { opaque = value }
    else if text_eq key (codes "algorithm")
    then record ch { algorithm = value }
    else if text_eq key (codes "qop") && offers_auth tx (split b',' value)
    then record ch { qop = codes "auth" }
    else ch

-- a round of the loop of `parseDigestChallenge`
unfoldable pub set_param : System → Texts → DigestChallenge → Bytes → DigestChallenge
unfolding set_field
set_param sys tx ch param = elim (cut b'=' param) [
  | none ↦ ch
  | some (key, value) ↦
      set_field tx (to_lower sys (trim_space tx key)) (trim is_quote (trim_space tx value)) ch
]

unfoldable pub set_params : System → Texts → DigestChallenge → List Bytes → DigestChallenge
set_params sys tx ch [] = ch
set_params sys tx ch (p ∷ ps) = set_params sys tx (set_param sys tx ch p) ps

-- `none` where the source's second result is false
unfoldable pub parse_digest_challenge : System → Texts → Bytes → Option DigestChallenge
parse_digest_challenge sys tx header =
    let (scheme, rest) = cut_or_all b' ' (trim_space tx header) in
    let ch = set_params sys tx no_challenge (split_auth_params tx rest) in
    if not (equal_fold tx scheme (codes "Digest"))
    then none
    else if is_empty ch.nonce
    then none
    else some ch

unfoldable pub find_digest_challenge : System → Texts → List Bytes → Option DigestChallenge
find_digest_challenge sys tx [] = none
find_digest_challenge sys tx (h ∷ hs) = elim (parse_digest_challenge sys tx h) [
  | some ch ↦ some ch
  | none ↦ find_digest_challenge sys tx hs
]

pub data DigestError : Type 0 where
  unsupported_algorithm : Bytes → DigestError
  no_random : DigestError

abbrev pub nc : Bytes
nc = codes "00000001"

unfoldable pub opaque_part : Texts → DigestChallenge → Bytes
opaque_part tx ch = if not (is_empty ch.opaque) then codes ", opaque=" ++ quote tx ch.opaque else []

unfoldable pub algorithm_part : DigestChallenge → Bytes → Bytes
algorithm_part ch algorithm =
    if not (is_empty ch.algorithm) then codes ", algorithm=" ++ algorithm else []

unfoldable pub qop_part : Texts → DigestChallenge → Bytes → Bytes
qop_part tx ch cnonce =
    if not (is_empty ch.qop)
    then codes ", qop="
      ++ (ch.qop ++ (codes ", nc=" ++ (nc ++ (codes ", cnonce=" ++ quote tx cnonce))))
    else []

module _ (md5 : Bytes → Bytes) where
  unfoldable pub md5_hex : Bytes → Bytes
  md5_hex s = hex (md5 s)

  -- `randomHex(16)`, with the bytes that `rand.Read` gives
  unfoldable pub random_hex : Option Bytes → Result DigestError Bytes
  random_hex none = err no_random
  random_hex (some bytes) = ok (hex bytes)

  unfoldable pub ha1 : Texts → DigestChallenge → Bytes → Bytes → Bytes → Bytes → Bytes
  ha1 tx ch algorithm user pass cnonce =
      let h = md5_hex (user ++ b':' ∷ (ch.realm ++ b':' ∷ pass)) in
      if equal_fold tx algorithm (codes "MD5-sess")
      then md5_hex (h ++ b':' ∷ (ch.nonce ++ b':' ∷ cnonce))
      else h

  unfoldable pub response : DigestChallenge → (h1 h2 cnonce : Bytes) → Bytes
  response ch h1 h2 cnonce =
      if not (is_empty ch.qop)
      then md5_hex (join b':' (h1 ∷ ch.nonce ∷ nc ∷ cnonce ∷ ch.qop ∷ h2 ∷ []))
      else md5_hex (h1 ++ b':' ∷ (ch.nonce ++ b':' ∷ h2))

  unfoldable pub build_digest_authorization :
      Texts
      → Option Bytes
      → DigestChallenge
      → (method uri user pass : Bytes) → Result DigestError Bytes
  unfolding opaque_part algorithm_part qop_part
  build_digest_authorization tx random ch method uri user pass = do
    let algorithm = if is_empty ch.algorithm then codes "MD5" else ch.algorithm
    fail_if
        (not (equal_fold tx algorithm (codes "MD5"))
          && not (equal_fold tx algorithm (codes "MD5-sess")))
        (unsupported_algorithm ch.algorithm)
    cnonce ← random_hex random
    let h1 = ha1 tx ch algorithm user pass cnonce
    let h2 = md5_hex (method ++ b':' ∷ uri)
    ok (
        codes "Digest username="
        ++ (quote tx user
            ++ (codes ", realm="
                ++ (quote tx ch.realm
                    ++ (codes ", nonce="
                        ++ (quote tx ch.nonce
                            ++ (codes ", uri="
                                ++ (quote tx uri
                                    ++ (codes ", response="
                                        ++ (quote tx (response ch h1 h2 cnonce)
                                            ++ (opaque_part tx ch
                                                ++ (algorithm_part ch algorithm
                                                    ++ qop_part tx ch cnonce))))))))))))
