-- ===== src/Proxy/Digest/Fields.antt =====
-- The header that answers a challenge, field by field.
use go_packet_repeater.Base.{
  ◌≡◌, ◌⊎◌, refl, false, [], ◌++◌, Bytes, codes, text_eq, is_empty, contains, trim, trim_left,
}
use go_packet_repeater.System.{System}
use go_packet_repeater.Config.Keyword.{is_ascii, to_lower, lower_byte}
use go_packet_repeater.Proxy.Digest.{
  Texts, DigestChallenge, no_challenge, set_field, trim_space, is_space, quote, opaque_part,
  algorithm_part, qop_part,
}
use go_packet_repeater.Proxy.Digest.Params.{Plain, Token, Gives}
use go_packet_repeater.Proxy.Digest.Answer.{is_named, Gives-quoted}
use go_packet_repeater.Proxy.Digest.Optional.{Gives-opaque, Gives-algorithm, Gives-qop}
use go_packet_repeater.Proxy.Digest.Solid.{Solid, append-Solid, Solid-Tail, quote-Solid, parts-Tail}

-- A challenge that `%q` quotes without escapes, for a user and a URI of this kind.
pub record Sendable (ch : DigestChallenge) (uri user : Bytes) : Type 0 where
  pub user_plain : Plain user
  pub realm_plain : Plain ch.realm
  pub nonce_plain : Plain ch.nonce
  pub nonce_given : is_empty ch.nonce ≡ false
  pub opaque_plain : Plain ch.opaque
  pub uri_plain : Plain uri
  pub algorithm_token : Token ch.algorithm
  pub qop_known : (ch.qop ≡ []) ⊎ (ch.qop ≡ codes "auth")

-- The header behind the name of the scheme and the user.
abbrev pub fields : Texts → DigestChallenge → (uri reply algorithm cnonce : Bytes) → Bytes
fields tx ch uri reply algorithm cnonce =
    codes ", realm="
    ++ (quote tx ch.realm
        ++ (codes ", nonce="
            ++ (quote tx ch.nonce
                ++ (codes ", uri="
                    ++ (quote tx uri
                        ++ (codes ", response="
                            ++ (quote tx reply
                                ++ (opaque_part tx ch
                                    ++ (algorithm_part ch algorithm
                                        ++ qop_part tx ch cnonce)))))))))

module _ (sys : System) (tx : Texts) (ch : DigestChallenge)
    (uri user reply algorithm cnonce : Bytes) (v : Sendable ch uri user) (reply_plain : Plain reply)
    (cnonce_plain : Plain cnonce)
    (same : is_empty ch.algorithm ≡ false → algorithm ≡ ch.algorithm) where
  pub fields-Solid : Solid (fields tx ch uri reply algorithm cnonce)
  unfolding is_ascii
  fields-Solid = append-Solid (codes ", realm=") _ refl (
      append-quoted ch.realm v.realm_plain (
        append-Solid (codes ", nonce=") _ refl (
          append-quoted ch.nonce v.nonce_plain (
            append-Solid (codes ", uri=") _ refl (
              append-quoted uri v.uri_plain (
                append-Solid (codes ", response=") _ refl (
                  Solid-Tail (quote tx reply) _ (quote-Solid tx reply reply_plain) (
                    parts-Tail tx ch algorithm cnonce v.opaque_plain same v.algorithm_token
                      v.qop_known cnonce_plain))))))))
    where
      append-quoted : (s : Bytes) {t : Bytes} → Plain s → Solid t → Solid (quote tx s ++ t)
      append-quoted s p w = append-Solid (quote tx s) _ (quote-Solid tx s p).ascii w

  pub fields-Gives : Gives sys tx (fields tx ch uri reply algorithm cnonce) no_challenge ch
  unfolding set_field text_eq is_named contains to_lower trim_space trim trim_left is_space is_ascii
      lower_byte opaque_part algorithm_part qop_part
  fields-Gives =
      let c1 = record no_challenge { realm = ch.realm } in
      let c2 = record c1 { nonce = ch.nonce } in
      let c3 = record c2 { opaque = ch.opaque } in
      let c4 = record c3 { algorithm = ch.algorithm } in
      Gives-quoted sys tx b' ' (codes "realm") (codes "realm") ch.realm _ no_challenge c1 ch refl
        v.realm_plain refl
        (Gives-quoted sys tx b' ' (codes "nonce") (codes "nonce") ch.nonce _ c1 c2 ch refl
          v.nonce_plain refl
          (Gives-quoted sys tx b' ' (codes "uri") (codes "uri") uri _ c2 c2 ch refl v.uri_plain refl
            (Gives-quoted sys tx b' ' (codes "response") (codes "response") reply _ c2 c2 ch refl
              reply_plain refl
              (Gives-opaque sys tx c2 ch.opaque _ ch refl v.opaque_plain (
                Gives-algorithm sys tx c3 ch.algorithm algorithm _ ch refl same v.algorithm_token
                  (Gives-qop sys tx c4 ch.qop cnonce refl v.qop_known cnonce_plain))))))
