-- ===== src/Proxy/Digest/Optional.antt =====
-- The optional parameters of the header that answers a challenge.
use go_packet_repeater.Base.{
  ◌≡◌, ◌⊎◌, inl, inr, refl, sym, subst, false, [], ◌∷◌, ◌++◌, append-nil, Bytes, codes, text_eq,
  is_empty, contains, split, trim, trim_left,
}
use go_packet_repeater.System.{System}
use go_packet_repeater.Config.Keyword.{is_ascii, to_lower, lower_byte}
use go_packet_repeater.Proxy.Digest.{
  Texts, DigestChallenge, set_field, trim_space, is_space, quote, nc, opaque_part, algorithm_part,
  qop_part,
}
use go_packet_repeater.Proxy.Digest.Params.{Plain, Token, Gives, Gives-end, is_token-Token}
use go_packet_repeater.Proxy.Digest.Answer.{is_named, Gives-quoted, Gives-token}

module _ (sys : System) (tx : Texts) where
  pub Gives-opaque :
      (ch : DigestChallenge) (v t : Bytes) (ch' : DigestChallenge)
      → ch.opaque ≡ []
      → Plain v
      → Gives sys tx t (record ch { opaque = v }) ch'
      → Gives sys tx (opaque_part tx (record ch { opaque = v }) ++ t) ch ch'
  unfolding opaque_part set_field text_eq is_named contains to_lower trim_space trim trim_left
      is_space is_ascii lower_byte
  Gives-opaque ch [] t ch' o p g =
      subst (λ x. Gives sys tx t (record ch { opaque = x }) ch') (sym o) g
  Gives-opaque ch (c ∷ v) t ch' o p g =
      Gives-quoted sys tx b' ' (codes "opaque") (codes "opaque") (c ∷ v) t ch
        (record ch { opaque = c ∷ v }) ch' refl p refl g

  pub Gives-algorithm :
      (ch : DigestChallenge) (v algorithm t : Bytes) (ch' : DigestChallenge)
      → ch.algorithm ≡ []
      → (is_empty v ≡ false → algorithm ≡ v)
      → Token v
      → Gives sys tx t (record ch { algorithm = v }) ch'
      → Gives sys tx (algorithm_part (record ch { algorithm = v }) algorithm ++ t) ch ch'
  unfolding algorithm_part set_field text_eq is_named contains to_lower trim_space trim trim_left
      is_space is_ascii lower_byte
  Gives-algorithm ch [] algorithm t ch' o same p g =
      subst (λ x. Gives sys tx t (record ch { algorithm = x }) ch') (sym o) g
  Gives-algorithm ch (c ∷ v) algorithm t ch' o same p g =
      subst (λ x. Gives sys tx (codes ", algorithm=" ++ (x ++ t)) ch ch') (sym (same refl))
        (Gives-token sys tx b' ' (codes "algorithm") (codes "algorithm") (c ∷ v) t ch
          (record ch { algorithm = c ∷ v }) ch' refl p refl g)

  pub Gives-qop :
      (ch : DigestChallenge) (v cnonce : Bytes)
      → ch.qop ≡ []
      → (v ≡ []) ⊎ (v ≡ codes "auth")
      → Plain cnonce
      → Gives sys tx (qop_part tx (record ch { qop = v }) cnonce) ch (record ch { qop = v })
  unfolding qop_part set_field text_eq split is_named contains to_lower trim_space trim trim_left
      is_space is_ascii lower_byte
  Gives-qop ch v cnonce o (inl e) p =
      subst
        (λ x. Gives sys tx (qop_part tx (record ch { qop = x }) cnonce) ch (record ch { qop = x }))
        (sym e) (subst (λ x. Gives sys tx [] ch (record ch { qop = x })) o (Gives-end sys tx ch))
  Gives-qop ch v cnonce o (inr e) p =
      let done = record ch { qop = codes "auth" } in
      subst
        (λ x. Gives sys tx (qop_part tx (record ch { qop = x }) cnonce) ch (record ch { qop = x }))
        (sym e)
        (Gives-token sys tx b' ' (codes "qop") (codes "qop") (codes "auth") _ ch done done refl
          (is_token-Token (codes "auth") refl) refl
          (Gives-token sys tx b' ' (codes "nc") (codes "nc") nc _ done done done refl
            (is_token-Token nc refl) refl
            (subst (λ x. Gives sys tx (codes ", cnonce=" ++ x) done done)
              (append-nil (quote tx cnonce))
              (Gives-quoted sys tx b' ' (codes "cnonce") (codes "cnonce") cnonce [] done done done
                refl p refl (Gives-end sys tx done)))))
