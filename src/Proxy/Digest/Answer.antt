-- ===== src/Proxy/Digest/Answer.antt =====
-- How one parameter of the header that answers a challenge is read back.
use go_packet_repeater.Base.{
  ℕ, ◌≡◌, ◌≢◌, ◌<◌, arith, sym, ap, ◌∙◌, subst, Bool, true, false, not, ◌&&◌, [], ◌∷◌, ◌++◌,
  append_assoc, Bytes, text_eq, text_eq_iff, contains, contains-Lacks, trim, All, Lacks,
}
use go_packet_repeater.System.{System}
use go_packet_repeater.Config.Keyword.{to_lower}
use go_packet_repeater.Proxy.Digest.{
  Texts, DigestChallenge, set_param, set_field, trim_space, is_quote, quote, hex, hex_digit,
}
use go_packet_repeater.Proxy.Digest.Params.{
  Plain, Token, quote-Plain, Balanced, bare-Balanced, quoted-Balanced, Balanced-append, Lacks-Plain,
  Gives, Gives-cons, set_param_at, trim-quoted, trim-token,
}

pub hex-Plain : (bs : Bytes) → All (λ b. b < 256) bs → Plain (hex bs)
unfolding hex hex_digit
hex-Plain [] h = tt
hex-Plain (b ∷ bs) h = (ground (arith, h.0), (ground (arith, h.0), hex-Plain bs h.1))

module _ (sys : System) (tx : Texts) where
  -- A name in front of `=`, which is `key` without its case and the spaces around it.
  record Named (name key : Bytes) : Type 0 where
    no_quote : contains b'"' name ≡ false
    no_comma : contains b',' name ≡ false
    no_equals : contains b'=' name ≡ false
    reads : to_lower sys (trim_space tx name) ≡ key

  unfoldable pub is_named : Bytes → Bytes → Bool
  is_named name key =
      not (contains b'"' name)
      && not (contains b',' name)
      && not (contains b'=' name)
      && text_eq (to_lower sys (trim_space tx name)) key

  is_named-Named : (name key : Bytes) → is_named name key ≡ true → Named name key
  unfolding is_named
  is_named-Named name key h = record {
    no_quote = ground (arith, h);
    no_comma = ground (arith, h);
    no_equals = ground (arith, h);
    reads = (text_eq_iff (to_lower sys (trim_space tx name)) key).0 (ground (arith, h));
  }

  pub Named-Balanced :
      (name : Bytes)
      → contains b'"' name ≡ false
      → contains b',' name ≡ false
      → Balanced (name ++ b'=' ∷ [])
  Named-Balanced name q c =
      Balanced-append name (b'=' ∷ [])
        (bare-Balanced name (both name (contains-Lacks b'"' name q) (contains-Lacks b',' name c)))
        (bare-Balanced (b'=' ∷ []) ((omega arith, omega arith), tt))
    where
      both : (s : Bytes) → Lacks b'"' s → Lacks b',' s → All (λ c. (c ≢ b'"') × (c ≢ b',')) s
      both [] q c = tt
      both (x ∷ s) q c = ((q.0, c.0), both s q.1 c.1)

  Gives-param :
      (c : ℕ) (name key value text t : Bytes) (ch ch' ch'' : DigestChallenge)
      → Named (c ∷ name) key
      → Balanced value
      → trim is_quote (trim_space tx value) ≡ text
      → set_field tx key text ch ≡ ch'
      → Gives sys tx t ch' ch''
      → Gives sys tx (b',' ∷ (((c ∷ name) ++ b'=' ∷ []) ++ (value ++ t))) ch ch''
  Gives-param c name key value text t ch ch' ch'' n b v e g =
      subst (λ x. Gives sys tx x ch ch'')
        (ap (λ x. b',' ∷ x) (append_assoc ((c ∷ name) ++ b'=' ∷ []) value t))
        (Gives-cons sys tx c ((name ++ b'=' ∷ []) ++ value) t ch ch' ch''
          (Balanced-append ((c ∷ name) ++ b'=' ∷ []) value
            (Named-Balanced (c ∷ name) n.no_quote n.no_comma) b)
          (ap (set_param sys tx ch) (append_assoc (c ∷ name) (b'=' ∷ []) value)
            ∙ set_param_at sys tx ch (c ∷ name) key value text
                (contains-Lacks b'=' (c ∷ name) n.no_equals) n.reads v
            ∙ e)
          g)

  pub Gives-quoted :
      (c : ℕ) (name key v t : Bytes) (ch ch' ch'' : DigestChallenge)
      → is_named (c ∷ name) key ≡ true
      → Plain v
      → set_field tx key v ch ≡ ch'
      → Gives sys tx t ch' ch''
      → Gives sys tx (b',' ∷ (((c ∷ name) ++ b'=' ∷ []) ++ (quote tx v ++ t))) ch ch''
  Gives-quoted c name key v t ch ch' ch'' n p e g =
      subst (λ q. Gives sys tx (b',' ∷ (((c ∷ name) ++ b'=' ∷ []) ++ (q ++ t))) ch ch'')
        (sym (quote-Plain tx v p))
        (Gives-param c name key (b'"' ∷ (v ++ b'"' ∷ [])) v t ch ch' ch''
          (is_named-Named (c ∷ name) key n) (quoted-Balanced v (Lacks-Plain v p))
          (trim-quoted sys tx v p) e g)

  pub Gives-token :
      (c : ℕ) (name key v t : Bytes) (ch ch' ch'' : DigestChallenge)
      → is_named (c ∷ name) key ≡ true
      → Token v
      → set_field tx key v ch ≡ ch'
      → Gives sys tx t ch' ch''
      → Gives sys tx (b',' ∷ (((c ∷ name) ++ b'=' ∷ []) ++ (v ++ t))) ch ch''
  Gives-token c name key v t ch ch' ch'' n p e g =
      Gives-param c name key v v t ch ch' ch'' (is_named-Named (c ∷ name) key n)
        (bare-Balanced v (marks v p)) (trim-token sys tx v p) e g
    where
      marks : (v : Bytes) → Token v → All (λ c. (c ≢ b'"') × (c ≢ b',')) v
      marks [] h = tt
      marks (c ∷ v) h = ((h.0.2, h.0.3), marks v h.1)
