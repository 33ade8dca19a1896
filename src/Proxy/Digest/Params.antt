-- ===== src/Proxy/Digest/Params.antt =====
-- The parameters of a challenge, one by one: how the scan passes a parameter, and what it sets.
use go_packet_repeater.Base.{
  ℕ, ◌≡◌, ◌≢◌, ◌<◌, ◌≤◌, arith, refl, ap, ◌∙◌, Bool, true, false, not, ◌&&◌, none, some, List, [],
  ◌∷◌, ◌++◌, append_assoc, append-nil, Bytes, ltb, leb, ◌==◌, is_empty, trim, All, Keeps,
  trim-Keeps, trim-between, trim-enclosed, Lacks, cut-append,
}
use go_packet_repeater.System.{System}
use go_packet_repeater.Config.Keyword.{is_ascii, to_lower}
use go_packet_repeater.Proxy.Digest.{
  Texts, DigestChallenge, split_params, set_param, set_params, set_field, trim_space, is_space,
  is_quote, quote, escaped, escape,
}

-- Printable ASCII without `"` and the backslash.
abbrev pub Plain : Bytes → Type 0
Plain = All (λ c. (32 ≤ c) × (c ≤ 126) × (c ≢ b'"') × (c ≢ b'\\'))

-- Letters, digits and other bytes that no list of parameters treats as a mark.
abbrev pub Token : Bytes → Type 0
Token = All (λ c. (32 < c) × (c ≤ 126) × (c ≢ b'"') × (c ≢ b','))

abbrev pub is_plain : Bytes → Bool
is_plain [] = true
is_plain (c ∷ s) = leb 32 c && leb c 126 && not (c == b'"') && not (c == b'\\') && is_plain s

pub is_plain-Plain : (s : Bytes) → is_plain s ≡ true → Plain s
is_plain-Plain [] h = tt
is_plain-Plain (c ∷ s) h = (ground (arith, h), is_plain-Plain s (ground (arith, h)))

abbrev pub is_token : Bytes → Bool
is_token [] = true
is_token (c ∷ s) = ltb 32 c && leb c 126 && not (c == b'"') && not (c == b',') && is_token s

pub is_token-Token : (s : Bytes) → is_token s ≡ true → Token s
is_token-Token [] h = tt
is_token-Token (c ∷ s) h = (ground (arith, h), is_token-Token s (ground (arith, h)))

escaped-Plain : (s : Bytes) → Plain s → escaped s ≡ s
unfolding escaped escape
escaped-Plain [] h = refl
escaped-Plain (c ∷ s) h = ground (arith, h.0, escaped-Plain s h.1)

pub is_ascii-Plain : (s : Bytes) → Plain s → is_ascii s ≡ true
unfolding is_ascii
is_ascii-Plain [] h = refl
is_ascii-Plain (c ∷ s) h = ground (arith, h.0, is_ascii-Plain s h.1)

pub quote-Plain : (tx : Texts) (s : Bytes) → Plain s → quote tx s ≡ b'"' ∷ (s ++ b'"' ∷ [])
unfolding quote
quote-Plain tx s h = rw (is_ascii-Plain s h, escaped-Plain s h)

-- The scan takes a balanced text whole, when it starts outside quotes.
unfoldable pub Balanced : Bytes → Type 0
Balanced p = (cur t : Bytes) → split_params false cur (p ++ t) ≡ split_params false (cur ++ p) t

inside :
    (v cur t : Bytes)
    → Lacks b'"' v
    → split_params true cur (v ++ b'"' ∷ t) ≡ split_params false (cur ++ (v ++ b'"' ∷ [])) t
unfolding split_params
inside [] cur t h = refl
inside (c ∷ v) cur t h =
    ground (arith, h.0, inside v (cur ++ c ∷ []) t h.1, append_assoc cur (c ∷ []) (v ++ b'"' ∷ []))

pub bare-Balanced : (p : Bytes) → All (λ c. (c ≢ b'"') × (c ≢ b',')) p → Balanced p
unfolding Balanced split_params
bare-Balanced [] h cur t = ground (arith, append-nil cur)
bare-Balanced (c ∷ p) h cur t =
    ground (arith, h.0, bare-Balanced p h.1 (cur ++ c ∷ []) t, append_assoc cur (c ∷ []) p)

pub quoted-Balanced : (v : Bytes) → Lacks b'"' v → Balanced (b'"' ∷ (v ++ b'"' ∷ []))
unfolding Balanced split_params
quoted-Balanced v h cur t =
    ap (split_params true (cur ++ b'"' ∷ [])) (append_assoc v (b'"' ∷ []) t)
    ∙ inside v (cur ++ b'"' ∷ []) t h
    ∙ ap (λ x. split_params false x t) (append_assoc cur (b'"' ∷ []) (v ++ b'"' ∷ []))

pub Balanced-append : (p q : Bytes) → Balanced p → Balanced q → Balanced (p ++ q)
unfolding Balanced
Balanced-append p q hp hq cur t =
    ap (split_params false cur) (append_assoc p q t)
    ∙ hp cur (q ++ t)
    ∙ hq (cur ++ p) t
    ∙ ap (λ x. split_params false x t) (append_assoc cur p q)

pub Lacks-Plain : (s : Bytes) → Plain s → Lacks b'"' s
Lacks-Plain [] h = tt
Lacks-Plain (c ∷ s) h = (h.0.2, Lacks-Plain s h.1)

split-comma : (cur t : Bytes) → split_params false cur (b',' ∷ t) ≡ cur ∷ split_params false [] t
unfolding split_params
split-comma cur t = refl

Plain-Keeps : (v : Bytes) → Plain v → Keeps is_quote v
unfolding is_quote
Plain-Keeps [] h = tt
Plain-Keeps (c ∷ v) h = (ground (arith, h.0), Plain-Keeps v h.1)

is_ascii-end : (v : Bytes) → Plain v → is_ascii (v ++ b'"' ∷ []) ≡ true
unfolding is_ascii
is_ascii-end [] h = refl
is_ascii-end (c ∷ v) h = ground (arith, h.0, is_ascii-end v h.1)

pub is_ascii-quoted : (v : Bytes) → Plain v → is_ascii (b'"' ∷ (v ++ b'"' ∷ [])) ≡ true
unfolding is_ascii
is_ascii-quoted v h = ground (arith, is_ascii-end v h)

pub trim_space-ascii :
    (tx : Texts) (v : Bytes) → is_ascii v ≡ true → trim_space tx v ≡ trim is_space v
unfolding trim_space
trim_space-ascii tx v h = rw h refl

Token-Keeps : (v : Bytes) → Token v → Keeps is_quote v
unfolding is_quote
Token-Keeps [] h = tt
Token-Keeps (c ∷ v) h = (ground (arith, h.0), Token-Keeps v h.1)

pub Token-spaces : (v : Bytes) → Token v → Keeps is_space v
unfolding is_space
Token-spaces [] h = tt
Token-spaces (c ∷ v) h = (ground (arith, h.0), Token-spaces v h.1)

pub is_ascii-Token : (v : Bytes) → Token v → is_ascii v ≡ true
unfolding is_ascii
is_ascii-Token [] h = refl
is_ascii-Token (c ∷ v) h = ground (arith, h.0, is_ascii-Token v h.1)

module _ (sys : System) (tx : Texts) where
  set_params-cons :
      (ch : DigestChallenge) (p : Bytes) (ps : List Bytes)
      → set_params sys tx ch (p ∷ ps) ≡ set_params sys tx (set_param sys tx ch p) ps
  unfolding set_params
  set_params-cons ch p ps = refl

  -- With `ch` set by what was scanned, the text that is left sets `ch'`.
  unfoldable pub Gives : Bytes → DigestChallenge → DigestChallenge → Type 0
  Gives t ch ch' =
      (before : DigestChallenge) (cur : Bytes)
      → is_empty cur ≡ false
      → set_param sys tx before cur ≡ ch
      → set_params sys tx before (split_params false cur t) ≡ ch'

  pub Gives-end : (ch : DigestChallenge) → Gives [] ch ch
  unfolding Gives set_params split_params
  Gives-end ch before cur n e = rw (n, set_params) e

  pub Gives-cons :
      (c : ℕ) (p t : Bytes) (ch ch' ch'' : DigestChallenge)
      → Balanced (c ∷ p)
      → set_param sys tx ch (c ∷ p) ≡ ch'
      → Gives t ch' ch''
      → Gives (b',' ∷ (c ∷ p) ++ t) ch ch''
  unfolding Gives Balanced
  Gives-cons c p t ch ch' ch'' b e g before cur n h =
      ap (set_params sys tx before) (split-comma cur ((c ∷ p) ++ t) ∙ ap (◌∷◌ cur) (b [] t))
      ∙ set_params-cons before cur _
      ∙ ap (λ x. set_params sys tx x (split_params false (c ∷ p) t)) h
      ∙ g ch (c ∷ p) refl e

  -- A parameter whose text in front of `=` is `name`.
  pub set_param_at :
      (ch : DigestChallenge) (name key value text : Bytes)
      → Lacks b'=' name
      → to_lower sys (trim_space tx name) ≡ key
      → trim is_quote (trim_space tx value) ≡ text
      → set_param sys tx ch (name ++ b'=' ∷ value) ≡ set_field tx key text ch
  unfolding set_param
  set_param_at ch name key value text l k v =
      ap
        (λ o. elim o [
          | none ↦ ch
          | some (a, b) ↦
              set_field tx (to_lower sys (trim_space tx a)) (trim is_quote (trim_space tx b)) ch
        ])
        (cut-append b'=' name value l)
      ∙ ap (λ a. set_field tx a (trim is_quote (trim_space tx value)) ch) k
      ∙ ap (λ b. set_field tx key b ch) v

  pub trim-quoted :
      (v : Bytes) → Plain v → trim is_quote (trim_space tx (b'"' ∷ (v ++ b'"' ∷ []))) ≡ v
  trim-quoted v h =
      ap (trim is_quote) (
        trim_space-ascii tx (b'"' ∷ (v ++ b'"' ∷ [])) (is_ascii-quoted v h)
        ∙ trim-between is_space b'"' b'"' v (unfold is_space in refl) (unfold is_space in refl))
      ∙ trim-enclosed is_quote b'"' b'"' v (unfold is_quote in refl) (unfold is_quote in refl)
          (Plain-Keeps v h)

  pub trim-token : (v : Bytes) → Token v → trim is_quote (trim_space tx v) ≡ v
  trim-token v h =
      ap (trim is_quote)
        (trim_space-ascii tx v (is_ascii-Token v h) ∙ trim-Keeps is_space v (Token-spaces v h))
      ∙ trim-Keeps is_quote v (Token-Keeps v h)
