-- ===== src/Proxy/Digest/Solid.antt =====
-- Texts within ASCII that end in a byte that is no space.
use go_packet_repeater.Base.{
  ℕ, ◌≡◌, ◌⊎◌, inl, inr, arith, refl, sym, ap, ◌∙◌, subst, true, false, not, [], ◌∷◌, ◌++◌,
  append_assoc, append-nil, Bytes, codes, is_empty, trim, trim-between, if◌then◌else◌,
}
use go_packet_repeater.Config.Keyword.{is_ascii}
use go_packet_repeater.Proxy.Digest.{
  Texts, DigestChallenge, trim_space, is_space, quote, opaque_part, algorithm_part, qop_part,
}
use go_packet_repeater.Proxy.Digest.Params.{
  Plain, Token, quote-Plain, is_ascii-Token, is_ascii-quoted, trim_space-ascii, Token-spaces,
}

pub record Solid (s : Bytes) : Type 0 where
  pub ascii : is_ascii s ≡ true
  pub body : Bytes
  pub last : ℕ
  pub whole : s ≡ body ++ last ∷ []
  pub kept : is_space last ≡ false

is_ascii-append : (s t : Bytes) → is_ascii s ≡ true → is_ascii t ≡ true → is_ascii (s ++ t) ≡ true
unfolding is_ascii
is_ascii-append [] t h k = k
is_ascii-append (c ∷ s) t h k = ground (arith, h, k, is_ascii-append s t)

pub append-Solid : (s t : Bytes) → is_ascii s ≡ true → Solid t → Solid (s ++ t)
append-Solid s t h v = record {
  ascii = is_ascii-append s t h v.ascii;
  body = s ++ v.body;
  last = v.last;
  whole = ap (λ x. s ++ x) v.whole ∙ sym (append_assoc s v.body (v.last ∷ []));
  kept = v.kept;
}

-- A text that may be missing.
abbrev pub Tail : Bytes → Type 0
Tail t = (t ≡ []) ⊎ Solid t

pub Solid-Tail : (s t : Bytes) → Solid s → Tail t → Solid (s ++ t)
Solid-Tail s t v (inl e) = subst Solid (sym (ap (λ x. s ++ x) e ∙ append-nil s)) v
Solid-Tail s t v (inr k) = append-Solid s t v.ascii k

Tail-append : (s t : Bytes) → Tail s → Tail t → Tail (s ++ t)
Tail-append s t (inl e) k = subst (λ x. Tail (x ++ t)) (sym e) k
Tail-append s t (inr v) k = inr (Solid-Tail s t v k)

pub quote-Solid : (tx : Texts) (v : Bytes) → Plain v → Solid (quote tx v)
quote-Solid tx v h = subst Solid (sym (quote-Plain tx v h)) record {
  ascii = is_ascii-quoted v h;
  body = b'"' ∷ v;
  last = b'"';
  whole = refl;
  kept = unfold is_space in refl;
}

token-Solid : (c : ℕ) (v : Bytes) → Token (c ∷ v) → Solid (c ∷ v)
token-Solid c [] h = record {
  ascii = is_ascii-Token (c ∷ []) h;
  body = [];
  last = c;
  whole = refl;
  kept = (Token-spaces (c ∷ []) h).0;
}
token-Solid c (d ∷ v) h =
    append-Solid (c ∷ []) (d ∷ v) (is_ascii-Token (c ∷ []) (h.0, tt)) (token-Solid d v h.1)

-- Trimming leaves a text alone that starts and ends without a space.
pub trim_space-Solid :
    (tx : Texts) (c : ℕ) (s : Bytes)
    → is_space c ≡ false
    → is_ascii (c ∷ []) ≡ true
    → Solid s
    → trim_space tx (c ∷ s) ≡ c ∷ s
trim_space-Solid tx c s h a v =
    trim_space-ascii tx (c ∷ s) (is_ascii-append (c ∷ []) s a v.ascii)
    ∙ ap (λ x. trim is_space (c ∷ x)) v.whole
    ∙ trim-between is_space c v.last v.body h v.kept
    ∙ ap (λ x. c ∷ x) (sym v.whole)

opaque_part-Tail : (tx : Texts) (ch : DigestChallenge) → Plain ch.opaque → Tail (opaque_part tx ch)
unfolding opaque_part is_ascii
opaque_part-Tail tx ch h = by_opaque ch.opaque h
  where
    by_opaque :
        (v : Bytes)
        → Plain v
        → Tail (if not (is_empty v) then codes ", opaque=" ++ quote tx v else [])
    by_opaque [] h = inl refl
    by_opaque (c ∷ v) h =
        inr (append-Solid (codes ", opaque=") (quote tx (c ∷ v)) refl (quote-Solid tx (c ∷ v) h))

algorithm_part-Tail :
    (ch : DigestChallenge) (algorithm : Bytes)
    → (is_empty ch.algorithm ≡ false → algorithm ≡ ch.algorithm)
    → Token ch.algorithm
    → Tail (algorithm_part ch algorithm)
unfolding algorithm_part is_ascii
algorithm_part-Tail ch algorithm same h = by_algorithm ch.algorithm same h
  where
    by_algorithm :
        (v : Bytes)
        → (is_empty v ≡ false → algorithm ≡ v)
        → Token v
        → Tail (if not (is_empty v) then codes ", algorithm=" ++ algorithm else [])
    by_algorithm [] same h = inl refl
    by_algorithm (c ∷ v) same h = inr (
        append-Solid (codes ", algorithm=") algorithm refl
          (subst Solid (sym (same refl)) (token-Solid c v h)))

qop_part-Tail :
    (tx : Texts) (ch : DigestChallenge) (cnonce : Bytes)
    → (ch.qop ≡ []) ⊎ (ch.qop ≡ codes "auth")
    → Plain cnonce
    → Tail (qop_part tx ch cnonce)
unfolding qop_part is_ascii
qop_part-Tail tx ch cnonce (inl e) p = inl (ground (arith, e))
qop_part-Tail tx ch cnonce (inr e) p = inr (
    subst Solid (ground (arith, e)) (
      append-Solid (codes ", qop=auth, nc=00000001, cnonce=") (quote tx cnonce) refl
        (quote-Solid tx cnonce p)))

-- What follows the quoted response.
pub parts-Tail :
    (tx : Texts) (ch : DigestChallenge) (algorithm cnonce : Bytes)
    → Plain ch.opaque
    → (is_empty ch.algorithm ≡ false → algorithm ≡ ch.algorithm)
    → Token ch.algorithm
    → (ch.qop ≡ []) ⊎ (ch.qop ≡ codes "auth")
    → Plain cnonce
    → Tail (opaque_part tx ch ++ (algorithm_part ch algorithm ++ qop_part tx ch cnonce))
parts-Tail tx ch algorithm cnonce o same a q c =
    Tail-append (opaque_part tx ch) _ (opaque_part-Tail tx ch o) (
      Tail-append (algorithm_part ch algorithm) _ (algorithm_part-Tail ch algorithm same a)
        (qop_part-Tail tx ch cnonce q c))
