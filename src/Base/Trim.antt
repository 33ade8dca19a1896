-- ===== src/Base/Trim.antt =====
-- `strings.Trim` and `strings.TrimFunc`.
use Prim.Native.Nat.{ℕ}
use mathlib.Core.Path.{◌≡◌, refl, sym, subst, ap, ◌∙◌}
use mathlib.Core.Bool.{Bool, true, false}
use mathlib.Core.List.{[], ◌∷◌, ◌++◌, reverse, reverse-cons, reverse-append, reverse-reverse}
use go_packet_repeater.Base.Tests.{if◌then◌else◌}
use go_packet_repeater.Base.Lists.{All, All-append}
use go_packet_repeater.Base.Text.{Bytes}

-- `strings.TrimLeftFunc`, `strings.Trim` with the cutset that `p` holds of
unfoldable pub trim_left : (ℕ → Bool) → Bytes → Bytes
trim_left p [] = []
trim_left p (c ∷ s) = let rest = trim_left p s in if p c then rest else c ∷ s

unfoldable pub trim : (ℕ → Bool) → Bytes → Bytes
unfolding trim_left
trim p s = reverse (trim_left p (reverse (trim_left p s)))

abbrev pub Keeps : (ℕ → Bool) → Bytes → Type 0
Keeps p = All (λ c. p c ≡ false)

trim_left-Keeps : (p : ℕ → Bool) (s : Bytes) → Keeps p s → trim_left p s ≡ s
unfolding trim_left
trim_left-Keeps p [] h = refl
trim_left-Keeps p (c ∷ s) h = rw h.0

reverse-Keeps : (p : ℕ → Bool) (s : Bytes) → Keeps p s → Keeps p (reverse s)
reverse-Keeps p [] h = tt
reverse-Keeps p (c ∷ s) h =
    subst (Keeps p) (sym (reverse-cons c s))
      (All-append _ (reverse s) (c ∷ []) (reverse-Keeps p s h.1) (h.0, tt))

-- A text with nothing to trim is left alone.
pub trim-Keeps : (p : ℕ → Bool) (s : Bytes) → Keeps p s → trim p s ≡ s
unfolding trim
trim-Keeps p s h =
    ap (λ t. reverse (trim_left p (reverse t))) (trim_left-Keeps p s h)
    ∙ ap reverse (trim_left-Keeps p (reverse s) (reverse-Keeps p s h))
    ∙ reverse-reverse s

trim_end :
    (p : ℕ → Bool) (b : ℕ) (s : Bytes)
    → p b ≡ true
    → Keeps p s
    → reverse (trim_left p (reverse (s ++ b ∷ []))) ≡ s
unfolding trim_left
trim_end p b s hb h =
    ap (λ t. reverse (trim_left p t)) (reverse-append s (b ∷ []))
    ∙ rw hb (ap reverse (trim_left-Keeps p (reverse s) (reverse-Keeps p s h)) ∙ reverse-reverse s)

-- One byte to trim at either end is taken off.
pub trim-enclosed :
    (p : ℕ → Bool) (a b : ℕ) (s : Bytes)
    → p a ≡ true
    → p b ≡ true
    → Keeps p s
    → trim p (a ∷ (s ++ b ∷ [])) ≡ s
unfolding trim trim_left
trim-enclosed p a b [] ha hb h = rw (ha, hb)
trim-enclosed p a b (c ∷ s) ha hb h = rw (ha, h.0) (trim_end p b (c ∷ s) hb h)

-- Nothing is taken off between two bytes to keep.
pub trim-between :
    (p : ℕ → Bool) (a b : ℕ) (s : Bytes)
    → p a ≡ false
    → p b ≡ false
    → trim p (a ∷ (s ++ b ∷ [])) ≡ a ∷ (s ++ b ∷ [])
unfolding trim trim_left
trim-between p a b s ha hb = rw ha (
    ap (λ t. reverse (trim_left p t)) (reverse-append (a ∷ s) (b ∷ []))
    ∙ rw hb
        (ap reverse (sym (reverse-append (a ∷ s) (b ∷ []))) ∙ reverse-reverse (a ∷ (s ++ b ∷ []))))
