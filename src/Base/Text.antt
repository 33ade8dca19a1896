-- ===== src/Base/Text.antt =====
-- Go strings are byte sequences. The functions of Go's `strings` package that gopr calls.
use Prim.Native.Nat.{ℕ}
use Prim.Native.Char.{code}
use Prim.Native.String.{String}
use mathlib.Core.Path.{◌≡◌, refl, ap, ◌∙◌}
use mathlib.Core.Logic.{◌≢◌, ◌↔◌, inl, inr}
use mathlib.Core.Bool.{Bool, true, false, ◌&&◌, ◌||◌}
use mathlib.Core.Option.{Option, none, some}
use mathlib.Core.List.{List, [], ◌∷◌, ◌++◌}
use native.Mathlib.Omega.{arith}
use go_packet_repeater.Base.Tests.{◌==◌, if◌then◌else◌, Bool-cases}
use go_packet_repeater.Base.Lists.{All}

abbrev pub Bytes : Type 0
Bytes = List ℕ

-- The code points of a literal: its bytes, since every literal here is ASCII.
abbrev pub codes : String → Bytes
codes String.[] = []
codes (String.◌∷◌ c s) = code c ∷ codes s

-- `a == b` on strings
unfoldable pub text_eq : Bytes → Bytes → Bool
text_eq [] [] = true
text_eq (x ∷ a) (y ∷ b) = x == y && text_eq a b
text_eq _ _ = false

pub text_eq_iff : (a b : Bytes) → (text_eq a b ≡ true) ↔ (a ≡ b)
unfolding text_eq
text_eq_iff (x ∷ a) (y ∷ b) = ground (arith, text_eq_iff a b)
text_eq_iff _ _ = ground arith

-- `s == ""`
abbrev pub is_empty {ℓ} : {A : Type ℓ} → List A → Bool
is_empty [] = true
is_empty (c ∷ s) = false

-- `strings.TrimPrefix(s, p)` where `strings.HasPrefix(s, p)` holds, `none` where it does not
unfoldable pub strip_prefix : Bytes → Bytes → Option Bytes
strip_prefix [] s = some s
strip_prefix (x ∷ p) [] = none
strip_prefix (x ∷ p) (y ∷ s) = if x == y then strip_prefix p s else none

-- `strings.Contains(s, sub)`
unfoldable pub contains_text : Bytes → Bytes → Bool
unfolding strip_prefix
contains_text sub [] = is_empty sub
contains_text sub (x ∷ s) = elim (strip_prefix sub (x ∷ s)) [
  | none ↦ contains_text sub s
  | some rest ↦ true
]

-- `strings.Contains(s, "c")` for a single byte
unfoldable pub contains : ℕ → Bytes → Bool
contains c [] = false
contains c (x ∷ s) = x == c || contains c s

-- The text before and behind the first `c`: `strings.Cut`, or `s[:i]` and `s[i+1:]` for
-- `i = strings.IndexByte(s, c)`; `none` for `i < 0`.
unfoldable pub cut : ℕ → Bytes → Option (Bytes × Bytes)
cut c [] = none
cut c (x ∷ s) = elim (x == c) [
  | true ↦ some ([], s)
  | false ↦ elim (cut c s) [ none ↦ none | some (a, b) ↦ some (x ∷ a, b) ]
]

-- The same at the last `c`: `strings.LastIndex`.
unfoldable pub cut_last : ℕ → Bytes → Option (Bytes × Bytes)
cut_last c [] = none
cut_last c (x ∷ s) = elim (cut_last c s) [
  | some (a, b) ↦ some (x ∷ a, b)
  | none ↦ if x == c then some ([], s) else none
]

-- `strings.Split(s, "c")` for a single byte
unfoldable pub split : ℕ → Bytes → List Bytes
split c [] = [] ∷ []
split c (x ∷ s) = elim (x == c) [
  | true ↦ [] ∷ split c s
  | false ↦ elim (split c s) [ [] ↦ (x ∷ []) ∷ [] | p ∷ ps ↦ (x ∷ p) ∷ ps ]
]

abbrev pub Lacks : ℕ → Bytes → Type 0
Lacks c = All (λ x. x ≢ c)

pub contains-Lacks : (c : ℕ) (s : Bytes) → contains c s ≡ false → Lacks c s
unfolding contains
contains-Lacks c [] h = tt
contains-Lacks c (x ∷ s) h = ground (arith, contains-Lacks c s)

pub Lacks-contains : (c : ℕ) (s : Bytes) → Lacks c s → contains c s ≡ false
unfolding contains
Lacks-contains c [] h = refl
Lacks-contains c (x ∷ s) h = ground (arith, Lacks-contains c s h.1)

-- What a cut found.
abbrev pub IsCut : ℕ → Bytes → Option (Bytes × Bytes) → Type 0
IsCut c s none = Lacks c s
IsCut c s (some (a, b)) = (s ≡ a ++ c ∷ b) × Lacks c a

pub cut-IsCut : (c : ℕ) (s : Bytes) → IsCut c s (cut c s)
unfolding cut
cut-IsCut c [] = tt
cut-IsCut c (x ∷ s) = ground (arith, cut-IsCut c s)

abbrev pub IsLastCut : ℕ → Bytes → Option (Bytes × Bytes) → Type 0
IsLastCut c s none = Lacks c s
IsLastCut c s (some (a, b)) = (s ≡ a ++ c ∷ b) × Lacks c b

pub cut_last-IsLastCut : (c : ℕ) (s : Bytes) → IsLastCut c s (cut_last c s)
unfolding cut_last
cut_last-IsLastCut c [] = tt
cut_last-IsLastCut c (x ∷ s) = ground (arith, cut_last-IsLastCut c s)

pub cut-append : (c : ℕ) (a b : Bytes) → Lacks c a → cut c (a ++ c ∷ b) ≡ some (a, b)
unfolding cut
cut-append c [] b h = ground arith
cut-append c (x ∷ a) b h = ground (arith, cut-append c a b h.1)

pub cut-none : (c : ℕ) (s : Bytes) → Lacks c s → cut c s ≡ none
unfolding cut
cut-none c [] h = refl
cut-none c (x ∷ s) h = ground (arith, cut-none c s h.1)

cut_last-none : (c : ℕ) (s : Bytes) → Lacks c s → cut_last c s ≡ none
unfolding cut_last
cut_last-none c [] h = refl
cut_last-none c (x ∷ s) h = ground (arith, cut_last-none c s h.1)

pub cut_last-append : (c : ℕ) (a b : Bytes) → Lacks c b → cut_last c (a ++ c ∷ b) ≡ some (a, b)
unfolding cut_last
cut_last-append c [] b h = ground (arith, cut_last-none c b h)
cut_last-append c (x ∷ a) b h = ground (arith, cut_last-append c a b h)

-- `strings.Join(parts, "c")`
unfoldable pub join : ℕ → List Bytes → Bytes
join c [] = []
join c (p ∷ []) = p
join c (p ∷ q ∷ ps) = p ++ c ∷ join c (q ∷ ps)

join-cons : (c x : ℕ) (p : Bytes) (ps : List Bytes) → join c ((x ∷ p) ∷ ps) ≡ x ∷ join c (p ∷ ps)
unfolding join
join-cons c x p [] = refl
join-cons c x p (q ∷ ps) = refl

abbrev IsSplit : ℕ → Bytes → List Bytes → Type 0
IsSplit c s [] = ⊥
IsSplit c s (p ∷ ps) = (join c (p ∷ ps) ≡ s) × All (Lacks c) (p ∷ ps)

split-IsSplit : (c : ℕ) (s : Bytes) → IsSplit c s (split c s)
unfolding split
split-IsSplit c [] = (unfold join in refl, (tt, tt))
split-IsSplit c (x ∷ s) = elim (Bool-cases (x == c)) [
  | inl e ↦ rw (e, IsSplit) (grow (split c s) (split-IsSplit c s) (ground arith))
  | inr e ↦ rw (e, IsSplit) (widen (split c s) (split-IsSplit c s) (ground arith))
]
  where
    grow : (ps : List Bytes) → IsSplit c s ps → x ≡ c → IsSplit c (x ∷ s) ([] ∷ ps)
    grow [] h e = absurd h
    grow (p ∷ ps) h e = (unfold join in ground arith, (tt, h.1))

    widen :
        (ps : List Bytes)
        → IsSplit c s ps
        → x ≢ c
        → IsSplit c (x ∷ s) (elim ps [ [] ↦ (x ∷ []) ∷ [] | p ∷ ps ↦ (x ∷ p) ∷ ps ])
    widen [] h e = absurd h
    widen (p ∷ ps) h e = (join-cons c x p ps ∙ ap (◌∷◌ x) h.0, ((e, h.1.0), h.1.1))

-- Splitting at `c` and joining again gives the text back.
pub join-split : (c : ℕ) (s : Bytes) → join c (split c s) ≡ s
join-split c s = from (split c s) (split-IsSplit c s)
  where
    from : (ps : List Bytes) → IsSplit c s ps → join c ps ≡ s
    from [] h = absurd h
    from (p ∷ ps) h = h.0

pub split-Lacks : (c : ℕ) (s : Bytes) → All (Lacks c) (split c s)
split-Lacks c s = from (split c s) (split-IsSplit c s)
  where
    from : (ps : List Bytes) → IsSplit c s ps → All (Lacks c) ps
    from [] h = absurd h
    from (p ∷ ps) h = h.1

pub contains-append : (c : ℕ) (a b : Bytes) → contains c (a ++ c ∷ b) ≡ true
unfolding contains
contains-append c [] b = ground arith
contains-append c (x ∷ a) b = ground (arith, contains-append c a b)

-- Behind a first byte and one more text and byte.
pub contains-cons_append :
    (c x : ℕ) (a : Bytes) (y : ℕ) (b : Bytes) → contains c (x ∷ (a ++ y ∷ c ∷ b)) ≡ true
unfolding contains
contains-cons_append c x [] y b = ground arith
contains-cons_append c x (z ∷ a) y b = ground (arith, contains-cons_append c z a y b)
