-- ===== src/Config/Extract/Tokens.antt =====
-- The loop of `extractOptions` read in two passes: which tokens stand in front, and what they do.
use go_packet_repeater.Base.{
  ℕ, ◌≡◌, refl, arith, max, Bool, true, false, ◌||◌, none, some, List, [], ◌∷◌, Bytes, Result, ok,
  err, ◌>>=◌, Option-cases, Result-cases, inl, inr, ◌∙◌, >>=-eq-ok, sym,
}
use go_packet_repeater.Config.Options.{
  Options, Scope, scope_none, scope_q, Token, help_flag, version_flag, verbose_flag, level_flag,
  sub, token_of, SubOption, key,
}
use go_packet_repeater.Config.Extract.{
  OptionError, apply, extract_from, extract_from_stop, extract_from_go, extract_options, no_options,
}

-- The option tokens at the front of the arguments.
abbrev pub tokens : List Bytes → List Token
tokens [] = []
tokens (tok ∷ args) = elim (token_of tok) [ none ↦ [] | some t ↦ t ∷ tokens args ]

-- What stands behind them.
abbrev pub positional : List Bytes → List Bytes
positional [] = []
positional (tok ∷ args) = elim (token_of tok) [ none ↦ tok ∷ args | some t ↦ positional args ]

abbrev pub apply_all : List Token → Options → Scope → Result OptionError (Options × Scope)
apply_all [] o scope = ok (o, scope)
apply_all (t ∷ ts) o scope = do (o', scope') ← apply t o scope; apply_all ts o' scope'

pub extract_from-tokens :
    (args : List Bytes) (o : Options) (scope : Scope)
    → extract_from o scope args
      ≡ (apply_all (tokens args) o scope >>= λ p. ok (p.0, positional args))
extract_from-tokens [] o scope = unfold extract_from in refl
extract_from-tokens (tok ∷ args) o scope = elim (Option-cases (token_of tok)) [
  | inl e ↦ rw (extract_from_stop o scope tok args e) (ground arith)
  | inr (t, e) ↦ elim (Result-cases (apply t o scope)) [
    | inl ((o', scope'), a) ↦
        rw (extract_from_go o scope tok args e, a)
          (ground (arith, extract_from-tokens args o' scope'))
    | inr (x, a) ↦ rw (extract_from_go o scope tok args e, a) (ground arith)
  ]
]

-- The highest `-d` level among the tokens.
abbrev pub max_level : List Token → ℕ
max_level [] = 0
max_level (level_flag n ∷ ts) = max n (max_level ts)
max_level (_ ∷ ts) = max_level ts

abbrev pub is_help : Token → Bool
is_help help_flag = true
is_help _ = false

abbrev pub is_version : Token → Bool
is_version version_flag = true
is_version _ = false

abbrev pub is_verbose : Token → Bool
is_verbose verbose_flag = true
is_verbose _ = false

abbrev pub any : (Token → Bool) → List Token → Bool
any p [] = false
any p (t ∷ ts) = p t || any p ts

-- What the flags of the options say of the tokens read.
pub record HasFlags (ts : List Token) (o o' : Options) : Type 0 where
  pub level : o'.log_level ≡ max o.log_level (max_level ts)
  pub help : o'.help ≡ (o.help || any is_help ts)
  pub version : o'.version ≡ (o.version || any is_version ts)
  pub verbose : o'.verbose ≡ (o.verbose || any is_verbose ts)

abbrev Flagged : Token → Options → Result OptionError (Options × Scope) → Type 0
Flagged t o (ok (o', scope')) = HasFlags (t ∷ []) o o'
Flagged t o (err e) = Unit

sub-Flagged :
    (name : SubOption) (val : Bytes) (o : Options) (scope : Scope)
    → Flagged (sub name val) o (apply (sub name val) o scope)
unfolding apply
sub-Flagged key val o scope_q = ground arith
sub-Flagged _ val o _ = ground arith

apply-Flagged : (t : Token) (o : Options) (scope : Scope) → Flagged t o (apply t o scope)
apply-Flagged (sub name val) o scope = sub-Flagged name val o scope
apply-Flagged _ o scope = unfold apply in ground arith

HasFlags-cons :
    (t : Token) (ts : List Token) (o o' o'' : Options)
    → HasFlags (t ∷ []) o o'
    → HasFlags ts o' o''
    → HasFlags (t ∷ ts) o o''
HasFlags-cons help_flag ts o o' o'' h k = ground arith
HasFlags-cons _ ts o o' o'' h k = ground arith

apply_all-HasFlags :
    (ts : List Token) (o : Options) (scope : Scope) {o' : Options} {scope' : Scope}
    → apply_all ts o scope ≡ ok (o', scope')
    → HasFlags ts o o'
apply_all-HasFlags [] o scope h = ground arith
apply_all-HasFlags (t ∷ ts) o scope {o' = last} h =
    let ((o', scope'), a, later) = >>=-eq-ok (apply t o scope) (λ p. apply_all ts p.0 p.1) h in
    HasFlags-cons t ts o o' last (rw a at (apply-Flagged t o scope))
      (apply_all-HasFlags ts o' scope' later)

flags_of :
    {ts : List Token} {o o' : Options} {rest rest' : List Bytes}
    → ◌≡◌ {A = Result OptionError (Options × List Bytes)} (ok (o, rest)) (ok (o', rest'))
    → HasFlags ts no_options o
    → (rest' ≡ rest)
      × (o'.log_level ≡ max_level ts)
      × (o'.help ≡ any is_help ts)
      × (o'.version ≡ any is_version ts)
      × (o'.verbose ≡ any is_verbose ts)
flags_of done v = ground arith

-- What the options and the rest are, by the tokens.
pub extract_options-tokens :
    (args : List Bytes) {o : Options} {rest : List Bytes}
    → extract_options args ≡ ok (o, rest)
    → (rest ≡ positional args)
      × (o.log_level ≡ max_level (tokens args))
      × (o.help ≡ any is_help (tokens args))
      × (o.version ≡ any is_version (tokens args))
      × (o.verbose ≡ any is_verbose (tokens args))
unfolding extract_options
extract_options-tokens args h =
    let e = sym (extract_from-tokens args no_options scope_none) ∙ h in
    let ((o, scope), a, done) =
      >>=-eq-ok (apply_all (tokens args) no_options scope_none) (λ p. ok (p.0, positional args))
        e in
    flags_of done (apply_all-HasFlags (tokens args) no_options scope_none a)
