-- ===== src/Config/Extract/Flags.antt =====
-- The flags of a command line, read from its arguments as texts.
use go_packet_repeater.Base.{
  ℕ, ◌≡◌, refl, sym, ◌∙◌, subst, arith, max, Bool, true, false, ◌||◌, Option, none, some, List, [],
  ◌∷◌, Bytes, String, codes, if◌then◌else◌, text_eq, text_eq_iff, strip_prefix, Bool-cases,
  Option-cases, inl, inr, ok,
}
use go_packet_repeater.Config.Options.{Options, Token, level_flag, token_of}
use go_packet_repeater.Config.Extract.{extract_options}
use go_packet_repeater.Config.Extract.Tokens.{
  tokens, positional, max_level, is_help, is_version, is_verbose, any, extract_options-tokens,
}

-- The text is one of these, or starts with one of these.
abbrev pub is_one : Bytes → List String → Bool
is_one tok [] = false
is_one tok (w ∷ ws) = text_eq tok (codes w) || is_one tok ws

abbrev starts : Option Bytes → Bool
starts none = false
starts (some rest) = true

abbrev pub starts_with : Bytes → List String → Bool
starts_with tok [] = false
starts_with tok (w ∷ ws) = starts (strip_prefix (codes w) tok) || starts_with tok ws

abbrev flags : List String
flags = "-help" ∷ "-version" ∷ "-v" ∷ "-d" ∷ "-dd" ∷ "-ddd" ∷ "-Q" ∷ "-Z" ∷ "-M" ∷ "-F" ∷ []

abbrev settings : List String
settings = "-key=" ∷ "-cert=" ∷ "-ca=" ∷ "-verify=" ∷ "-signca=" ∷ "-servername=" ∷ "-user=" ∷ []

-- An option, by its text.
unfoldable pub is_option : Bytes → Bool
is_option tok = is_one tok flags || starts_with tok settings

-- The arguments before the first that is no option, and the others.
unfoldable pub front : List Bytes → List Bytes
front [] = []
front (tok ∷ args) = if is_option tok then tok ∷ front args else []

unfoldable pub behind : List Bytes → List Bytes
behind [] = []
behind (tok ∷ args) = if is_option tok then behind args else tok ∷ args

unfoldable pub has : String → List Bytes → Bool
has w [] = false
has w (tok ∷ args) = text_eq tok (codes w) || has w args

-- The highest level that is asked for.
unfoldable pub highest : List Bytes → ℕ
highest args =
    if has "-ddd" args then 3 else if has "-dd" args then 2 else if has "-d" args then 1 else 0

abbrev gives : (Token → Bool) → Option Token → Bool
gives p none = false
gives p (some t) = p t

abbrev token_level : Option Token → ℕ
token_level none = 0
token_level (some t) = max_level (t ∷ [])

abbrev is_some : Option Token → Bool
is_some none = false
is_some (some t) = true

-- What the switch of `extractOptions` takes a text for.
record Literal (tok : Bytes) : Type 0 where
  option : is_some (token_of tok) ≡ is_option tok
  help : gives is_help (token_of tok) ≡ text_eq tok (codes "-help")
  version : gives is_version (token_of tok) ≡ text_eq tok (codes "-version")
  verbose : gives is_verbose (token_of tok) ≡ text_eq tok (codes "-v")
  level : token_level (token_of tok) ≡ highest (tok ∷ [])

Literal-help : Literal (codes "-help")
unfolding token_of text_eq strip_prefix is_option highest has
Literal-help = record { option = refl; help = refl; version = refl; verbose = refl; level = refl }

Literal-version : Literal (codes "-version")
unfolding token_of text_eq strip_prefix is_option highest has
Literal-version = record {
  option = refl;
  help = refl;
  version = refl;
  verbose = refl;
  level = refl;
}

Literal-v : Literal (codes "-v")
unfolding token_of text_eq strip_prefix is_option highest has
Literal-v = record { option = refl; help = refl; version = refl; verbose = refl; level = refl }

Literal-d : Literal (codes "-d")
unfolding token_of text_eq strip_prefix is_option highest has
Literal-d = record { option = refl; help = refl; version = refl; verbose = refl; level = refl }

Literal-dd : Literal (codes "-dd")
unfolding token_of text_eq strip_prefix is_option highest has
Literal-dd = record { option = refl; help = refl; version = refl; verbose = refl; level = refl }

Literal-ddd : Literal (codes "-ddd")
unfolding token_of text_eq strip_prefix is_option highest has
Literal-ddd = record { option = refl; help = refl; version = refl; verbose = refl; level = refl }

-- A text is one of the words that are flags by themselves, or differs from all.
by_word :
    (w : String) (tok : Bytes)
    → Literal (codes w)
    → (text_eq tok (codes w) ≡ false → Literal tok)
    → Literal tok
by_word w tok here other = elim (Bool-cases (text_eq tok (codes w))) [
  | inl e ↦ subst Literal (sym ((text_eq_iff tok (codes w)).0 e)) here
  | inr e ↦ other e
]

other-Literal :
    (tok : Bytes)
    → text_eq tok (codes "-help") ≡ false
    → text_eq tok (codes "-version") ≡ false
    → text_eq tok (codes "-v") ≡ false
    → text_eq tok (codes "-d") ≡ false
    → text_eq tok (codes "-dd") ≡ false
    → text_eq tok (codes "-ddd") ≡ false
    → Literal tok
unfolding token_of is_option highest has
other-Literal tok e1 e2 e3 e4 e5 e6 = ground (arith, e1, e2, e3, e4, e5, e6)

token-Literal : (tok : Bytes) → Literal tok
token-Literal tok = by_word "-help" tok Literal-help (λ e1.
    by_word "-version" tok Literal-version (λ e2. by_word "-v" tok Literal-v (λ e3.
      by_word "-d" tok Literal-d (λ e4.
        by_word "-dd" tok Literal-dd
          (λ e5. by_word "-ddd" tok Literal-ddd (other-Literal tok e1 e2 e3 e4 e5))))))

highest-cons :
    (tok : Bytes) (args : List Bytes)
    → highest (tok ∷ args) ≡ max (highest (tok ∷ [])) (highest args)
unfolding highest has
highest-cons tok args = ground arith

highest-none : highest [] ≡ 0
unfolding highest has
highest-none = refl

-- The tokens of a command line say what its front does.
record Agree (args : List Bytes) : Type 0 where
  rest : positional args ≡ behind args
  level : max_level (tokens args) ≡ highest (front args)
  help : any is_help (tokens args) ≡ has "-help" (front args)
  version : any is_version (tokens args) ≡ has "-version" (front args)
  verbose : any is_verbose (tokens args) ≡ has "-v" (front args)

max_level-cons :
    (t : Token) (ts : List Token) → max_level (t ∷ ts) ≡ max (max_level (t ∷ [])) (max_level ts)
max_level-cons (level_flag n) ts = ground arith
max_level-cons _ ts = ground arith

args-Agree : (args : List Bytes) → Agree args
unfolding front behind has
args-Agree [] = record {
  rest = refl;
  level = sym highest-none;
  help = refl;
  version = refl;
  verbose = refl;
}
args-Agree (tok ∷ args) = elim (Option-cases (token_of tok)) [
  | inl e ↦ ground (arith, e, token-Literal tok, highest-none)
  | inr (t, e) ↦ ground (
    arith,
    e,
    token-Literal tok,
    args-Agree args,
    highest-cons tok (front args),
    max_level-cons t (tokens args),
  )
]

-- If `extractOptions` accepts a command line, the rest that it returns starts at the first
-- argument that is no option: it is none of the words -help, -version, -v, -d, -dd, -ddd, -Q, -Z,
-- -M and -F, and starts with none of the seven names of settings with their =. Of the arguments
-- before it, the log level is 3 if -ddd is among them, else 2 if -dd is, else 1 if -d is, else 0;
-- and help, version and verbose are set exactly if -help, -version and -v are among them.
pub extract_options-flags :
    (args : List Bytes) {o : Options} {rest : List Bytes}
    → extract_options args ≡ ok (o, rest)
    → (rest ≡ behind args)
      × (o.log_level ≡ highest (front args))
      × (o.help ≡ has "-help" (front args))
      × (o.version ≡ has "-version" (front args))
      × (o.verbose ≡ has "-v" (front args))
extract_options-flags args e =
    let (r, l, h, v, b) = extract_options-tokens args e in
    let g = args-Agree args in (r ∙ g.rest, l ∙ g.level, h ∙ g.help, v ∙ g.version, b ∙ g.verbose)
