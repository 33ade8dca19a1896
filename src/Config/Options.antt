-- ===== src/Config/Options.antt =====
-- The options of a command line and its option tokens: the scope types of
-- internal/config/parse.go, and the conditions of the switch of `extractOptions` in their order.
use go_packet_repeater.Base.{
  ℕ, Bool, not, Option, none, some, Bytes, String, codes, ◌==◌, if◌then◌else◌, text_eq,
  strip_prefix,
}

pub record SslScope : Type 0 where
  pub key_path : Bytes
  pub cert_path : Bytes
  pub ca_path : Bytes
  pub verify : Bool
  pub seen : Bool

pub record MitmScope : Type 0 where
  pub sign_ca_path : Bytes
  pub server_name : Bytes
  pub ca_path : Bytes
  pub verify : Bool
  pub seen : Bool

pub record ForwardAuthScope : Type 0 where
  pub user : Bytes
  pub pass : Bytes
  pub user_seen : Bool
  pub seen : Bool

pub record Options : Type 0 where
  pub q : SslScope
  pub z : SslScope
  pub m : MitmScope
  pub f : ForwardAuthScope
  pub help : Bool
  pub version : Bool
  pub log_level : ℕ
  pub verbose : Bool

-- `sslScopeKind`
pub data Scope : Type 0 where
  scope_none scope_q scope_z scope_m scope_f : Scope

pub data SubOption : Type 0 where
  key cert ca verify sign_ca server_name user : SubOption

-- An option token, by the case of the switch that takes it, with the value behind its prefix.
pub data Token : Type 0 where
  help_flag version_flag verbose_flag : Token
  level_flag : ℕ → Token
  block_q block_z block_m block_f : Token
  sub : SubOption → Bytes → Token

-- `logLevelTokens[tok]`: 0 for a token that the map does not hold
log_level_tokens : Bytes → ℕ
log_level_tokens tok =
    if text_eq tok (codes "-d")
    then 1
    else if text_eq tok (codes "-dd")
    then 2
    else if text_eq tok (codes "-ddd")
    then 3
    else 0

abbrev pub or_else {ℓ} : {A : Type ℓ} → Option A → Option A → Option A
or_else (some a) o = some a
or_else none o = o

-- `case strings.HasPrefix(tok, p)`, with `strings.TrimPrefix(tok, p)`
prefixed : String → SubOption → Bytes → Option Token
prefixed p name tok = elim (strip_prefix (codes p) tok) [
  | none ↦ none
  | some value ↦ some (sub name value)
]

sub_token : Bytes → Option Token
unfolding prefixed
sub_token tok = or_else (prefixed "-key=" key tok) (
    or_else (prefixed "-cert=" cert tok) (
      or_else (prefixed "-ca=" ca tok) (
        or_else (prefixed "-verify=" verify tok) (
          or_else (prefixed "-signca=" sign_ca tok)
            (or_else (prefixed "-servername=" server_name tok) (prefixed "-user=" user tok))))))

-- `none` is the switch's default: the first positional argument
unfoldable pub token_of : Bytes → Option Token
unfolding log_level_tokens sub_token
token_of tok =
    if text_eq tok (codes "-help")
    then some help_flag
    else if text_eq tok (codes "-version")
    then some version_flag
    else if text_eq tok (codes "-v")
    then some verbose_flag
    else if not (log_level_tokens tok == 0)
    then some (level_flag (log_level_tokens tok))
    else if text_eq tok (codes "-Q")
    then some block_q
    else if text_eq tok (codes "-Z")
    then some block_z
    else if text_eq tok (codes "-M")
    then some block_m
    else if text_eq tok (codes "-F")
    then some block_f
    else sub_token tok
