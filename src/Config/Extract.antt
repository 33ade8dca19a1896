-- ===== src/Config/Extract.antt =====
-- `extractOptions` of internal/config/parse.go: the bodies of the switch, and the loop.
pub mod Invariant
pub mod Tokens
pub mod Flags
pub mod Blocks
use go_packet_repeater.Base.{
  ℕ, Bool, true, false, not, Option, none, some, List, [], ◌∷◌, Bytes, codes, ltb, if◌then◌else◌,
  ◌≡◌, arith, text_eq, cut, is_empty, Result, ok, err, ◌>>=◌, ◌>>◌, fail_if,
}
use go_packet_repeater.Config.Options.{
  SslScope, MitmScope, ForwardAuthScope, Options, Scope, scope_none, scope_q, scope_z, scope_m,
  scope_f, SubOption, key, cert, ca, verify, sign_ca, server_name, user, Token, help_flag,
  version_flag, verbose_flag, level_flag, block_q, block_z, block_m, block_f, sub, token_of,
}

pub data OptionError : Type 0 where
  repeated_block : Scope → OptionError
  repeated : Scope → SubOption → OptionError
  misplaced : SubOption → OptionError
  bad_user : Bytes → OptionError

set_key : Scope → Bytes → Options → Result OptionError Options
set_key scope_q val o = do
  fail_if (not (is_empty o.q.key_path)) (repeated scope_q key)
  ok (record o { q = record (o.q) { key_path = val } })
set_key scope_z val o = do
  fail_if (not (is_empty o.z.key_path)) (repeated scope_z key)
  ok (record o { z = record (o.z) { key_path = val } })
set_key _ val o = err (misplaced key)

set_cert : Scope → Bytes → Options → Result OptionError Options
set_cert scope_q val o = do
  fail_if (not (is_empty o.q.cert_path)) (repeated scope_q cert)
  ok (record o { q = record (o.q) { cert_path = val } })
set_cert scope_z val o = do
  fail_if (not (is_empty o.z.cert_path)) (repeated scope_z cert)
  ok (record o { z = record (o.z) { cert_path = val } })
set_cert _ val o = err (misplaced cert)

set_ca : Scope → Bytes → Options → Result OptionError Options
set_ca scope_q val o = do
  fail_if (not (is_empty o.q.ca_path)) (repeated scope_q ca)
  ok (record o { q = record (o.q) { ca_path = val } })
set_ca scope_z val o = do
  fail_if (not (is_empty o.z.ca_path)) (repeated scope_z ca)
  ok (record o { z = record (o.z) { ca_path = val } })
set_ca scope_m val o = do
  fail_if (not (is_empty o.m.ca_path)) (repeated scope_m ca)
  ok (record o { m = record (o.m) { ca_path = val } })
set_ca _ val o = err (misplaced ca)

set_verify : Scope → Bytes → Options → Result OptionError Options
set_verify scope_q val o =
    ok (record o { q = record (o.q) { verify = not (text_eq val (codes "0")) } })
set_verify scope_z val o =
    ok (record o { z = record (o.z) { verify = not (text_eq val (codes "0")) } })
set_verify scope_m val o =
    ok (record o { m = record (o.m) { verify = not (text_eq val (codes "0")) } })
set_verify _ val o = err (misplaced verify)

set_sign_ca : Scope → Bytes → Options → Result OptionError Options
set_sign_ca scope_m val o = do
  fail_if (not (is_empty o.m.sign_ca_path)) (repeated scope_m sign_ca)
  ok (record o { m = record (o.m) { sign_ca_path = val } })
set_sign_ca _ val o = err (misplaced sign_ca)

set_server_name : Scope → Bytes → Options → Result OptionError Options
set_server_name scope_m val o = do
  fail_if (not (is_empty o.m.server_name)) (repeated scope_m server_name)
  ok (record o { m = record (o.m) { server_name = val } })
set_server_name _ val o = err (misplaced server_name)

-- `user, pass, ok := strings.Cut(val, ":")`
cut_user : Bytes → Result OptionError (Bytes × Bytes)
cut_user val = elim (cut b':' val) [
  | none ↦ err (bad_user val)
  | some (name, pass) ↦ if is_empty name then err (bad_user val) else ok (name, pass)
]

set_user : Scope → Bytes → Options → Result OptionError Options
unfolding cut_user
set_user scope_f val o = do
  fail_if o.f.user_seen (repeated scope_f user)
  (name, pass) ← cut_user val
  ok (record o { f = record (o.f) { user = name; pass = pass; user_seen = true } })
set_user _ val o = err (misplaced user)

set_sub : SubOption → Scope → Bytes → Options → Result OptionError Options
unfolding set_key set_cert set_ca set_verify set_sign_ca set_server_name set_user
set_sub key = set_key
set_sub cert = set_cert
set_sub ca = set_ca
set_sub verify = set_verify
set_sub sign_ca = set_sign_ca
set_sub server_name = set_server_name
set_sub user = set_user

-- One round of the loop: the case body that takes the token.
unfoldable pub apply : Token → Options → Scope → Result OptionError (Options × Scope)
unfolding set_sub
apply help_flag o scope = ok (record o { help = true }, scope)
apply version_flag o scope = ok (record o { version = true }, scope)
apply verbose_flag o scope = ok (record o { verbose = true }, scope)
apply (level_flag n) o scope =
    ok (record o { log_level = if ltb o.log_level n then n else o.log_level }, scope)
apply block_q o scope = do
  fail_if o.q.seen (repeated_block scope_q)
  ok (record o { q = record (o.q) { seen = true } }, scope_q)
apply block_z o scope = do
  fail_if o.z.seen (repeated_block scope_z)
  ok (record o { z = record (o.z) { seen = true } }, scope_z)
apply block_m o scope = do
  fail_if o.m.seen (repeated_block scope_m)
  ok (record o { m = record (o.m) { seen = true } }, scope_m)
apply block_f o scope = do
  fail_if o.f.seen (repeated_block scope_f)
  ok (record o { f = record (o.f) { seen = true } }, scope_f)
apply (sub name val) o scope = do o' ← set_sub name scope val o; ok (o', scope)

unfoldable pub extract_from :
    Options → Scope → List Bytes → Result OptionError (Options × List Bytes)
extract_from o scope [] = ok (o, [])
extract_from o scope (tok ∷ args) = elim (token_of tok) [
  | none ↦ ok (o, tok ∷ args)
  | some t ↦ do (o', scope') ← apply t o scope; extract_from o' scope' args
]

-- The two ways that a round goes.
pub extract_from_stop :
    (o : Options) (scope : Scope) (tok : Bytes) (args : List Bytes)
    → token_of tok ≡ none
    → extract_from o scope (tok ∷ args) ≡ ok (o, tok ∷ args)
unfolding extract_from
extract_from_stop o scope tok args e = ground arith

pub extract_from_go :
    (o : Options) (scope : Scope) (tok : Bytes) (args : List Bytes) {t : Token}
    → token_of tok ≡ some t
    → extract_from o scope (tok ∷ args) ≡ (apply t o scope >>= λ p. extract_from p.0 p.1 args)
unfolding extract_from
extract_from_go o scope tok args e = ground arith

abbrev pub no_ssl_scope : SslScope
no_ssl_scope = record { key_path = []; cert_path = []; ca_path = []; verify = true; seen = false }

abbrev pub no_mitm_scope : MitmScope
no_mitm_scope = record {
  sign_ca_path = [];
  server_name = [];
  ca_path = [];
  verify = true;
  seen = false;
}

abbrev pub no_auth_scope : ForwardAuthScope
no_auth_scope = record { user = []; pass = []; user_seen = false; seen = false }

abbrev pub no_options : Options
no_options = record {
  q = no_ssl_scope;
  z = no_ssl_scope;
  m = no_mitm_scope;
  f = no_auth_scope;
  help = false;
  version = false;
  log_level = 0;
  verbose = false;
}

unfoldable pub extract_options : List Bytes → Result OptionError (Options × List Bytes)
unfolding extract_from
extract_options = extract_from no_options scope_none
