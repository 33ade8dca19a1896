-- ===== src/Config/Extract/Invariant.antt =====
-- What the options hold between two tokens.
use go_packet_repeater.Base.{
  ◌≤◌, ◌≡◌, ◌≢◌, arith, true, false, Option, none, some, List, [], ◌∷◌, Bytes, Result, ok, err, inl,
  inr, Option-cases, Result-cases,
}
use go_packet_repeater.Config.Options.{
  Options, Scope, scope_none, scope_q, scope_z, scope_m, scope_f, Token, level_flag, help_flag, sub,
  token_of, SubOption, key, cert, ca, verify, sign_ca, server_name, user,
}
use go_packet_repeater.Config.Extract.{
  OptionError, apply, extract_from, extract_from_stop, extract_from_go, extract_options, no_options,
  no_ssl_scope, no_mitm_scope, no_auth_scope,
}

-- The open block is one that was given. A block that was not given holds its defaults, and the
-- user of `-F` is never empty.
pub record IsValid (o : Options) (scope : Scope) : Type 0 where
  pub scope_q_seen : scope ≡ scope_q → o.q.seen ≡ true
  pub scope_z_seen : scope ≡ scope_z → o.z.seen ≡ true
  pub scope_m_seen : scope ≡ scope_m → o.m.seen ≡ true
  pub scope_f_seen : scope ≡ scope_f → o.f.seen ≡ true
  pub q_unseen : o.q.seen ≡ false → o.q ≡ no_ssl_scope
  pub z_unseen : o.z.seen ≡ false → o.z ≡ no_ssl_scope
  pub m_unseen : o.m.seen ≡ false → o.m ≡ no_mitm_scope
  pub f_unseen : o.f.seen ≡ false → o.f ≡ no_auth_scope
  pub user_given : o.f.user_seen ≡ true → o.f.user ≢ []
  pub user_missing : o.f.user_seen ≡ false → (o.f.user ≡ []) × (o.f.pass ≡ [])
  pub level_capped : o.log_level ≤ 3

abbrev IsLevel : Token → Type 0
IsLevel (level_flag n) = n ≤ 3
IsLevel _ = Unit

abbrev After : Result OptionError (Options × Scope) → Type 0
After (ok (o, scope)) = IsValid o scope
After (err e) = Unit

set_sub-IsValid :
    (name : SubOption) (scope : Scope) (val : Bytes) (o : Options)
    → IsValid o scope
    → After (apply (sub name val) o scope)
unfolding apply
set_sub-IsValid key scope_q val o v = ground arith
set_sub-IsValid key _ val o v = ground arith
set_sub-IsValid cert scope_q val o v = ground arith
set_sub-IsValid cert _ val o v = ground arith
set_sub-IsValid ca scope_q val o v = ground arith
set_sub-IsValid ca _ val o v = ground arith
set_sub-IsValid verify scope_q val o v = ground arith
set_sub-IsValid verify _ val o v = ground arith
set_sub-IsValid sign_ca scope_q val o v = ground arith
set_sub-IsValid sign_ca _ val o v = ground arith
set_sub-IsValid server_name scope_q val o v = ground arith
set_sub-IsValid server_name _ val o v = ground arith
set_sub-IsValid user scope_q val o v = ground arith
set_sub-IsValid user _ val o v = ground arith

-- Every token that is taken keeps the options valid for the block that is then open.
pub apply-IsValid :
    (t : Token) (o : Options) (scope : Scope)
    → IsLevel t
    → IsValid o scope
    → After (apply t o scope)
apply-IsValid help_flag o scope l v = unfold apply in ground arith
apply-IsValid (sub name val) o scope l v = set_sub-IsValid name scope val o v
apply-IsValid _ o scope l v = unfold apply in ground arith

abbrev IsToken : Option Token → Type 0
IsToken none = Unit
IsToken (some t) = IsLevel t

token_of-IsToken : (tok : Bytes) → IsToken (token_of tok)
unfolding token_of
token_of-IsToken tok = ground arith

abbrev Extracted : Result OptionError (Options × List Bytes) → Type 0
Extracted (ok (o, rest)) = (scope : Scope) × IsValid o scope
Extracted (err e) = Unit

extract_from-IsValid :
    (args : List Bytes) (o : Options) (scope : Scope)
    → IsValid o scope
    → Extracted (extract_from o scope args)
extract_from-IsValid [] o scope v = unfold extract_from in (scope, v)
extract_from-IsValid (tok ∷ args) o scope v = elim (Option-cases (token_of tok)) [
  | inl e ↦ rw (extract_from_stop o scope tok args e) (scope, v)
  | inr (t, e) ↦ elim (Result-cases (apply t o scope)) [
    | inl ((o', scope'), a) ↦
        rw (extract_from_go o scope tok args e, a)
          (extract_from-IsValid args o' scope'
            (rw a at (apply-IsValid t o scope (rw e at (token_of-IsToken tok)) v)))
    | inr (x, a) ↦ rw (extract_from_go o scope tok args e, a) tt
  ]
]

no_options-IsValid : IsValid no_options scope_none
no_options-IsValid = ground arith

pub extract_options-IsValid :
    (args : List Bytes) {o : Options} {rest : List Bytes}
    → extract_options args ≡ ok (o, rest)
    → (scope : Scope) × IsValid o scope
unfolding extract_options
extract_options-IsValid args e =
    rw e at (extract_from-IsValid args no_options scope_none no_options-IsValid)
