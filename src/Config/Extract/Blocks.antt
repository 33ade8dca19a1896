-- ===== src/Config/Extract/Blocks.antt =====
-- The global flags do not open or close a block, and may stand anywhere among the options.
use go_packet_repeater.Base.{◌≡◌, refl, arith, false, List, [], ◌∷◌, Bytes, Result, ok, err, ◌>>=◌}
use go_packet_repeater.Config.Options.{
  Options, Scope, scope_q, Token, help_flag, version_flag, verbose_flag, level_flag, sub, SubOption,
  key,
}
use go_packet_repeater.Config.Extract.{OptionError, apply}
use go_packet_repeater.Config.Extract.Tokens.{apply_all}

-- The tokens that open a block or belong to one.
abbrev pub block_tokens : List Token → List Token
block_tokens [] = []
block_tokens (help_flag ∷ ts) = block_tokens ts
block_tokens (version_flag ∷ ts) = block_tokens ts
block_tokens (verbose_flag ∷ ts) = block_tokens ts
block_tokens (level_flag n ∷ ts) = block_tokens ts
block_tokens (t ∷ ts) = t ∷ block_tokens ts

-- The blocks of the options, with every global flag taken back.
abbrev pub without_flags : Options → Options
without_flags o = record o { help = false; version = false; log_level = 0; verbose = false }

abbrev pub blocks : Result OptionError (Options × Scope) → Result OptionError (Options × Scope)
blocks (ok (o, scope)) = ok (without_flags o, scope)
blocks (err e) = err e

sub-blocks :
    (name : SubOption) (val : Bytes) (o : Options) (scope : Scope)
    → blocks (apply (sub name val) o scope) ≡ apply (sub name val) (without_flags o) scope
unfolding apply
sub-blocks key val o scope_q = ground arith
sub-blocks _ val o _ = ground arith

module _ (ts : List Token) where
  abbrev Agrees : Options → Scope → Type 0
  Agrees o scope =
      blocks (apply_all ts o scope) ≡ apply_all (block_tokens ts) (without_flags o) scope

  bind-blocks :
      (m m' : Result OptionError (Options × Scope))
      → blocks m ≡ m'
      → ((o : Options) (scope : Scope) → Agrees o scope)
      → blocks (m >>= λ p. apply_all ts p.0 p.1) ≡ (m' >>= λ p. apply_all (block_tokens ts) p.0 p.1)
  bind-blocks (ok (o, scope)) m' e ih = rw (← e) (ih o scope)
  bind-blocks (err x) m' e ih = rw (← e)

-- For every row of option tokens and every state of the loop, the tokens without -help, -version,
-- -v, -d, -dd and -ddd give the same four blocks, scope or error as all the tokens.
pub apply_all-blocks :
    (ts : List Token) (o : Options) (scope : Scope)
    → blocks (apply_all ts o scope) ≡ apply_all (block_tokens ts) (without_flags o) scope
unfolding apply
apply_all-blocks [] o scope = refl
apply_all-blocks (help_flag ∷ ts) o scope = apply_all-blocks ts _ scope
apply_all-blocks (version_flag ∷ ts) o scope = apply_all-blocks ts _ scope
apply_all-blocks (verbose_flag ∷ ts) o scope = apply_all-blocks ts _ scope
apply_all-blocks (level_flag n ∷ ts) o scope = apply_all-blocks ts _ scope
apply_all-blocks (sub name val ∷ ts) o scope =
    bind-blocks ts (apply (sub name val) o scope) _ (sub-blocks name val o scope)
      (λ o' scope'. apply_all-blocks ts o' scope')
apply_all-blocks (t ∷ ts) o scope =
    bind-blocks ts (apply t o scope) (apply t (without_flags o) scope) (ground arith)
      (λ o' scope'. apply_all-blocks ts o' scope')
