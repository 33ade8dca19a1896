-- ===== src/Config/ParseAll.antt =====
-- `ParseAll` and `splitArgGroups` of internal/config/parse.go.
pub mod Groups
pub mod AllOrNothing
use go_packet_repeater.Base.{
  ℕ, ◌+◌, Bool, true, false, ◌||◌, List, [], ◌∷◌, ◌++◌, Bytes, codes, text_eq, if◌then◌else◌,
  is_empty, Result, ok, err, ◌>>=◌, map_err,
}
use go_packet_repeater.System.{System}
use go_packet_repeater.Config.{Mode, forward, http_proxy, socks_proxy, version, help, Config}
use go_packet_repeater.Config.Parse.{ParseError, parse}

-- The loop over the arguments: `finished` and `last` are together the source's `groups`.
group_from : List (List Bytes) → List Bytes → List Bytes → List (List Bytes)
group_from finished last [] = finished ++ last ∷ []
group_from finished last (a ∷ args) = elim (text_eq a (codes "--")) [
  | true ↦ group_from (finished ++ last ∷ []) [] args
  | false ↦ group_from finished (last ++ a ∷ []) args
]

unfoldable pub split_arg_groups : List Bytes → List (List Bytes)
unfolding group_from
split_arg_groups = group_from [] []

-- An error of one group, with its number from 1 and its arguments.
pub data GroupError : Type 0 where
  bad_group : ℕ → List Bytes → ParseError → GroupError
  info_group : ℕ → List Bytes → GroupError

-- `errors.Join` of the groups' errors, or the error of the only group.
pub data ParseAllError : Type 0 where
  only_group : ParseError → ParseAllError
  joined : List GroupError → ParseAllError

-- `cfg.Mode == ModeHelp || cfg.Mode == ModeVersion`
abbrev pub is_info : Mode → Bool
is_info help = true
is_info version = true
is_info _ = false

not_info : ℕ → List Bytes → Config → Result GroupError Config
not_info i group c = if is_info c.mode then err (info_group i group) else ok c

-- the switch in the loop over the groups
unfoldable pub group_config : System → ℕ → List Bytes → Result GroupError Config
unfolding not_info
group_config sys i group = do c ← map_err (bad_group i group) (parse sys group); not_info i group c

-- the loop, with its number, `cfgs` and `errs`
unfoldable pub collect :
    System → ℕ → List (List Bytes) → List Config → List GroupError → List Config × List GroupError
collect sys i [] cfgs errs = (cfgs, errs)
collect sys i (group ∷ groups) cfgs errs = elim (group_config sys i group) [
  | ok c ↦ collect sys (i + 1) groups (cfgs ++ c ∷ []) errs
  | err e ↦ collect sys (i + 1) groups cfgs (errs ++ e ∷ [])
]

-- `if len(errs) > 0`
unless_failed : List Config × List GroupError → Result ParseAllError (List Config)
unless_failed (cfgs, errs) = if is_empty errs then ok cfgs else err (joined errs)

unfoldable pub parse_groups : System → List (List Bytes) → Result ParseAllError (List Config)
unfolding unless_failed
parse_groups sys (group ∷ []) = do c ← map_err only_group (parse sys group); ok (c ∷ [])
parse_groups sys groups = unless_failed (collect sys 1 groups [] [])

unfoldable pub parse_all : System → List Bytes → Result ParseAllError (List Config)
unfolding parse_groups
parse_all sys args = parse_groups sys (split_arg_groups args)
