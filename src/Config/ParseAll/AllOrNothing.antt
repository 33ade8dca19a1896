-- ===== src/Config/ParseAll/AllOrNothing.antt =====
-- `ParseAll` gives a configuration for every group, or an error and none.
use go_packet_repeater.Base.{
  ℕ, ◌+◌, ◌≡◌, ◌⊎◌, refl, arith, false, List, [], ◌∷◌, ◌++◌, Bytes, ok, err, inl, inr, append_assoc,
  append-nil, Result-cases, Bool-cases, sym, subst, ap, ◌∙◌, length, is_empty, if◌then◌else◌,
  map_err, map_err-eq-ok, >>=-eq-ok, ok-injective,
}
use go_packet_repeater.System.{System}
use go_packet_repeater.Config.{Config}
use go_packet_repeater.Config.Parse.{parse}
use go_packet_repeater.Config.ParseAll.{
  GroupError, joined, only_group, is_info, not_info, group_config, collect, parse_groups,
  split_arg_groups, parse_all, bad_group,
}

module _ (sys : System) where
  -- The configurations and the errors of the groups, each in the groups' order.
  abbrev pub accepted : ℕ → List (List Bytes) → List Config
  accepted i [] = []
  accepted i (g ∷ gs) = elim (group_config sys i g) [
    | ok c ↦ c ∷ accepted (i + 1) gs
    | err e ↦ accepted (i + 1) gs
  ]

  abbrev pub refused : ℕ → List (List Bytes) → List GroupError
  refused i [] = []
  refused i (g ∷ gs) = elim (group_config sys i g) [
    | ok c ↦ refused (i + 1) gs
    | err e ↦ e ∷ refused (i + 1) gs
  ]

  collect_lem :
      (i : ℕ) (gs : List (List Bytes)) (cfgs : List Config) (errs : List GroupError)
      → collect sys i gs cfgs errs ≡ (cfgs ++ accepted i gs, errs ++ refused i gs)
  unfolding collect
  collect_lem i [] cfgs errs = rw (append-nil, append-nil)
  collect_lem i (g ∷ gs) cfgs errs = elim (Result-cases (group_config sys i g)) [
    | inl (c, e) ↦
        rw (e, collect, accepted, refused)
          (collect_lem (i + 1) gs (cfgs ++ c ∷ []) errs ∙ simp append_assoc)
    | inr (x, e) ↦
        rw (e, collect, accepted, refused)
          (collect_lem (i + 1) gs cfgs (errs ++ x ∷ []) ∙ simp append_assoc)
  ]

  -- The configurations are those of the groups, one for one.
  abbrev pub Each : List (List Bytes) → List Config → Type 0
  Each [] [] = Unit
  Each (g ∷ gs) (c ∷ cs) = (parse sys g ≡ ok c) × Each gs cs
  Each _ _ = ⊥

  abbrev pub NoInfo : List Config → Type 0
  NoInfo [] = Unit
  NoInfo (c ∷ cs) = (is_info c.mode ≡ false) × NoInfo cs

  not_info-eq-ok :
      (i : ℕ) (g : List Bytes) (c' : Config) {c : Config}
      → not_info i g c' ≡ ok c
      → (c' ≡ c) × (is_info c'.mode ≡ false)
  unfolding not_info
  not_info-eq-ok i g c' e = elim (Bool-cases (is_info c'.mode)) [
    | inl h ↦ absurd (ground arith)
    | inr h ↦ (ok-injective (rw h at e), h)
  ]

  group_config-eq-ok :
      (i : ℕ) (g : List Bytes) {c : Config}
      → group_config sys i g ≡ ok c
      → (parse sys g ≡ ok c) × (is_info c.mode ≡ false)
  unfolding group_config
  group_config-eq-ok i g {c} e =
      let (c', p, rest) = >>=-eq-ok (map_err (bad_group i g) (parse sys g)) (not_info i g) e in
      let (same, k) = not_info-eq-ok i g c' rest in
      (map_err-eq-ok (bad_group i g) _ p ∙ ap ok same, rw (← same) k)

  none_refused :
      (i : ℕ) (gs : List (List Bytes))
      → refused i gs ≡ []
      → Each gs (accepted i gs) × NoInfo (accepted i gs)
  none_refused i [] e = (tt, tt)
  none_refused i (g ∷ gs) e = elim (Result-cases (group_config sys i g)) [
    | inl (c, h) ↦
        let (each, plain) = none_refused (i + 1) gs (ground (arith, h)) in
        let (p, k) = group_config-eq-ok i g h in rw (h, accepted) ((p, each), (k, plain))
    | inr (x, h) ↦ absurd (ground (arith, h))
  ]

  parse_groups_several :
      (g h : List Bytes) (gs : List (List Bytes))
      → parse_groups sys (g ∷ h ∷ gs) ≡ (
          if is_empty (refused 1 (g ∷ h ∷ gs))
          then ok (accepted 1 (g ∷ h ∷ gs))
          else err (joined (refused 1 (g ∷ h ∷ gs))))
  unfolding parse_groups
  parse_groups_several g h gs = rw (collect_lem 1 (g ∷ h ∷ gs) [] [])

  -- One configuration for each group; of several groups, none asks for help or the version.
  abbrev pub AllOf : List (List Bytes) → List Config → Type 0
  AllOf gs cfgs = Each gs cfgs × ((length gs ≡ 1) ⊎ NoInfo cfgs)

  parse_groups-AllOf :
      (gs : List (List Bytes)) {cfgs : List Config} → parse_groups sys gs ≡ ok cfgs → AllOf gs cfgs
  unfolding parse_groups collect
  parse_groups-AllOf [] e = subst (AllOf []) (ok-injective e) (tt, inr tt)
  parse_groups-AllOf (g ∷ []) e =
      let (c, p, done) = >>=-eq-ok (map_err only_group (parse sys g)) (λ c. ok (c ∷ [])) e in
      subst (AllOf (g ∷ [])) (ok-injective done) ((map_err-eq-ok only_group _ p, tt), inl refl)
  parse_groups-AllOf (g ∷ h ∷ gs) {cfgs} e =
      several (refused 1 (g ∷ h ∷ gs)) refl (sym (parse_groups_several g h gs) ∙ e)
    where
      several :
          (errs : List GroupError)
          → refused 1 (g ∷ h ∷ gs) ≡ errs
          → (if is_empty (refused 1 (g ∷ h ∷ gs))
              then ok (accepted 1 (g ∷ h ∷ gs))
              else err (joined (refused 1 (g ∷ h ∷ gs))))
            ≡ ok cfgs
          → AllOf (g ∷ h ∷ gs) cfgs
      several [] r s =
          let (each, plain) = none_refused 1 (g ∷ h ∷ gs) r in
          subst (AllOf (g ∷ h ∷ gs)) (ok-injective (rw r at s)) (each, inr plain)
      several (x ∷ errs) r s = cc (rw r at s)

  -- What `ParseAll` returns is one configuration for each group, in their order, each the result
  -- of `Parse` on its group; and where there are several groups, none of the configurations is
  -- help or version.
  pub parse_all-AllOf :
      (args : List Bytes) {cfgs : List Config}
      → parse_all sys args ≡ ok cfgs
      → AllOf (split_arg_groups args) cfgs
  unfolding parse_all
  parse_all-AllOf args e = parse_groups-AllOf (split_arg_groups args) e

  -- For several groups, `ParseAll` returns all their configurations if no group is refused;
  -- otherwise it returns the errors of all the groups that are, in their order and with their
  -- numbers, and no configuration.
  pub parse_all_several :
      (args g h : List Bytes) (gs : List (List Bytes))
      → split_arg_groups args ≡ g ∷ h ∷ gs
      → parse_all sys args ≡ (
          if is_empty (refused 1 (g ∷ h ∷ gs))
          then ok (accepted 1 (g ∷ h ∷ gs))
          else err (joined (refused 1 (g ∷ h ∷ gs))))
  unfolding parse_all
  parse_all_several args g h gs e = rw e (parse_groups_several g h gs)
