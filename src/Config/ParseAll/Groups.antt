-- ===== src/Config/ParseAll/Groups.antt =====
-- `splitArgGroups` cuts the arguments at each `--`, and loses nothing.
use go_packet_repeater.Base.{
  ◌≡◌, ◌≢◌, refl, arith, List, [], ◌∷◌, ◌++◌, Bytes, codes, text_eq, text_eq_iff, All, All-append,
  append_assoc, append-nil, inl, inr, Bool-cases, ap, ◌∙◌,
}
use go_packet_repeater.Config.ParseAll.{group_from, split_arg_groups}

abbrev pub separator : Bytes
separator = codes "--"

-- Groups written behind one another with `--` between them.
abbrev pub join_groups : List (List Bytes) → List Bytes
join_groups [] = []
join_groups (g ∷ []) = g
join_groups (g ∷ h ∷ gs) = g ++ separator ∷ join_groups (h ∷ gs)

abbrev pub LacksSeparator : List Bytes → Type 0
LacksSeparator = All (λ a. a ≢ separator)

-- every group behind a separator
abbrev separated : List (List Bytes) → List Bytes
separated [] = []
separated (g ∷ gs) = separator ∷ (g ++ separated gs)

separated-append : (gs hs : List (List Bytes)) → separated (gs ++ hs) ≡ separated gs ++ separated hs
separated-append [] hs = refl
separated-append (g ∷ gs) hs = simp (separated-append gs, append_assoc)

separated-join :
    (g : List Bytes) (gs : List (List Bytes))
    → separated (g ∷ gs) ≡ separator ∷ join_groups (g ∷ gs)
separated-join g [] = rw append-nil
separated-join g (h ∷ gs) = ap (λ r. separator ∷ (g ++ r)) (separated-join h gs)

group_from-separated :
    (args last : List Bytes) (finished : List (List Bytes))
    → separated (group_from finished last args) ≡ separated finished ++ separator ∷ (last ++ args)
unfolding group_from
group_from-separated [] last finished = separated-append finished (last ∷ [])
group_from-separated (a ∷ args) last finished = elim (Bool-cases (text_eq a separator)) [
  | inl e ↦
      rw (e, group_from)
        (group_from-separated args [] (finished ++ last ∷ [])
          ∙ rw ((text_eq_iff a separator).0 e) (simp (separated-append, append_assoc)))
  | inr e ↦
      rw (e, group_from) (group_from-separated args (last ++ a ∷ []) finished ∙ simp append_assoc)
]

group_from-LacksSeparator :
    (args last : List Bytes) (finished : List (List Bytes))
    → LacksSeparator last
    → All LacksSeparator finished
    → All LacksSeparator (group_from finished last args)
unfolding group_from
group_from-LacksSeparator [] last finished l f = All-append _ finished (last ∷ []) f (l, tt)
group_from-LacksSeparator (a ∷ args) last finished l f = elim (Bool-cases (text_eq a separator)) [
  | inl e ↦
      rw (e, group_from)
        (group_from-LacksSeparator args [] (finished ++ last ∷ []) tt
          (All-append _ finished (last ∷ []) f (l, tt)))
  | inr e ↦
      rw (e, group_from)
        (group_from-LacksSeparator args (last ++ a ∷ []) finished
          (All-append _ last (a ∷ []) l ((λ h. ground (arith, text_eq_iff a separator)), tt)) f)
]

join_separated :
    (gs : List (List Bytes)) (args : List Bytes)
    → separated gs ≡ separator ∷ args
    → join_groups gs ≡ args
join_separated [] args e = cc
join_separated (g ∷ gs) args e = cc (separated-join g gs)

-- The groups of `splitArgGroups`, joined with `--`, are the arguments, and no group holds a `--`.
pub split_arg_groups_lem :
    (args : List Bytes)
    → (join_groups (split_arg_groups args) ≡ args) × All LacksSeparator (split_arg_groups args)
unfolding split_arg_groups
split_arg_groups_lem args = (
  join_separated _ args (group_from-separated args [] []),
  group_from-LacksSeparator args [] [] tt tt,
)
