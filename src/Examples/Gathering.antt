-- ===== src/Examples/Gathering.antt =====
-- Two services, of which the second fails first.
use go_packet_repeater.Base.{
  ℕ, zero, suc, ◌<◌, Option, ◌≡◌, refl, arith, none, some, [], ◌∷◌, Bytes, codes,
}
use go_packet_repeater.Gopr.Gathering.{
  Gathering, ends, joins, launched, step, Run, start, after, Gathers, joined-Gathers,
}

abbrev both_ended : Gathering
both_ended = step (ends 0 none) (step (ends 1 (some (codes "in use"))) launched)

gathered : Run 2 (joins ∷ ends 0 none ∷ ends 1 (some (codes "in use")) ∷ []) (step joins both_ended)
unfolding step
gathered =
    after joins
      (after (ends 0 none) (after (ends 1 (some (codes "in use"))) start (omega arith, refl))
        (omega arith, refl))
      (by_number, refl)
  where
    by_number : (i : ℕ) → i < 2 → (r : Option Bytes) × (both_ended.result i ≡ some r)
    by_number zero l = (none, refl)
    by_number (suc zero) l = (some (codes "in use"), refl)
    by_number (suc (suc i)) l = absurd (omega (arith, l))

joined_both : (step joins both_ended).joined ≡ some (codes "in use" ∷ [])
unfolding step
joined_both = refl

joined-Gathers_example : Gathers 2 (step joins both_ended) (codes "in use" ∷ [])
joined-Gathers_example = joined-Gathers gathered (codes "in use" ∷ []) joined_both
