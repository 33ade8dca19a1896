-- ===== src/Logx/Tiers.antt =====
-- What a handler logs of one connection, by the level.
use go_packet_repeater.Base.{
  ℕ, zero, suc, ◌≤◌, ◌≡◌, refl, sym, ap, ◌∙◌, arith, Bool, Option, some, List, [], ◌∷◌, ◌++◌,
  append_assoc, append-nil, Bytes, codes, pos, if◌then◌else◌, ltb, min,
}
use go_packet_repeater.Logx.{
  Logger, Line, text, closed_line, new, clamp, print, warn, info, info_enabled, closing_lines,
}

-- The lines of a connection that was relayed, with the lines `middle` of the relaying itself, from no
-- -d on: those; its begin and its end around them; and, from -dd on, what happened before, and the
-- counts of bytes.
abbrev pub relayed_lines :
    ℕ → Bytes → Line → (details middle : List Line) (sent recv : ℕ) → List Line
relayed_lines zero label opened details middle sent recv = middle
relayed_lines (suc zero) label opened details middle sent recv =
    opened ∷ (middle ++ text (label ++ codes ": closed") ∷ [])
relayed_lines (suc (suc level)) label opened details middle sent recv =
    opened ∷ (details ++ (middle ++ closed_line label sent recv ∷ []))

-- Those of one that failed: its error, and its begin.
abbrev pub failed_lines : ℕ → Line → Line → List Line
failed_lines zero opened error = error ∷ []
failed_lines (suc level) opened error = opened ∷ error ∷ []

abbrev pub logger : ℕ → Bool → Option Logger
logger level verbose = some (new (pos level) verbose)

abbrev pub infos : Option Logger → List Line → List Line
infos l [] = []
infos l (d ∷ ds) = info l d ++ infos l ds

-- Details are logged from -dd on; so a guard by `InfoEnabled` changes nothing.
infos-level :
    (verbose : Bool) (level : ℕ) (details : List Line)
    → infos (logger level verbose) details ≡ (if ltb (min level 3) 2 then [] else details)
unfolding info new clamp
infos-level verbose level [] = ground arith
infos-level verbose level (d ∷ ds) = ground (arith, infos-level verbose level ds)

pub info-guarded :
    (verbose : Bool) (level : ℕ) (line : Line)
    → (if info_enabled (logger level verbose) then info (logger level verbose) line else [])
      ≡ info (logger level verbose) line
unfolding info info_enabled new clamp
info-guarded verbose level line = ground arith

module _ (verbose : Bool) (label : Bytes) (opened : Line) where
  pub relayed_lines-of :
      (level : ℕ) (details middle : List Line) (sent recv : ℕ)
      → level ≤ 3
      → warn (logger level verbose) opened
          ++ (infos (logger level verbose) details
              ++ (middle ++ closing_lines (logger level verbose) label sent recv))
        ≡ relayed_lines level label opened details middle sent recv
  unfolding warn info closing_lines info_enabled new clamp
  relayed_lines-of zero details middle sent recv h =
      rw (infos-level verbose zero details) (append-nil middle)
  relayed_lines-of (suc zero) details middle sent recv h =
      rw (infos-level verbose (suc zero) details) refl
  relayed_lines-of (suc (suc zero)) details middle sent recv h =
      rw (infos-level verbose (suc (suc zero)) details) refl
  relayed_lines-of (suc (suc (suc zero))) details middle sent recv h =
      rw (infos-level verbose (suc (suc (suc zero))) details) refl
  relayed_lines-of (suc (suc (suc (suc n)))) details middle sent recv h = absurd (omega (arith, h))

  pub failed_lines-of :
      (level : ℕ) (error : Line)
      → level ≤ 3
      → warn (logger level verbose) opened ++ print (logger level verbose) error
        ≡ failed_lines level opened error
  unfolding warn print new clamp
  failed_lines-of zero error h = refl
  failed_lines-of (suc zero) error h = refl
  failed_lines-of (suc (suc zero)) error h = refl
  failed_lines-of (suc (suc (suc zero))) error h = refl
  failed_lines-of (suc (suc (suc (suc n)))) error h = absurd (omega (arith, h))

  pub relayed_lines-append :
      (level : ℕ) (details first more middle : List Line) (sent recv : ℕ)
      → level ≤ 3
      → first ++ more ≡ infos (logger level verbose) details
      → warn (logger level verbose) opened
          ++ (first ++ (more ++ (middle ++ closing_lines (logger level verbose) label sent recv)))
        ≡ relayed_lines level label opened details middle sent recv
  relayed_lines-append level details first more middle sent recv h e =
      let end = middle ++ closing_lines (logger level verbose) label sent recv in
      ap (λ xs. warn (logger level verbose) opened ++ xs)
        (sym (append_assoc first more end) ∙ ap (λ xs. xs ++ end) e)
      ∙ relayed_lines-of level details middle sent recv h
