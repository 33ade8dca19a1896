-- ===== src/Logx/Levels.antt =====
-- The levels of the log.
use go_packet_repeater.Base.{
  ℕ, ◌≤◌, ◌≡◌, ◌↔◌, arith, some, List, [], ◌∷◌, Bytes, ltb, ℤ, pos, negsuc, ok, inl, inr,
  Bool-cases,
}
use go_packet_repeater.System.{System}
use go_packet_repeater.Config.{Config}
use go_packet_repeater.Config.Parse.{parse}
use go_packet_repeater.Config.Parse.Accepted.{
  Runnable, parse-Runnable, shows_help, shows_version, forwards, proxies,
}
use go_packet_repeater.Logx.{Line, clamp, new, warn, info, debug}

abbrev pub Printed : List Line → Line → Type 0
Printed lines line = lines ≡ line ∷ []

-- `clamp` gives a level between 0 and 3: its argument, or the nearer end.
abbrev pub Clamped : ℤ → ℤ → Type 0
Clamped (negsuc n) c = c ≡ pos 0
Clamped (pos n) c = (m : ℕ) × (c ≡ pos m) × (m ≤ 3) × (n ≤ 3 → m ≡ n) × (3 ≤ n → m ≡ 3)

pub clamp-Clamped : (level : ℤ) → Clamped level (clamp level)
unfolding clamp
clamp-Clamped (negsuc n) = ground arith
clamp-Clamped (pos n) = elim (Bool-cases (ltb 3 n)) [
  | inl e ↦ (3, ground (arith, e), ground (arith, e), ground (arith, e), ground (arith, e))
  | inr e ↦ (n, ground (arith, e), ground (arith, e), ground (arith, e), ground (arith, e))
]

pub parse-log_level : (c : Config) → Runnable c → c.log_level ≤ 3
parse-log_level c (forwards v) = v.level
parse-log_level c (proxies v) = v.level
parse-log_level c (shows_help h) = ground (arith, h)
parse-log_level c (shows_version h) = ground (arith, h)

-- The log of a configuration that `Parse` returns has the level that was given, and prints a line
-- exactly from its level on.
pub new-parse :
    (sys : System) (args : List Bytes) {c : Config} (line : Line)
    → parse sys args ≡ ok c
    → ((new (pos c.log_level) c.verbose).level ≡ pos c.log_level)
      × (Printed (warn (some (new (pos c.log_level) c.verbose)) line) line ↔ (1 ≤ c.log_level))
      × (Printed (info (some (new (pos c.log_level) c.verbose)) line) line ↔ (2 ≤ c.log_level))
      × (Printed (debug (some (new (pos c.log_level) c.verbose)) line) line ↔ (c.log_level ≡ 3))
unfolding new clamp warn info debug
new-parse sys args {c} line e =
    let bound = parse-log_level c (parse-Runnable sys args e) in ground (arith, bound)
