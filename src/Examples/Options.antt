-- ===== src/Examples/Options.antt =====
-- Option tokens.
use go_packet_repeater.Base.{
  ◌≡◌, refl, true, List, [], ◌∷◌, Bytes, codes, text_eq, cut, strip_prefix, ok, err,
}
use go_packet_repeater.Config.Options.{
  Options, Token, token_of, verbose_flag, level_flag, block_f, sub, user, key,
}
use go_packet_repeater.Config.Extract.{
  misplaced, apply, extract_from, extract_options, no_options, no_auth_scope,
}
use go_packet_repeater.Config.Extract.Flags.{behind, front, has, highest, extract_options-flags}
use go_packet_repeater.Examples.{words}

abbrev line : List Bytes
line = words ("-v" ∷ "-F" ∷ "-user=ann:x:y" ∷ "-dd" ∷ "-d" ∷ "socks" ∷ "1080" ∷ [])

abbrev read : Options
read = record no_options {
  f = record no_auth_scope {
    user = codes "ann";
    pass = codes "x:y";
    user_seen = true;
    seen = true;
  };
  verbose = true;
  log_level = 2;
}

extract_line : extract_options line ≡ ok (read, words ("socks" ∷ "1080" ∷ []))
unfolding extract_options extract_from token_of apply text_eq cut strip_prefix
extract_line = refl

extract_misplaced : extract_options (words ("-key=a" ∷ "-Q" ∷ [])) ≡ err (misplaced key)
unfolding extract_options extract_from token_of apply text_eq cut strip_prefix
extract_misplaced = refl

extract_options-flags_example :
    (words ("socks" ∷ "1080" ∷ []) ≡ behind line)
    × (read.log_level ≡ highest (front line))
    × (read.help ≡ has "-help" (front line))
    × (read.version ≡ has "-version" (front line))
    × (read.verbose ≡ has "-v" (front line))
extract_options-flags_example = extract_options-flags line extract_line

abbrev some_tokens : List Token
some_tokens = verbose_flag ∷ block_f ∷ sub user (codes "ann:x") ∷ level_flag 2 ∷ []
