-- ===== src/Config/Parse/Precedence.antt =====
-- `-help` and `-version` go before every rule on the positional arguments.
use go_packet_repeater.Base.{◌≡◌, arith, true, false, List, Bytes, ok}
use go_packet_repeater.System.{System}
use go_packet_repeater.Config.{version, help, zero_config}
use go_packet_repeater.Config.Options.{Options}
use go_packet_repeater.Config.Extract.{extract_options}
use go_packet_repeater.Config.Extract.Flags.{front, has, extract_options-flags}
use go_packet_repeater.Config.Parse.{parse}

-- For a command line whose options `extractOptions` accepts, `Parse` returns the help
-- configuration if -help is among them, and otherwise the version configuration if -version is,
-- whatever the rest holds.
pub parse_precedence :
    (sys : System) (args : List Bytes) {o : Options} {rest : List Bytes}
    → extract_options args ≡ ok (o, rest)
    → (has "-help" (front args) ≡ true → parse sys args ≡ ok (record zero_config { mode = help }))
      × (has "-help" (front args) ≡ false
          → has "-version" (front args) ≡ true
          → parse sys args ≡ ok (record zero_config { mode = version }))
unfolding parse
parse_precedence sys args e =
    let flags = extract_options-flags args e in
    ((λ h. ground (arith, e, flags)), (λ h v. ground (arith, e, flags)))
