-- ===== src/Examples/Chain.antt =====
-- A SOCKS5 dialogue that is refused, and a row of three proxies.
use go_packet_repeater.Base.{
  ◌≡◌, refl, Bool, true, false, ◌&&◌, some, List, [], ◌∷◌, Bytes, codes, text_eq, contains, pos,
  is_empty,
}
use go_packet_repeater.HostPort.{join_host_port}
use go_packet_repeater.Config.{Mode, no_auth}
use go_packet_repeater.Proxy.Socks.{to_uint16, itoa}
use go_packet_repeater.Proxy.Socks.Reaching.{Canonical}
use go_packet_repeater.Proxy.Socks.Dialogue.{Agreed, said_to_gopr, dialogue, dialogue-Agreed}
use go_packet_repeater.Proxy.Http.Tunnel.{hijacked}
use go_packet_repeater.Proxy.Chain.{Hop, through_all, all_admit, through_all-admit}
use go_packet_repeater.Examples.{net, sys}
use go_packet_repeater.Examples.Socks.{
  target, request, target_split, port_read, target_request, asked, reach_all,
}
use go_packet_repeater.Examples.Http.{texts, md5, random, auth}

same_target : asked ≡ target
unfolding join_host_port itoa to_uint16 text_eq contains
same_target = refl

canonical : Canonical net target
canonical = record {
  host = codes "::1";
  port_str = codes "443";
  port = pos 443;
  req = request;
  splits = target_split;
  numeric = port_read;
  sends = target_request;
  same = same_target;
}

-- To the first with a user, to the SOCKS5 server without.
abbrev first : Hop
first = record { addr = codes "a:1"; is_socks = false; hijack = hijacked true; auth = no_auth }

abbrev second : Hop
second = record { addr = codes "b:2"; is_socks = true; hijack = hijacked true; auth = auth }

abbrev third : Hop
third = record { addr = codes "c:3"; is_socks = false; hijack = hijacked true; auth = no_auth }

abbrev row : List Hop
row = first ∷ second ∷ third ∷ []

abbrev connects : Bytes → Bool
connects t = text_eq t target

through_all-admit_example :
    through_all sys texts md5 (some random) net connects auth row target
    ≡ (all_admit auth row && connects target)
through_all-admit_example =
    through_all-admit sys texts md5 (some random) net connects auth row target canonical
      (refl, (refl, (refl, tt)))

dialogue-Agreed_example :
    Agreed net
      (is_empty auth.user)
      true
      asked
      (said_to_gopr net auth request)
      (dialogue net [] Mode.http_proxy reach_all auth target (said_to_gopr net auth request))
dialogue-Agreed_example =
    dialogue-Agreed net [] Mode.http_proxy reach_all auth target (codes "::1") (codes "443")
      (pos 443) request target_split port_read target_request
