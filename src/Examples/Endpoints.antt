-- ===== src/Examples/Endpoints.antt =====
-- Addresses, endpoints and targets.
use go_packet_repeater.Base.{
  ◌≡◌, ◌↔◌, refl, true, false, codes, text_eq, cut, cut_last, split, contains, ok, err, pos, codes,
  ◌⊎◌, some, [],
}
use go_packet_repeater.HostPort.{split_host_port, join_host_port}
use go_packet_repeater.Config.{Mode, no_endpoint}
use go_packet_repeater.Config.Addr.{
  atoi, validate_port, normalize_addr, bad_port, out_of_range, target_without_port,
}
use go_packet_repeater.Config.Addr.Normal.{IsNormal, normalize_addr-IsNormal}
use go_packet_repeater.Config.Keyword.{proxy_mode, to_upper, to_lower}
use go_packet_repeater.Config.ParseEndpoint.{
  ParsedEndpoint, out_of_order, tcp_word, keyword_of, read_suffix, read_suffixes, add_keyword,
  address_and_suffixes, parse_endpoint, order,
}
use go_packet_repeater.Config.ProxyTarget.{classify_proxy_target}
use go_packet_repeater.Config.ProxyTarget.Classified.{Chained, classify_proxy_target_iff}
use go_packet_repeater.Relay.{server_name}
use go_packet_repeater.Relay.ServerName.{server_name-host}
use go_packet_repeater.Examples.{sys}

normalize_any : normalize_addr (codes ":8080") false ≡ ok (codes "0.0.0.0:8080")
unfolding normalize_addr validate_port atoi split_host_port join_host_port contains cut cut_last
normalize_any = refl

normalize_v6 : normalize_addr (codes "[::1]:443") true ≡ ok (codes "[::1]:443")
unfolding normalize_addr validate_port atoi split_host_port join_host_port contains cut cut_last
normalize_v6 = refl

normalize_out_of_range :
    (normalize_addr (codes "0") false ≡ err (bad_port (out_of_range (pos 0))))
    × (normalize_addr (codes "65536") false ≡ err (bad_port (out_of_range (pos 65536))))
    × (normalize_addr (codes "80") true ≡ err (target_without_port (codes "80")))
unfolding normalize_addr validate_port atoi split_host_port join_host_port contains cut cut_last
normalize_out_of_range = (refl, refl, refl)

normalize_addr-IsNormal_example : IsNormal (codes "[::1]:443")
normalize_addr-IsNormal_example = normalize_addr-IsNormal (codes "[::1]:443") true normalize_v6

split_v6 : split_host_port (codes "[::1]:443") ≡ ok (codes "::1", codes "443")
unfolding split_host_port contains cut cut_last
split_v6 = refl

server_name-host_example : server_name (codes "[::1]:443") ≡ codes "::1"
server_name-host_example =
    server_name-host (codes "[::1]:443") (codes "::1") (codes "443") normalize_addr-IsNormal_example
      split_v6

abbrev listener : ParsedEndpoint
listener = record {
  ep = record no_endpoint { addr = codes "0.0.0.0:53"; ssl = true };
  tcp = true;
  udp = true;
}

parse_listener : parse_endpoint sys (codes "53/TCP/udp/ssl") false ≡ ok listener
unfolding parse_endpoint address_and_suffixes read_suffixes read_suffix add_keyword keyword_of order
    to_upper to_lower text_eq cut split normalize_addr validate_port atoi contains
parse_listener = refl

parse_out_of_order : parse_endpoint sys (codes "53/udp/tcp") false ≡ err (out_of_order tcp_word)
unfolding parse_endpoint address_and_suffixes read_suffixes read_suffix add_keyword keyword_of order
    to_upper to_lower text_eq cut split normalize_addr validate_port atoi contains
parse_out_of_order = refl

classify_proxy_target_iff_example :
    (classify_proxy_target (codes "up.lan:1080/socks")
      ≡ some (ok (Mode.socks_proxy, codes "up.lan:1080")))
    ↔ (((proxy_mode (codes "up.lan:1080/socks") ≡ some Mode.socks_proxy)
          × (codes "up.lan:1080" ≡ []))
        ⊎ Chained (codes "up.lan:1080/socks") Mode.socks_proxy (codes "up.lan:1080"))
classify_proxy_target_iff_example =
    classify_proxy_target_iff (codes "up.lan:1080/socks") Mode.socks_proxy (codes "up.lan:1080")
