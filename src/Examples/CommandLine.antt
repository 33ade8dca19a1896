-- ===== src/Examples/CommandLine.antt =====
-- Whole command lines.
use go_packet_repeater.Base.{
  ◌≡◌, refl, is_empty, if◌then◌else◌, true, false, List, [], ◌∷◌, Bytes, codes, text_eq, cut,
  cut_last, contains, strip_prefix, ok, err,
}
use go_packet_repeater.HostPort.{split_host_port, join_host_port}
use go_packet_repeater.Config.{Mode, Config, no_endpoint, zero_config}
use go_packet_repeater.Config.Options.{Options, token_of}
use go_packet_repeater.Config.Extract.{
  apply, extract_from, extract_options, no_options, no_mitm_scope,
}
use go_packet_repeater.Config.Addr.{atoi, validate_port, normalize_addr}
use go_packet_repeater.Config.Keyword.{proxy_mode}
use go_packet_repeater.Config.ProxyTarget.{split_proxy_listen_suffix, classify_proxy_target}
use go_packet_repeater.Config.ValidateSsl.{validate_ssl, validate_ssl_key_cert}
use go_packet_repeater.Config.ValidateSsl.Checked.{SslChecked, validate_ssl-SslChecked}
use go_packet_repeater.Config.Parse.{wrong_count, parse, proxy_config}
use go_packet_repeater.Config.Parse.Accepted.{Runnable, parse-Runnable}
use go_packet_repeater.Config.ParseAll.{
  split_arg_groups, collect, group_config, parse_groups, parse_all, joined, bad_group, info_group,
}
use go_packet_repeater.Config.ParseAll.AllOrNothing.{
  accepted, refused, AllOf, parse_all-AllOf, parse_all_several,
}
use go_packet_repeater.Gopr.{run_all, socks_service, http_service, run}
use go_packet_repeater.Gopr.Sound.{Ready, run-Ready}
use go_packet_repeater.Examples.{words, sys}

abbrev chained : List Bytes
chained = words ("-F" ∷ "-user=ann:pw" ∷ "up.lan:1080/socks" ∷ "3128/proxy" ∷ [])

abbrev chained_config : Config
chained_config = record zero_config {
  mode = Mode.http_proxy;
  listen = record no_endpoint { addr = codes "0.0.0.0:3128"; tcp = true };
  upstream_addr = codes "up.lan:1080";
  upstream_kind = Mode.socks_proxy;
  forward_auth = record { user = codes "ann"; pass = codes "pw" };
}

parse-chained : parse sys chained ≡ ok chained_config
unfolding parse extract_options extract_from token_of apply proxy_config classify_proxy_target
    split_proxy_listen_suffix proxy_mode normalize_addr validate_port atoi split_host_port
    join_host_port text_eq cut cut_last contains strip_prefix
parse-chained = refl

parse-Runnable_example : Runnable chained_config
parse-Runnable_example = parse-Runnable sys chained parse-chained

abbrev helping : List Bytes
helping = words ("-version" ∷ "-help" ∷ "80" ∷ [])

extract_helping :
    extract_options helping
    ≡ ok (record no_options { help = true; version = true }, words ("80" ∷ []))
unfolding extract_options extract_from token_of apply text_eq strip_prefix
extract_helping = refl

abbrev mitm_options : Options
mitm_options = record no_options {
  m = record no_mitm_scope {
    sign_ca_path = codes "both.pem";
    server_name = codes "a.lan";
    seen = true;
  };
}

validate_mitm : validate_ssl sys mitm_options true true false ≡ ok tt
unfolding validate_ssl validate_ssl_key_cert text_eq
validate_mitm = refl

validate_ssl-SslChecked_example : SslChecked mitm_options true true false
validate_ssl-SslChecked_example =
    validate_ssl-SslChecked sys mitm_options true true false validate_mitm

abbrev three : List Bytes
three = words ("socks" ∷ "1080" ∷ "--" ∷ "-help" ∷ "--" ∷ "x" ∷ [])

split_three :
    split_arg_groups three
    ≡ words ("socks" ∷ "1080" ∷ []) ∷ words ("-help" ∷ []) ∷ words ("x" ∷ []) ∷ []
unfolding split_arg_groups text_eq
split_three = refl

parse_three :
    parse_all sys three
    ≡ err (
        joined (
          info_group 2 (words ("-help" ∷ []))
          ∷ bad_group 3 (words ("x" ∷ [])) (wrong_count 1)
          ∷ []))
unfolding parse_all parse_groups collect group_config split_arg_groups parse extract_options
    extract_from token_of apply proxy_config classify_proxy_target split_proxy_listen_suffix
    proxy_mode normalize_addr validate_port atoi text_eq cut contains strip_prefix
parse_three = refl

parse_all_several_example : parse_all sys three ≡ (
    if is_empty
      (refused sys 1 (words ("socks" ∷ "1080" ∷ []) ∷ words ("-help" ∷ []) ∷ words ("x" ∷ []) ∷ []))
    then ok (
        accepted sys 1
          (words ("socks" ∷ "1080" ∷ []) ∷ words ("-help" ∷ []) ∷ words ("x" ∷ []) ∷ []))
    else err (
        joined (
          refused sys 1
            (words ("socks" ∷ "1080" ∷ []) ∷ words ("-help" ∷ []) ∷ words ("x" ∷ []) ∷ []))))
parse_all_several_example =
    parse_all_several sys three (words ("socks" ∷ "1080" ∷ [])) (words ("-help" ∷ []))
      (words ("x" ∷ []) ∷ []) split_three

abbrev two : List Bytes
two = words ("socks" ∷ "1080" ∷ "--" ∷ "proxy" ∷ "3128" ∷ [])

abbrev direct : Mode → Bytes → Config
direct mode addr = record zero_config {
  mode = mode;
  listen = record no_endpoint { addr = addr; tcp = true };
  upstream_kind = mode;
}

abbrev two_configs : List Config
two_configs =
    direct Mode.socks_proxy (codes "0.0.0.0:1080")
    ∷ direct Mode.http_proxy (codes "0.0.0.0:3128")
    ∷ []

parse_two : parse_all sys two ≡ ok two_configs
unfolding parse_all parse_groups collect group_config split_arg_groups parse extract_options
    extract_from token_of apply proxy_config classify_proxy_target split_proxy_listen_suffix
    proxy_mode normalize_addr validate_port atoi text_eq cut contains strip_prefix
parse_two = refl

parse_all-AllOf_example : AllOf sys (split_arg_groups two) two_configs
parse_all-AllOf_example = parse_all-AllOf sys two parse_two

run-two :
    run sys two
    ≡ ok (
        run_all (
          socks_service (direct Mode.socks_proxy (codes "0.0.0.0:1080"))
          ∷ http_service (direct Mode.http_proxy (codes "0.0.0.0:3128"))
          ∷ []))
unfolding run parse_all parse_groups collect group_config split_arg_groups parse extract_options
    extract_from token_of apply proxy_config classify_proxy_target split_proxy_listen_suffix
    proxy_mode normalize_addr validate_port atoi text_eq cut contains strip_prefix
run-two = refl

run-Ready_example : Ready (
    run_all (
      socks_service (direct Mode.socks_proxy (codes "0.0.0.0:1080"))
      ∷ http_service (direct Mode.http_proxy (codes "0.0.0.0:3128"))
      ∷ []))
run-Ready_example = run-Ready sys two run-two
