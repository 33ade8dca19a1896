-- ===== src/Config/Parse/Proxy.antt =====
-- What an accepted command line for a proxy means.
use go_packet_repeater.Base.{
  ◌≤◌, ◌≡◌, ◌≢◌, ◌⊎◌, refl, arith, true, false, ◌||◌, Option, none, some, [], Bytes, ok, map_err,
  map_err-eq-ok, ok-injective, subst, >>=-eq-ok, fail_if-eq-ok,
}
use go_packet_repeater.Config.{
  Mode, http_proxy, socks_proxy, Config, ForwardAuthConfig, no_endpoint, no_auth, no_client_tls,
  no_server_tls, no_mitm,
}
use go_packet_repeater.Config.Options.{Options, Scope}
use go_packet_repeater.Config.Extract.Invariant.{IsValid}
use go_packet_repeater.Config.Addr.{normalize_addr}
use go_packet_repeater.Config.Addr.Normal.{IsNormal, normalize_addr-IsNormal}
use go_packet_repeater.Config.ProxyTarget.{split_proxy_listen_suffix}
use go_packet_repeater.Config.ProxyTarget.Classified.{
  IsProxy, Suffixed, split_proxy_listen_suffix-Suffixed,
}
use go_packet_repeater.Config.Parse.{
  bad_listen_suffix, bad_listen_address, proxy_auth, frontend, proxy_config,
}

-- A proxy that can be run as it stands.
pub record ProxyValid (c : Config) : Type 0 where
  pub mode : (c.mode ≡ http_proxy) ⊎ (c.mode ≡ socks_proxy)
  pub upstream_kind : (c.upstream_kind ≡ http_proxy) ⊎ (c.upstream_kind ≡ socks_proxy)
  pub listen_addr : IsNormal c.listen.addr
  pub tcp_only : (c.listen.tcp ≡ true) × (c.listen.udp ≡ false) × (c.listen.ssl ≡ false)
  pub no_target : c.target ≡ no_endpoint
  pub no_tls : (c.client_tls ≡ no_client_tls) × (c.server_tls ≡ no_server_tls) × (c.mitm ≡ no_mitm)
  pub upstream : (c.upstream_addr ≡ []) ⊎ IsNormal c.upstream_addr
  pub auth_needs_upstream : c.upstream_addr ≡ [] → c.forward_auth ≡ no_auth
  pub auth_has_user : (c.forward_auth ≡ no_auth) ⊎ (c.forward_auth.user ≢ [])
  pub level : c.log_level ≤ 3

frontend-IsProxy :
    (tok : Bytes) (suffix : Option Mode) (mode : Mode)
    → Suffixed (ok (tok, suffix))
    → IsProxy mode
    → IsProxy (frontend suffix mode)
unfolding frontend
frontend-IsProxy tok none mode s m = m
frontend-IsProxy tok (some k) mode s m = s

module _ {o : Options} {scope : Scope} (v : IsValid o scope) where
  proxy_auth-checked :
      (upstream : Bytes) {auth : ForwardAuthConfig}
      → proxy_auth o upstream ≡ ok auth
      → (upstream ≡ [] → auth ≡ no_auth) × ((auth ≡ no_auth) ⊎ (auth.user ≢ []))
  unfolding proxy_auth
  proxy_auth-checked upstream e = ground arith

  pub proxy_config-ProxyValid :
      (mode : Mode) (upstream listen_tok : Bytes) {c : Config}
      → IsProxy mode
      → (upstream ≡ []) ⊎ IsNormal upstream
      → proxy_config o mode upstream listen_tok ≡ ok c
      → ProxyValid c
  unfolding proxy_config
  proxy_config-ProxyValid mode upstream listen_tok m u e =
      let (_, e1) = fail_if-eq-ok (o.q.seen || (o.z.seen || o.m.seen)) _ _ e in
      let ((tok, suffix), s, e2) =
        >>=-eq-ok (map_err bad_listen_suffix (split_proxy_listen_suffix listen_tok)) _ e1 in
      let (addr, a, e3) = >>=-eq-ok (map_err bad_listen_address (normalize_addr tok false)) _ e2 in
      let (auth, f, e4) = >>=-eq-ok (proxy_auth o upstream) _ e3 in
      let (without, given) = proxy_auth-checked upstream f in
      subst ProxyValid (ok-injective e4) (record {
        mode =
            frontend-IsProxy tok suffix mode
              (rw (map_err-eq-ok bad_listen_suffix _ s) at
                (split_proxy_listen_suffix-Suffixed listen_tok))
              m;
        upstream_kind = m;
        listen_addr = normalize_addr-IsNormal tok false (map_err-eq-ok bad_listen_address _ a);
        tcp_only = (refl, refl, refl);
        no_target = refl;
        no_tls = (refl, refl, refl);
        upstream = u;
        auth_needs_upstream = without;
        auth_has_user = given;
        level = v.level_capped;
      })
