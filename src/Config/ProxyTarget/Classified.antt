-- ===== src/Config/ProxyTarget/Classified.antt =====
-- What a proxy target and a proxy's listen suffix name.
use go_packet_repeater.Base.{
  ◌≡◌, ◌⊎◌, arith, true, Option, none, some, [], Bytes, cut, Result, ok, inl, inr, Option-cases,
  Result-cases, ◌++◌, ◌∷◌, ◌↔◌, Lacks, contains, contains-Lacks, Lacks-contains, cut-append,
  cut-IsCut, Bool-cases,
}
use go_packet_repeater.Config.{Mode, http_proxy, socks_proxy}
use go_packet_repeater.Config.Addr.{normalize_addr}
use go_packet_repeater.Config.Addr.Normal.{IsNormal, normalize_addr-IsNormal}
use go_packet_repeater.Config.Keyword.{proxy_mode}
use go_packet_repeater.Config.ProxyTarget.{
  SuffixError, UpstreamError, chained, split_proxy_listen_suffix, classify_proxy_target,
}

abbrev pub IsProxy : Mode → Type 0
IsProxy m = (m ≡ http_proxy) ⊎ (m ≡ socks_proxy)

abbrev NamesProxy : Option Mode → Type 0
NamesProxy none = Unit
NamesProxy (some m) = IsProxy m

proxy_mode-NamesProxy : (tok : Bytes) → NamesProxy (proxy_mode tok)
unfolding proxy_mode
proxy_mode-NamesProxy tok = ground arith

abbrev pub Suffixed : Result SuffixError (Bytes × Option Mode) → Type 0
Suffixed (ok (tok, some m)) = IsProxy m
Suffixed _ = Unit

pub split_proxy_listen_suffix-Suffixed : (tok : Bytes) → Suffixed (split_proxy_listen_suffix tok)
unfolding split_proxy_listen_suffix
split_proxy_listen_suffix-Suffixed tok = elim (Option-cases (cut b'/' tok)) [
  | inl e ↦ ground (arith, e)
  | inr ((addr_tok, suffix), e) ↦ ground (arith, e, proxy_mode-NamesProxy suffix)
]

abbrev pub Classified : Option (Result UpstreamError (Mode × Bytes)) → Type 0
Classified (some (ok (m, addr))) = IsProxy m × ((addr ≡ []) ⊎ IsNormal addr)
Classified _ = Unit

chained-Classified : (addr_tok suffix : Bytes) → Classified (chained addr_tok suffix)
unfolding chained
chained-Classified addr_tok suffix = elim (Result-cases (normalize_addr addr_tok true)) [
  | inl (addr, e) ↦
      ground (arith, e, proxy_mode-NamesProxy suffix, normalize_addr-IsNormal addr_tok true e)
  | inr (x, e) ↦ ground (arith, e)
]

-- The mode that `classifyProxyTarget` returns is that of an HTTP proxy or of a SOCKS server, and
-- its upstream is empty or a normalized address.
pub classify_proxy_target-Classified : (tok : Bytes) → Classified (classify_proxy_target tok)
unfolding classify_proxy_target
classify_proxy_target-Classified tok = elim (Option-cases (cut b'/' tok)) [
  | inl e ↦ ground (arith, e, proxy_mode-NamesProxy tok)
  | inr ((addr_tok, suffix), e) ↦
      ground (arith, e, proxy_mode-NamesProxy tok, chained-Classified addr_tok suffix)
]

-- A token that is an address and one keyword behind a slash.
pub record Chained (tok : Bytes) (mode : Mode) (upstream : Bytes) : Type 0 where
  pub addr_tok : Bytes
  pub suffix : Bytes
  pub halves : tok ≡ addr_tok ++ b'/' ∷ suffix
  pub addr_plain : Lacks b'/' addr_tok
  pub suffix_plain : Lacks b'/' suffix
  pub no_keyword : proxy_mode tok ≡ none
  pub keyword : proxy_mode suffix ≡ some mode
  pub normal : normalize_addr addr_tok true ≡ ok upstream

classified_sound :
    (tok : Bytes) (mode : Mode) (upstream : Bytes)
    → classify_proxy_target tok ≡ some (ok (mode, upstream))
    → ((proxy_mode tok ≡ some mode) × (upstream ≡ [])) ⊎ Chained tok mode upstream
unfolding classify_proxy_target
classified_sound tok mode upstream h = elim (Option-cases (proxy_mode tok)) [
  | inr (m, p) ↦ inl (ground (arith, h, p))
  | inl p ↦ elim (Option-cases (cut b'/' tok)) [
    | inl e ↦ absurd (ground (arith, h, p, e))
    | inr ((addr_tok, suffix), e) ↦
        let (halves, plain) = rw e at (cut-IsCut b'/' tok) in
        elim (Bool-cases (contains b'/' suffix)) [
          | inl c ↦ absurd (ground (arith, h, p, e, c))
          | inr c ↦ elim (Result-cases (normalize_addr addr_tok true)) [
            | inl (addr, n) ↦ inr (record {
              addr_tok = addr_tok;
              suffix = suffix;
              halves = halves;
              addr_plain = plain;
              suffix_plain = contains-Lacks b'/' suffix c;
              no_keyword = p;
              keyword = ground (arith, h, p, e, c, n);
              normal = ground (arith, h, p, e, c, n);
            })
            | inr (x, n) ↦ absurd (ground (arith, h, p, e, c, n))
          ]
        ]
  ]
]

classified_complete :
    (tok : Bytes) (mode : Mode) (upstream : Bytes)
    → ((proxy_mode tok ≡ some mode) × (upstream ≡ [])) ⊎ Chained tok mode upstream
    → classify_proxy_target tok ≡ some (ok (mode, upstream))
unfolding classify_proxy_target
classified_complete tok mode upstream (inl (p, e)) = ground (arith, p, e)
classified_complete tok mode upstream (inr v) = ground (
  arith,
  v.no_keyword,
  v.keyword,
  v.normal,
  v.halves,
  cut-append b'/' v.addr_tok v.suffix v.addr_plain,
  Lacks-contains b'/' v.suffix v.suffix_plain,
)

-- `classifyProxyTarget` returns a mode and an upstream exactly if the token is the keyword of the
-- mode, and the upstream is empty; or the token is no keyword but an address and the keyword of
-- the mode with a single slash between them, and the upstream is the address as `normalizeAddr`
-- accepts it for a target.
pub classify_proxy_target_iff :
    (tok : Bytes) (mode : Mode) (upstream : Bytes)
    → (classify_proxy_target tok ≡ some (ok (mode, upstream)))
      ↔ (((proxy_mode tok ≡ some mode) × (upstream ≡ [])) ⊎ Chained tok mode upstream)
classify_proxy_target_iff tok mode upstream =
    (classified_sound tok mode upstream, classified_complete tok mode upstream)
