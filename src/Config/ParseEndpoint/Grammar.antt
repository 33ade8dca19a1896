-- ===== src/Config/ParseEndpoint/Grammar.antt =====
-- The tokens that `parseEndpoint` accepts, by a grammar that has no loop state.
use go_packet_repeater.Base.{
  ℕ, ◌+◌, ◌≤◌, ◌<◌, ◌≡◌, ◌↔◌, refl, sym, subst, ap, ok-injective, map_err, map_err-eq-ok, ◌∙◌,
  arith, Bool, true, false, ◌||◌, List, [], ◌∷◌, Bytes, Result, ok, ◌>>=◌, >>=-eq-ok,
}
use go_packet_repeater.System.{System}
use go_packet_repeater.Config.Addr.{normalize_addr}
use go_packet_repeater.Config.ParseEndpoint.{
  ParsedEndpoint, Keyword, tcp_word, udp_word, ssl_word, order, is_ssl, EndpointError, bad_address,
  Suffixes, read_suffix, is_seen, set_flag, add_keyword, read_suffixes, address_and_suffixes,
  no_suffixes, parse_endpoint,
}

-- Every suffix read by itself.
abbrev pub keywords : System → Bool → List Bytes → Result EndpointError (List Keyword)
keywords sys is_target [] = ok []
keywords sys is_target (s ∷ ss) = do
  k ← read_suffix sys is_target s
  ks ← keywords sys is_target ss
  ok (k ∷ ks)

-- The order TCP, UDP, SSL, each at most once, from the word with value `n` on.
abbrev pub InOrder : ℕ → List Keyword → Type 0
InOrder n [] = Unit
InOrder n (k ∷ ks) = (n ≤ order k) × InOrder (order k + 1) ks

abbrev pub is_tcp : Keyword → Bool
is_tcp tcp_word = true
is_tcp _ = false

abbrev pub is_udp : Keyword → Bool
is_udp udp_word = true
is_udp _ = false

abbrev pub any_word : (Keyword → Bool) → List Keyword → Bool
any_word p [] = false
any_word p (k ∷ ks) = p k || any_word p ks

abbrev SeenBelow : Suffixes → Type 0
SeenBelow st = (k : Keyword) → is_seen k st.seen ≡ true → order k < st.next

abbrev set_flags : List Keyword → ParsedEndpoint → ParsedEndpoint
set_flags [] pe = pe
set_flags (k ∷ ks) pe = set_flags ks (set_flag k pe)

abbrev added : Keyword → Suffixes → Suffixes
added k st = record { parsed = set_flag k st.parsed; next = order k + 1; seen = k ∷ st.seen }

added-SeenBelow :
    (k : Keyword) (st : Suffixes) → st.next ≤ order k → SeenBelow st → SeenBelow (added k st)
unfolding is_seen
added-SeenBelow k st h below j s = ground (arith, below j)

add_keyword-added :
    (k : Keyword) (st : Suffixes)
    → SeenBelow st
    → st.next ≤ order k
    → add_keyword k st ≡ ok (added k st)
unfolding add_keyword
add_keyword-added k st below h = ground (arith, below k)

add_keyword-eq-ok :
    (k : Keyword) (st : Suffixes) {st' : Suffixes}
    → add_keyword k st ≡ ok st'
    → (st.next ≤ order k) × (st' ≡ added k st)
unfolding add_keyword
add_keyword-eq-ok k st e = ground arith

read_suffixes_sound :
    (sys : System) (is_target : Bool) (ss : List Bytes) (st : Suffixes) {st' : Suffixes}
    → read_suffixes sys is_target ss st ≡ ok st'
    → (ks : List Keyword) × (keywords sys is_target ss ≡ ok ks)
      × InOrder st.next ks
      × (st'.parsed ≡ set_flags ks st.parsed)
unfolding read_suffixes
read_suffixes_sound sys is_target [] st e = ([], refl, tt, ground arith)
read_suffixes_sound sys is_target (s ∷ ss) st e =
    let (k, read, later) = >>=-eq-ok (read_suffix sys is_target s) _ e in
    let (next, add, rest) = >>=-eq-ok (add_keyword k st) _ later in
    let (le, eq) = add_keyword-eq-ok k st add in
    let (ks, all, ordered, parsed) =
      read_suffixes_sound sys is_target ss (added k st) (rw eq at rest) in
    (k ∷ ks, rw (read, all), (le, ordered), parsed)

read_suffixes_complete :
    (sys : System) (is_target : Bool) (ss : List Bytes) (st : Suffixes) (ks : List Keyword)
    → keywords sys is_target ss ≡ ok ks
    → SeenBelow st
    → InOrder st.next ks
    → (st' : Suffixes) × (read_suffixes sys is_target ss st ≡ ok st')
      × (st'.parsed ≡ set_flags ks st.parsed)
unfolding read_suffixes
read_suffixes_complete sys is_target [] st [] e below ordered = (st, refl, refl)
read_suffixes_complete sys is_target [] st (k ∷ ks) e below ordered = absurd (ground arith)
read_suffixes_complete sys is_target (s ∷ ss) st ks e below ordered =
    let (k, read, later) = >>=-eq-ok (read_suffix sys is_target s) _ e in
    let (js, all, eq) = >>=-eq-ok (keywords sys is_target ss) (λ js. ok (k ∷ js)) later in
    let same = ok-injective eq in
    let sorted = subst (InOrder st.next) (sym same) ordered in
    let (st', rest, parsed) =
      read_suffixes_complete sys is_target ss (added k st) js all
        (added-SeenBelow k st sorted.0 below) sorted.1 in
    (
      st',
      rw (read, add_keyword-added k st below sorted.0) rest,
      parsed ∙ ap (λ l. set_flags l st.parsed) same,
    )

set_flags-flags :
    (ks : List Keyword) (pe : ParsedEndpoint)
    → ((set_flags ks pe).tcp ≡ (pe.tcp || any_word is_tcp ks))
      × ((set_flags ks pe).udp ≡ (pe.udp || any_word is_udp ks))
      × ((set_flags ks pe).ep ≡ record (pe.ep) { ssl = pe.ep.ssl || any_word is_ssl ks })
unfolding set_flag
set_flags-flags [] pe = ground arith
set_flags-flags (tcp_word ∷ ks) pe = ground (arith, set_flags-flags ks (set_flag tcp_word pe))
set_flags-flags (udp_word ∷ ks) pe = ground (arith, set_flags-flags ks (set_flag udp_word pe))
set_flags-flags (ssl_word ∷ ks) pe = ground (arith, set_flags-flags ks (set_flag ssl_word pe))

-- The token is an address that normalizes and suffixes that are keywords, in order and each at
-- most once; the endpoint holds that address, and a flag for each keyword.
pub record Accepts (sys : System) (tok : Bytes) (is_target : Bool) (pe : ParsedEndpoint)
    : Type 0 where
  pub words : List Keyword
  pub address : normalize_addr (address_and_suffixes tok).0 is_target ≡ ok pe.ep.addr
  pub read : keywords sys is_target (address_and_suffixes tok).1 ≡ ok words
  pub ordered : InOrder 0 words
  pub tcp : pe.tcp ≡ any_word is_tcp words
  pub udp : pe.udp ≡ any_word is_udp words
  pub ssl : pe.ep.ssl ≡ any_word is_ssl words
  pub unset : (pe.ep.tcp ≡ false) × (pe.ep.udp ≡ false)

Accepts-of :
    (sys : System) (tok : Bytes) (is_target : Bool) {pe : ParsedEndpoint} (addr : Bytes)
    (ks : List Keyword)
    → normalize_addr (address_and_suffixes tok).0 is_target ≡ ok addr
    → keywords sys is_target (address_and_suffixes tok).1 ≡ ok ks
    → InOrder 0 ks
    → pe ≡ set_flags ks (no_suffixes addr).parsed
    → Accepts sys tok is_target pe
Accepts-of sys tok is_target addr ks named read ordered eq =
    let flags = set_flags-flags ks (no_suffixes addr).parsed in
    record {
      words = ks;
      address = ground (arith, flags);
      read = read;
      ordered = ordered;
      tcp = ground (arith, flags);
      udp = ground (arith, flags);
      ssl = ground (arith, flags);
      unset = ground (arith, flags);
    }

parse_endpoint_sound :
    (sys : System) (tok : Bytes) (is_target : Bool) {pe : ParsedEndpoint}
    → parse_endpoint sys tok is_target ≡ ok pe
    → Accepts sys tok is_target pe
unfolding parse_endpoint
parse_endpoint_sound sys tok is_target {pe} e =
    let (addr_tok, suffixes) = address_and_suffixes tok in
    let (addr, named, later) =
      >>=-eq-ok (map_err bad_address (normalize_addr addr_tok is_target))
        (λ addr. do st ← read_suffixes sys is_target suffixes (no_suffixes addr); ok st.parsed) e in
    let (st, r, done) =
      >>=-eq-ok (read_suffixes sys is_target suffixes (no_suffixes addr)) (λ st. ok st.parsed)
        later in
    let (ks, all, ordered, parsed) =
      read_suffixes_sound sys is_target suffixes (no_suffixes addr) r in
    Accepts-of sys tok is_target addr ks (map_err-eq-ok bad_address _ named) all ordered
      (sym (ok-injective done) ∙ parsed)

seen_none : (k : Keyword) → is_seen k [] ≡ true → ⊥
unfolding is_seen
seen_none k s = cc

parse_endpoint_complete :
    (sys : System) (tok : Bytes) (is_target : Bool) {pe : ParsedEndpoint}
    → Accepts sys tok is_target pe
    → parse_endpoint sys tok is_target ≡ ok pe
unfolding parse_endpoint
parse_endpoint_complete sys tok is_target {pe} v =
    let start = no_suffixes pe.ep.addr in
    let (st, r, parsed) =
      read_suffixes_complete sys is_target _ start v.words v.read (λ k s. absurd (seen_none k s))
        v.ordered in
    let flags = set_flags-flags v.words start.parsed in
    rw (v.address, r) (ground (arith, parsed, flags))

pub parse_endpoint_iff :
    (sys : System) (tok : Bytes) (is_target : Bool) (pe : ParsedEndpoint)
    → (parse_endpoint sys tok is_target ≡ ok pe) ↔ Accepts sys tok is_target pe
parse_endpoint_iff sys tok is_target pe =
    (parse_endpoint_sound sys tok is_target, parse_endpoint_complete sys tok is_target)
