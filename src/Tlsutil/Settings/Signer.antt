-- ===== src/Tlsutil/Settings/Signer.antt =====
-- The cache of `MITMSigner`.
use go_packet_repeater.Base.{
  ◌≡◌, arith, some, List, [], ◌∷◌, Bytes, text_eq_iff, ok, inl, inr, Option-cases, Result-cases,
}
use go_packet_repeater.Tlsutil.Settings.{Crypto, MitmSigner, mint, certificate_for}

module _ (crypto : Crypto) where
  open crypto use {Certificate}

  -- The signer behind a row of calls.
  abbrev pub after_calls : MitmSigner crypto → List Bytes → MitmSigner crypto
  after_calls m [] = m
  after_calls m (host ∷ hosts) = after_calls (certificate_for crypto m host).1 hosts

  cached-kept :
      (m : MitmSigner crypto) (host other : Bytes) {cert : Certificate}
      → m.cache host ≡ some cert
      → (certificate_for crypto m other).1.cache host ≡ some cert
  unfolding certificate_for
  cached-kept m host other e = elim (Option-cases (m.cache other)) [
    | inl n ↦ elim (Result-cases (mint crypto m other)) [
      | inr (x, f) ↦ ground (arith, e, n, f)
      | inl (c, f) ↦ ground (arith, e, n, f, text_eq_iff other host)
    ]
    | inr (c, n) ↦ ground (arith, e, n)
  ]

  cached-after :
      (hosts : List Bytes) (m : MitmSigner crypto) (host : Bytes) {cert : Certificate}
      → m.cache host ≡ some cert
      → (after_calls m hosts).cache host ≡ some cert
  cached-after [] m host e = e
  cached-after (h ∷ hosts) m host e = cached-after hosts _ host (cached-kept m host h e)

  pub certificate_for-cached :
      (m : MitmSigner crypto) (host : Bytes) {cert : Certificate}
      → (certificate_for crypto m host).0 ≡ ok cert
      → (certificate_for crypto m host).1.cache host ≡ some cert
  unfolding certificate_for
  certificate_for-cached m host e = elim (Option-cases (m.cache host)) [
    | inl n ↦ elim (Result-cases (mint crypto m host)) [
      | inr (x, f) ↦ absurd (ground (arith, e, n, f))
      | inl (c, f) ↦ ground (arith, e, n, f, text_eq_iff host host)
    ]
    | inr (c, n) ↦ ground (arith, e, n)
  ]

  certificate_for-hit :
      (m : MitmSigner crypto) (host : Bytes) {cert : Certificate}
      → m.cache host ≡ some cert
      → certificate_for crypto m host ≡ (ok cert, m)
  unfolding certificate_for
  certificate_for-hit m host e = ground (arith, e)

  -- Once `CertificateFor` has returned a certificate for a host, then, whatever hosts it is
  -- called for in between, a later call for this host returns the same certificate and changes
  -- nothing.
  pub certificate_for_again :
      (m : MitmSigner crypto) (host : Bytes) (hosts : List Bytes) {cert : Certificate}
      → (certificate_for crypto m host).0 ≡ ok cert
      → certificate_for crypto (after_calls (certificate_for crypto m host).1 hosts) host
        ≡ (ok cert, after_calls (certificate_for crypto m host).1 hosts)
  certificate_for_again m host hosts e =
      certificate_for-hit _ host (
        cached-after hosts (certificate_for crypto m host).1 host (certificate_for-cached m host e))
