-- ===== src/Examples/Certificates.antt =====
-- Keys in certificate files.
use go_packet_repeater.Base.{◌≡◌, refl, true, false, codes, text_eq, contains_text, ok, some}
use go_packet_repeater.Tlsutil.EmbeddedKey.{has_embedded_key}
use go_packet_repeater.Examples.{sys}

both_read : sys.read_file (codes "both.pem") ≡ some (codes "CK")
unfolding text_eq
both_read = refl

both_embedded : has_embedded_key sys (codes "both.pem") ≡ ok true
unfolding has_embedded_key contains_text text_eq
both_embedded = refl

cert_bare : has_embedded_key sys (codes "cert.pem") ≡ ok false
unfolding has_embedded_key contains_text text_eq
cert_bare = refl
