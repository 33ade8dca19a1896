-- ===== src/Tlsutil/EmbeddedKey.antt =====
-- `HasEmbeddedKey` of internal/tlsutil/tlsutil.go.
use go_packet_repeater.Base.{
  ℕ, zero, suc, ◌<◌, ◌≡◌, ◌↔◌, arith, Bool, true, false, none, some, Bytes, codes, contains_text,
  length, Result, ok, err, if◌then◌else◌, inl, inr, Option-cases, Bool-cases,
}
use go_packet_repeater.System.{System}

pub data FileError : Type 0 where
  unreadable : Bytes → FileError

abbrev is_private_key : Bytes → Bool
is_private_key kind = contains_text (codes "PRIVATE KEY") kind

module _ (sys : System) where
  open sys use {read_file, pem_decode, pem_shrinks}

  -- the loop over the blocks, with fuel
  scan_blocks : ℕ → Bytes → Bool
  scan_blocks zero input = false
  scan_blocks (suc fuel) input = elim (pem_decode input) [
    | none ↦ false
    | some (kind, rest) ↦
        let more = scan_blocks fuel rest in if is_private_key kind then true else more
  ]

  unfoldable pub has_embedded_key : Bytes → Result FileError Bool
  unfolding scan_blocks
  has_embedded_key path = elim (read_file path) [
    | none ↦ err (unreadable path)
    | some content ↦ ok (scan_blocks (suc (length content)) content)
  ]

  -- Among the blocks of the input there is one whose type names a private key.
  pub data HasKeyBlock : Bytes → Type 0 where
    here :
        {input : Bytes} (kind rest : Bytes)
        → pem_decode input ≡ some (kind, rest)
        → is_private_key kind ≡ true
        → HasKeyBlock input
    there :
        {input : Bytes} (kind rest : Bytes)
        → pem_decode input ≡ some (kind, rest)
        → HasKeyBlock rest
        → HasKeyBlock input

  scan_blocks_sound : (fuel : ℕ) (input : Bytes) → scan_blocks fuel input ≡ true → HasKeyBlock input
  unfolding scan_blocks
  scan_blocks_sound zero input h = cc
  scan_blocks_sound (suc fuel) input h = elim (Option-cases (pem_decode input)) [
    | inl e ↦ absurd (ground arith)
    | inr ((kind, rest), e) ↦ elim (Bool-cases (is_private_key kind)) [
      | inl k ↦ here kind rest e k
      | inr k ↦ there kind rest e (scan_blocks_sound fuel rest (ground arith))
    ]
  ]

  scan_blocks_complete :
      (fuel : ℕ) (input : Bytes)
      → length input < fuel
      → HasKeyBlock input
      → scan_blocks fuel input ≡ true
  unfolding scan_blocks
  scan_blocks_complete zero input f h = absurd (omega arith)
  scan_blocks_complete (suc fuel) input f (here kind rest e k) = ground arith
  scan_blocks_complete (suc fuel) input f (there kind rest e h) =
      ground
        (arith, scan_blocks_complete fuel rest (omega (arith, pem_shrinks input kind rest e)) h)

  -- For a file that can be read, `HasEmbeddedKey` answers true exactly if one of the PEM blocks
  -- of the file has a type that contains PRIVATE KEY.
  pub has_embedded_key_iff :
      (path content : Bytes)
      → read_file path ≡ some content
      → (has_embedded_key path ≡ ok true) ↔ HasKeyBlock content
  unfolding has_embedded_key
  has_embedded_key_iff path content e =
      rw (e, has_embedded_key)
        (
          (λ h. scan_blocks_sound (suc (length content)) content (ground arith)),
          (λ h.
              ground (arith, scan_blocks_complete (suc (length content)) content (omega arith) h)),
        )
