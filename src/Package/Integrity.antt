-- ===== src/Package/Integrity.antt =====
-- The check of a firmware file against the digest in its metadata.
use dpb_s_mgmt.Base.{
  ℕ, ◌/◌, ◌%◌, ◌<◌, ◌≡◌, refl, sym, ◌∙◌, true, some, List, [], ◌∷◌, arith, Option-cases, inl, inr,
  map, ◌↔◌, ok, AreBytes,
}
use dpb_s_mgmt.Package.{Host, hex_digit, hex_string, firmware_verify_integrity}
use dpb_s_mgmt.Package.Text.{tolower, strcasecmp_eq}

strcasecmp_iff : (s t : List ℕ) → (strcasecmp_eq s t ≡ true) ↔ (map tolower s ≡ map tolower t)
unfolding strcasecmp_eq
strcasecmp_iff [] [] = (λ e. refl, λ e. refl)
strcasecmp_iff [] (b ∷ t) = (λ e. cc, λ e. cc)
strcasecmp_iff (a ∷ s) [] = (λ e. cc, λ e. cc)
strcasecmp_iff (a ∷ s) (b ∷ t) = let rest = strcasecmp_iff s t in ground (arith, rest)

hex_digit-injective : (m n : ℕ) → m < 16 → n < 16 → hex_digit m ≡ hex_digit n → m ≡ n
unfolding hex_digit
hex_digit-injective m n hm hn e = ground arith

tolower-hex_digit : (n : ℕ) → n < 16 → tolower (hex_digit n) ≡ hex_digit n
unfolding hex_digit tolower
tolower-hex_digit n h = ground arith

hex_string-injective :
    (s t : List ℕ)
    → AreBytes s
    → AreBytes t
    → map tolower (hex_string s) ≡ map tolower (hex_string t)
    → s ≡ t
unfolding hex_string
hex_string-injective [] [] hs ht e = refl
hex_string-injective [] (b ∷ t) hs ht e = cc
hex_string-injective (a ∷ s) [] hs ht e = cc
hex_string-injective (a ∷ s) (b ∷ t) hs ht e =
    let high : tolower (hex_digit (a / 16 % 16)) ≡ tolower (hex_digit (b / 16 % 16)) = cc in
    let low : tolower (hex_digit (a % 16)) ≡ tolower (hex_digit (b % 16)) = cc in
    let same_high : a / 16 % 16 ≡ b / 16 % 16 =
      hex_digit-injective (a / 16 % 16) (b / 16 % 16) (omega arith) (omega arith) (
        sym (tolower-hex_digit (a / 16 % 16) (omega arith))
        ∙ high
        ∙ tolower-hex_digit (b / 16 % 16) (omega arith)) in
    let same_low : a % 16 ≡ b % 16 =
      hex_digit-injective (a % 16) (b % 16) (omega arith) (omega arith) (
        sym (tolower-hex_digit (a % 16) (omega arith))
        ∙ low
        ∙ tolower-hex_digit (b % 16) (omega arith)) in
    let first : a ≡ b = omega (arith, hs.0, ht.0, same_high, same_low) in
    let rest : s ≡ t = hex_string-injective s t hs.1 ht.1 cc in cc

verify-digest :
    (h : Host) (path expected : List ℕ)
    → firmware_verify_integrity h path expected ≡ ok tt
    → (bytes : List ℕ) × (h.read_file path ≡ some bytes)
      × (map tolower (hex_string (h.sha256 bytes)) ≡ map tolower expected)
unfolding firmware_verify_integrity
verify-digest h path expected e = elim (Option-cases (h.read_file path)) [
  | inl missing ↦ ground arith
  | inr (bytes, found) ↦
      (bytes, found, (strcasecmp_iff (hex_string (h.sha256 bytes)) expected).0 (ground arith))
]

-- For a digest function that gives bytes, two files that pass the check against one expected text,
-- whatever the case of its letters, both can be read and have the same digest.
pub firmware_verify_integrity-digest :
    (h : Host) (path path' expected : List ℕ)
    → ((bytes : List ℕ) → AreBytes (h.sha256 bytes))
    → firmware_verify_integrity h path expected ≡ ok tt
    → firmware_verify_integrity h path' expected ≡ ok tt
    → (bytes : List ℕ) × (bytes' : List ℕ) × (h.read_file path ≡ some bytes)
      × (h.read_file path' ≡ some bytes')
      × (h.sha256 bytes ≡ h.sha256 bytes')
firmware_verify_integrity-digest h path path' expected are e e' =
    let (bytes, found, text) = verify-digest h path expected e in
    let (bytes', found', text') = verify-digest h path' expected e' in
    (
      bytes,
      bytes',
      found,
      found',
      hex_string-injective (h.sha256 bytes) (h.sha256 bytes') (are bytes) (are bytes')
          (text ∙ sym text'),
    )
