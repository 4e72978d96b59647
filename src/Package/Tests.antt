-- ===== src/Package/Tests.antt =====
-- The checks of firmware_package.c on a concrete package.
use dpb_s_mgmt.Base.{ℕ, ◌≡◌, refl, some, List, [], ◌∷◌, arith, ok}
use dpb_s_mgmt.Shell.{str_chr, shell_safe_name}
use dpb_s_mgmt.Package.{
  Host, Metadata, firmware_parse_metadata, finish_metadata, firmware_verify_integrity,
  firmware_get_file_size, join_path, parse_lines, parse_line, set_field, file_lines, fgets,
  before_zero, hex_string, hex_digit, firmware_fpga_kind, v7b,
}
use dpb_s_mgmt.Package.Text.{trim_whitespace, strtoul, str_eq, strcasecmp_eq}
use dpb_s_mgmt.Package.Parse.{IsUsable, firmware_parse_metadata-IsUsable}
use dpb_s_mgmt.Package.Integrity.{firmware_verify_integrity-digest}

-- "# a", "file_type = 0xF1", "file_sub_type=19", " sha256=0A", "version=v1", "bin_file=a.b"
abbrev metadata_text : List ℕ
metadata_text =
    b'#' ∷ 32 ∷ b'a' ∷ 10 ∷ b'f' ∷ b'i' ∷ b'l' ∷ b'e' ∷ b'_' ∷ b't' ∷ b'y' ∷ b'p' ∷ b'e' ∷ 32 ∷ b'='
    ∷ 32 ∷ b'0' ∷ b'x' ∷ b'F' ∷ b'1' ∷ 10 ∷ b'f' ∷ b'i' ∷ b'l' ∷ b'e' ∷ b'_' ∷ b's' ∷ b'u' ∷ b'b'
    ∷ b'_' ∷ b't' ∷ b'y' ∷ b'p' ∷ b'e' ∷ b'=' ∷ b'1' ∷ b'9' ∷ 10 ∷ 32 ∷ b's' ∷ b'h' ∷ b'a' ∷ b'2'
    ∷ b'5' ∷ b'6' ∷ b'=' ∷ b'0' ∷ b'A' ∷ 10 ∷ b'v' ∷ b'e' ∷ b'r' ∷ b's' ∷ b'i' ∷ b'o' ∷ b'n' ∷ b'='
    ∷ b'v' ∷ b'1' ∷ 10 ∷ b'b' ∷ b'i' ∷ b'n' ∷ b'_' ∷ b'f' ∷ b'i' ∷ b'l' ∷ b'e' ∷ b'=' ∷ b'a' ∷ b'.'
    ∷ b'b' ∷ 10 ∷ []

-- Every file holds the metadata, and the digest is one byte.
abbrev a_host : Host
a_host = record {
  read_file = λ path. some metadata_text;
  stat_size = λ path. some 5000;
  sha256 = λ bytes. 10 ∷ [];
}

abbrev a_dir : List ℕ
a_dir = b'/' ∷ b'd' ∷ []

abbrev a_metadata : Metadata
a_metadata = record {
  file_type = 0xF1;
  file_sub_type = 19;
  file_size = 5000;
  sha256 = b'0' ∷ b'A' ∷ [];
  version = b'v' ∷ b'1' ∷ [];
  bin_file_path = b'/' ∷ b'd' ∷ b'/' ∷ b'a' ∷ b'.' ∷ b'b' ∷ [];
}

parsed : firmware_parse_metadata a_host a_dir ≡ ok a_metadata
unfolding firmware_parse_metadata finish_metadata firmware_get_file_size join_path parse_lines
    parse_line set_field file_lines fgets before_zero trim_whitespace str_eq strtoul str_chr
    shell_safe_name
parsed = refl

kind : firmware_fpga_kind a_metadata.file_sub_type ≡ v7b
unfolding firmware_fpga_kind
kind = refl

verified : firmware_verify_integrity a_host a_dir (b'0' ∷ b'A' ∷ []) ≡ ok tt
unfolding firmware_verify_integrity hex_string hex_digit strcasecmp_eq
verified = refl

verified_lower : firmware_verify_integrity a_host a_dir (b'0' ∷ b'a' ∷ []) ≡ ok tt
unfolding firmware_verify_integrity hex_string hex_digit strcasecmp_eq
verified_lower = refl

verified_other : firmware_verify_integrity a_host (b'x' ∷ []) (b'0' ∷ b'A' ∷ []) ≡ ok tt
unfolding firmware_verify_integrity hex_string hex_digit strcasecmp_eq
verified_other = refl

firmware_parse_metadata-IsUsable_example : IsUsable a_dir a_metadata
firmware_parse_metadata-IsUsable_example = firmware_parse_metadata-IsUsable a_host a_dir parsed

firmware_verify_integrity-digest_example :
    (bytes : List ℕ) × (bytes' : List ℕ) × (a_host.read_file a_dir ≡ some bytes)
    × (a_host.read_file (b'x' ∷ []) ≡ some bytes')
    × (a_host.sha256 bytes ≡ a_host.sha256 bytes')
firmware_verify_integrity-digest_example =
    firmware_verify_integrity-digest a_host a_dir (b'x' ∷ []) (b'0' ∷ b'A' ∷ [])
      (λ bytes. (omega arith, tt)) verified verified_other
