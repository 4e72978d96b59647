-- ===== src/Package.antt =====
-- s_band_antenna_mgmt/src/firmware_package.c: the metadata of a firmware package and the check of its
-- digest. Strings are the bytes before the final zero. The files and SHA-256 are parameters; the
-- null checks of the pointers, which every caller passes, and the log are left out.
pub mod Text
pub mod Parse
pub mod Integrity
mod Tests
use dpb_s_mgmt.Base.{
  ℕ, zero, suc, ◌+◌, ◌-◌, ◌*◌, ◌/◌, ◌%◌, ◌^◌, min, Bool, true, false, Option, none, some, List, [],
  ◌∷◌, ◌++◌, length, get_or, take, drop, ltb, leb, ◌==◌, if◌then◌else◌, not, ◌&&◌, ◌||◌, Error,
  general, Result, ok, err, ◌>>=◌, ◌>>◌, fail_if, map,
}
use dpb_s_mgmt.Shell.{str_chr, shell_safe_name}
pub use Text.{isspace, trim_whitespace, strtoul, str_eq, strcasecmp_eq}

-- What the code asks of the operating system and of OpenSSL: the bytes that a file reads as, where it
-- can be opened, its `st_size`, where `stat` succeeds, and the digest of a sequence of bytes.
pub record Host : Type 0 where
  pub read_file : List ℕ → Option (List ℕ)
  pub stat_size : List ℕ → Option ℕ
  pub sha256 : List ℕ → List ℕ

pub data FpgaKind : Type 0 where
  v7a v7b subarray unknown : FpgaKind

unfoldable pub firmware_fpga_kind : ℕ → FpgaKind
firmware_fpga_kind file_sub_type =
    if file_sub_type == 0x01 || file_sub_type == 0x02
    then v7a
    else if file_sub_type == 0x13 || file_sub_type == 0x14
    then v7b
    else if file_sub_type == 0x11 || file_sub_type == 0x12
    then subarray
    else unknown

-- "v7a", "v7b", "subarray", and NULL for an unknown kind.
unfoldable pub firmware_fpga_kind_dir : FpgaKind → Option (List ℕ)
firmware_fpga_kind_dir v7a = some (b'v' ∷ b'7' ∷ b'a' ∷ [])
firmware_fpga_kind_dir v7b = some (b'v' ∷ b'7' ∷ b'b' ∷ [])
firmware_fpga_kind_dir subarray = some (b's' ∷ b'u' ∷ b'b' ∷ b'a' ∷ b'r' ∷ b'r' ∷ b'a' ∷ b'y' ∷ [])
firmware_fpga_kind_dir unknown = none

-- `firmware_metadata_t`
pub record Metadata : Type 0 where
  pub file_type : ℕ
  pub file_sub_type : ℕ
  pub file_size : ℕ
  pub sha256 : List ℕ
  pub version : List ℕ
  pub bin_file_path : List ℕ

-- The locals of `firmware_parse_metadata` that the loop over the lines fills.
pub record Fields : Type 0 where
  pub file_type : ℕ
  pub file_sub_type : ℕ
  pub sha256 : List ℕ
  pub version : List ℕ
  pub bin_filename : List ℕ
  pub fields_found : ℕ

abbrev pub no_fields : Fields
no_fields = record {
  file_type = 0;
  file_sub_type = 0;
  sha256 = [];
  version = [];
  bin_filename = [];
  fields_found = 0;
}

abbrev pub key_file_type : List ℕ
key_file_type = b'f' ∷ b'i' ∷ b'l' ∷ b'e' ∷ b'_' ∷ b't' ∷ b'y' ∷ b'p' ∷ b'e' ∷ []

abbrev pub key_file_sub_type : List ℕ
key_file_sub_type =
    b'f' ∷ b'i' ∷ b'l' ∷ b'e' ∷ b'_' ∷ b's' ∷ b'u' ∷ b'b' ∷ b'_' ∷ b't' ∷ b'y' ∷ b'p' ∷ b'e' ∷ []

abbrev pub key_sha256 : List ℕ
key_sha256 = b's' ∷ b'h' ∷ b'a' ∷ b'2' ∷ b'5' ∷ b'6' ∷ []

abbrev pub key_version : List ℕ
key_version = b'v' ∷ b'e' ∷ b'r' ∷ b's' ∷ b'i' ∷ b'o' ∷ b'n' ∷ []

abbrev pub key_bin_file : List ℕ
key_bin_file = b'b' ∷ b'i' ∷ b'n' ∷ b'_' ∷ b'f' ∷ b'i' ∷ b'l' ∷ b'e' ∷ []

-- The chain of `strcmp` on the key; `strncpy` keeps what fits before the last byte of its array.
unfoldable pub set_field : Fields → List ℕ → List ℕ → Fields
set_field f key value =
    let n = f.fields_found + 1 in
    if str_eq key key_file_type
    then record f { file_type = strtoul value % 2 ^ 8; fields_found = n }
    else if str_eq key key_file_sub_type
    then record f { file_sub_type = strtoul value % 2 ^ 8; fields_found = n }
    else if str_eq key key_sha256
    then record f { sha256 = take 64 value; fields_found = n }
    else if str_eq key key_version
    then record f { version = take 39 value; fields_found = n }
    else if str_eq key key_bin_file
    then record f { bin_filename = take 255 value; fields_found = n }
    else f

-- The body of the loop, for a line without its final zero.
unfoldable pub parse_line : Fields → List ℕ → Fields
parse_line f line =
    let trimmed = trim_whitespace line in
    if length trimmed == 0 || get_or trimmed 0 0 == b'#' then f else elim (str_chr trimmed b'=') [
      | none ↦ f
      | some eq ↦
          set_field f (trim_whitespace (take eq trimmed)) (trim_whitespace (drop (suc eq) trimmed))
    ]

unfoldable pub parse_lines : Fields → List (List ℕ) → Fields
parse_lines f [] = f
parse_lines f (line ∷ rest) = parse_lines (parse_line f line) rest

-- The bytes of the next line for an array of `room + 1` bytes, with its newline, as `fgets` reads it.
unfoldable pub fgets : ℕ → List ℕ → List ℕ
fgets zero s = []
fgets (suc room) [] = []
fgets (suc room) (c ∷ s) = let rest = fgets room s in if c == 10 then c ∷ [] else c ∷ rest

-- The string in the array: the bytes before the first zero.
unfoldable pub before_zero : List ℕ → List ℕ
before_zero s = elim (str_chr s 0) [ none ↦ s | some i ↦ take i s ]

-- `while (fgets(line, sizeof(line), fp))`, with fuel for every byte of the file.
unfoldable pub file_lines : ℕ → List ℕ → List (List ℕ)
file_lines zero s = []
file_lines (suc n) s =
    let line = fgets 511 s in
    let rest = file_lines n (drop (length line) s) in
    if length line == 0 then [] else before_zero line ∷ rest

unfoldable pub firmware_get_file_size : Host → List ℕ → Result ℕ
firmware_get_file_size h path = elim (h.stat_size path) [
  | none ↦ err general
  | some size ↦ ok (size % 2 ^ 32)
]

-- `snprintf(…, size, "%s/%s", dir, name)`
unfoldable pub join_path : ℕ → List ℕ → List ℕ → List ℕ
join_path size dir name = take (size - 1) (dir ++ (b'/' ∷ name))

-- "metadata.txt"
abbrev pub metadata_name : List ℕ
metadata_name =
    b'm' ∷ b'e' ∷ b't' ∷ b'a' ∷ b'd' ∷ b'a' ∷ b't' ∷ b'a' ∷ b'.' ∷ b't' ∷ b'x' ∷ b't' ∷ []

-- The part of `firmware_parse_metadata` behind the loop.
unfoldable pub finish_metadata : Host → List ℕ → Fields → Result Metadata
finish_metadata h version_dir f = do
  fail_if (ltb f.fields_found 5) general
  fail_if (not (shell_safe_name (some f.bin_filename))) general
  let path = join_path 256 version_dir f.bin_filename
  size ← firmware_get_file_size h path
  ok (record {
    file_type = f.file_type;
    file_sub_type = f.file_sub_type;
    file_size = size;
    sha256 = f.sha256;
    version = f.version;
    bin_file_path = path;
  })

unfoldable pub firmware_parse_metadata : Host → List ℕ → Result Metadata
firmware_parse_metadata h version_dir =
    elim (h.read_file (join_path 512 version_dir metadata_name)) [
      | none ↦ err general
      | some bytes ↦
          finish_metadata h version_dir
            (parse_lines no_fields (file_lines (length bytes + 1) bytes))
    ]

-- A digit of `%02x`.
unfoldable pub hex_digit : ℕ → ℕ
hex_digit n = if ltb n 10 then b'0' + n else b'a' + (n - 10)

unfoldable pub hex_string : List ℕ → List ℕ
hex_string [] = []
hex_string (b ∷ bytes) = hex_digit (b / 16 % 16) ∷ hex_digit (b % 16) ∷ hex_string bytes

unfoldable pub firmware_verify_integrity : Host → List ℕ → List ℕ → Result (Unit {0})
firmware_verify_integrity h bin_file_path expected_sha256 = elim (h.read_file bin_file_path) [
  | none ↦ err general
  | some bytes ↦ fail_if (not (strcasecmp_eq (hex_string (h.sha256 bytes)) expected_sha256)) general
]
