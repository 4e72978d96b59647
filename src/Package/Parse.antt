-- ===== src/Package/Parse.antt =====
-- What `firmware_parse_metadata` gives fits the arrays and integers of `firmware_metadata_t`, and the
-- firmware file that it names lies directly in the version's directory.
use dpb_s_mgmt.Base.{
  ℕ, suc, ◌+◌, ◌^◌, ◌%◌, ◌≤◌, ◌<◌, ◌≡◌, refl, Bool, true, false, some, List, [], ◌∷◌, ◌++◌, arith,
  length, length-take, take, drop, ◌==◌, if◌then◌else◌, ◌||◌, get_or, Option-cases, inl, inr, ok,
}
use dpb_s_mgmt.Shell.{str_chr, shell_safe_name}
use dpb_s_mgmt.Shell.Paths.{segments, walk, shell_safe_name-file}
use dpb_s_mgmt.Package.{
  Host, Metadata, Fields, no_fields, set_field, parse_line, parse_lines, file_lines,
  firmware_get_file_size, join_path, metadata_name, finish_metadata, firmware_parse_metadata,
  trim_whitespace, strtoul, str_eq, key_file_type, key_file_sub_type, key_sha256, key_version,
  key_bin_file,
}

-- Every value fits the array or integer it is kept in, with a final zero.
abbrev pub Fits : Fields → Type 0
Fits f =
    (f.file_type < 256)
    × (f.file_sub_type < 256)
    × (length f.sha256 ≤ 64)
    × (length f.version ≤ 39)
    × (length f.bin_filename ≤ 255)

if-Fits : (b : Bool) (f g : Fields) → Fits f → Fits g → Fits (if b then f else g)
if-Fits true f g hf hg = hf
if-Fits false f g hf hg = hg

set_field-Fits : (f : Fields) (key value : List ℕ) → Fits f → Fits (set_field f key value)
unfolding set_field
set_field-Fits f key value h =
    let n = f.fields_found + 1 in
    let as_type : Fits (record f { file_type = strtoul value % 2 ^ 8; fields_found = n }) =
      (omega arith, h.1, h.2, h.3, h.4) in
    let as_sub_type : Fits (record f { file_sub_type = strtoul value % 2 ^ 8; fields_found = n }) =
      (h.0, omega arith, h.2, h.3, h.4) in
    let as_sha256 : Fits (record f { sha256 = take 64 value; fields_found = n }) =
      (h.0, h.1, omega (arith, length-take 64 value), h.3, h.4) in
    let as_version : Fits (record f { version = take 39 value; fields_found = n }) =
      (h.0, h.1, h.2, omega (arith, length-take 39 value), h.4) in
    let as_bin_file : Fits (record f { bin_filename = take 255 value; fields_found = n }) =
      (h.0, h.1, h.2, h.3, omega (arith, length-take 255 value)) in
    if-Fits (str_eq key key_file_type) _ _ as_type (
      if-Fits (str_eq key key_file_sub_type) _ _ as_sub_type (
        if-Fits (str_eq key key_sha256) _ _ as_sha256 (
          if-Fits (str_eq key key_version) _ _ as_version
            (if-Fits (str_eq key key_bin_file) _ f as_bin_file h))))

parse_line-Fits : (f : Fields) (line : List ℕ) → Fits f → Fits (parse_line f line)
unfolding parse_line
parse_line-Fits f line h =
    let s = trim_whitespace line in
    if-Fits (length s == 0 || get_or s 0 0 == b'#') f _ h (elim (Option-cases (str_chr s b'=')) [
      | inl no_key ↦ rw no_key h
      | inr (i, key) ↦
          rw key
            (set_field-Fits f (trim_whitespace (take i s)) (trim_whitespace (drop (suc i) s)) h)
    ])

parse_lines-Fits : (lines : List (List ℕ)) (f : Fields) → Fits f → Fits (parse_lines f lines)
unfolding parse_lines
parse_lines-Fits [] f h = h
parse_lines-Fits (line ∷ rest) f h =
    parse_lines-Fits rest (parse_line f line) (parse_line-Fits f line h)

no_fields-Fits : Fits no_fields
no_fields-Fits = (omega arith, omega arith, omega arith, omega arith, omega arith)

-- What the code that opens the firmware file relies on.
pub record IsUsable (version_dir : List ℕ) (m : Metadata) : Type 0 where
  pub file_type : m.file_type < 256
  pub file_sub_type : m.file_sub_type < 256
  pub file_size : m.file_size < 2 ^ 32
  pub sha256 : length m.sha256 ≤ 64
  pub version : length m.version ≤ 39
  pub path : length m.bin_file_path ≤ 255
  pub inside :
      (name : List ℕ) × (m.bin_file_path ≡ take 255 (version_dir ++ (b'/' ∷ name)))
      × ((dirs : List (List ℕ)) → walk dirs (segments name) ≡ name ∷ dirs)

finish_metadata-IsUsable :
    (h : Host) (version_dir : List ℕ) (f : Fields) {m : Metadata}
    → Fits f
    → finish_metadata h version_dir f ≡ ok m
    → IsUsable version_dir m
unfolding finish_metadata join_path firmware_get_file_size
finish_metadata-IsUsable h version_dir f {m} fits e =
    let path = join_path 256 version_dir f.bin_filename in
    let safe : shell_safe_name (some f.bin_filename) ≡ true = ground arith in
    elim (Option-cases (h.stat_size (take 255 (version_dir ++ (b'/' ∷ f.bin_filename))))) [
      | inl missing ↦ ground arith
      | inr (size, found) ↦
          let same : m ≡ record {
            file_type = f.file_type;
            file_sub_type = f.file_sub_type;
            file_size = size % 2 ^ 32;
            sha256 = f.sha256;
            version = f.version;
            bin_file_path = take 255 (version_dir ++ (b'/' ∷ f.bin_filename));
          } =
            ground arith in
          rw same record {
            file_type = fits.0;
            file_sub_type = fits.1;
            file_size = omega arith;
            sha256 = fits.2;
            version = fits.3;
            path = omega (arith, length-take 255 (version_dir ++ (b'/' ∷ f.bin_filename)));
            inside =
                (f.bin_filename, refl, λ dirs. (shell_safe_name-file f.bin_filename dirs safe).0);
          }
    ]

-- When `firmware_parse_metadata` succeeds, the file types are bytes, the size is a uint32_t, each
-- string fits its array with the final zero, and the path is the version's directory with a name
-- that leads, from any directory, to a file directly in it (cut off at 255 bytes).
pub firmware_parse_metadata-IsUsable :
    (h : Host) (version_dir : List ℕ) {m : Metadata}
    → firmware_parse_metadata h version_dir ≡ ok m
    → IsUsable version_dir m
unfolding firmware_parse_metadata
firmware_parse_metadata-IsUsable h version_dir {m} e =
    elim (Option-cases (h.read_file (join_path 512 version_dir metadata_name))) [
      | inl missing ↦ ground arith
      | inr (bytes, found) ↦
          let lines = file_lines (length bytes + 1) bytes in
          finish_metadata-IsUsable h version_dir (parse_lines no_fields lines)
            (parse_lines-Fits lines no_fields no_fields-Fits) (ground arith)
    ]
