-- ===== src/Shell.antt =====
-- s_band_antenna_mgmt/src/shell_util.c: the checks that a name, a relative path or a member of an
-- archive passes before it reaches a command or a file. A string is the list of its bytes before
-- the final zero, and `none` is a null pointer.
pub mod Paths
mod Tests
use dpb_s_mgmt.Base.{
  ℕ, zero, suc, ◌+◌, Bool, true, false, Option, none, some, List, [], ◌∷◌, length, get_or, drop,
  ltb, leb, ◌==◌, if◌then◌else◌, not, ◌&&◌, ◌||◌,
}

-- The bytes before the first `wanted`, if it occurs: `strchr`.
unfoldable pub str_chr : List ℕ → ℕ → Option ℕ
str_chr [] wanted = none
str_chr (c ∷ s) wanted =
    let rest = str_chr s wanted in
    if c == wanted then some 0 else elim rest [ none ↦ none | some i ↦ some (suc i) ]

is_name_char : ℕ → Bool
is_name_char c =
    (leb b'A' c && leb c b'Z')
    || (leb b'a' c && leb c b'z')
    || (leb b'0' c && leb c b'9')
    || c == b'.'
    || c == b'_'
    || c == b'-'

-- `for (i = 0; i < len; i++) if (!ok) return false;`
all_name_chars : List ℕ → Bool
all_name_chars [] = true
all_name_chars (c ∷ s) = let rest = all_name_chars s in if not (is_name_char c) then false else rest

is_dots : List ℕ → Bool
is_dots s =
    (length s == 1 && get_or s 0 0 == b'.')
    || (length s == 2 && get_or s 0 0 == b'.' && get_or s 1 0 == b'.')

unfoldable pub shell_safe_name : Option (List ℕ) → Bool
unfolding all_name_chars is_name_char is_dots
shell_safe_name none = false
shell_safe_name (some name) =
    if length name == 0
    then false
    else if ltb 255 (length name)
    then false
    else if not (all_name_chars name)
    then false
    else if is_dots name
    then false
    else true

no_control_chars : List ℕ → Bool
no_control_chars [] = true
no_control_chars (c ∷ s) =
    let rest = no_control_chars s in if ltb c 0x20 || c == 0x7f then false else rest

-- The loop over the segments, on fuel: `p` is what is left of the string.
check_segments : ℕ → List ℕ → Bool
check_segments zero p = true
check_segments (suc n) [] = true
check_segments (suc n) (c ∷ rest) =
    let p = c ∷ rest in
    let seg_end = str_chr p b'/' in
    let seg_len : ℕ = elim seg_end [ some i ↦ i | none ↦ length p ] in
    let next : Bool = elim seg_end [ some i ↦ check_segments n (drop (suc i) p) | none ↦ true ] in
    if seg_len == 2 && get_or p 0 0 == b'.' && get_or p 1 0 == b'.' then false else next

pub shell_safe_relpath : Option (List ℕ) → Bool
shell_safe_relpath none = false
shell_safe_relpath (some path) =
    if length path == 0
    then false
    else if ltb 255 (length path)
    then false
    else if not (no_control_chars path)
    then false
    else check_segments (length path + 1) path

pub shell_safe_tar_member : Option (List ℕ) → Bool
shell_safe_tar_member none = false
shell_safe_tar_member (some member) =
    if length member == 0
    then false
    else if get_or member 0 0 == b'/'
    then false
    else if ltb 255 (length member)
    then false
    else if not (no_control_chars member)
    then false
    else check_segments (length member + 1) member
