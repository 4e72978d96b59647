-- ===== src/Shell/Tests.antt =====
-- The checks of shell_util.c on concrete names and paths.
use dpb_s_mgmt.Base.{ℕ, ◌≡◌, refl, true, false, some, List, [], ◌∷◌, ◌++◌}
use dpb_s_mgmt.Shell.{
  shell_safe_name, shell_safe_relpath, shell_safe_tar_member, all_name_chars, is_name_char, is_dots,
  no_control_chars, check_segments, str_chr,
}
use dpb_s_mgmt.Shell.Paths.{segments, walk, shell_safe_relpath-below}

-- a/b.c
abbrev a_path : List ℕ
a_path = b'a' ∷ b'/' ∷ b'b' ∷ b'.' ∷ b'c' ∷ []

-- a/../../b
abbrev traversal : List ℕ
traversal = b'a' ∷ b'/' ∷ b'.' ∷ b'.' ∷ b'/' ∷ b'.' ∷ b'.' ∷ b'/' ∷ b'b' ∷ []

abbrev a_name : List ℕ
a_name = b'v' ∷ b'-' ∷ b'1' ∷ b'.' ∷ b'b' ∷ []

abbrev some_dirs : List (List ℕ)
some_dirs = (b'w' ∷ []) ∷ []

traversal_refused : shell_safe_relpath (some traversal) ≡ false
unfolding shell_safe_relpath no_control_chars check_segments str_chr
traversal_refused = refl

name_accepted : shell_safe_name (some a_name) ≡ true
unfolding shell_safe_name all_name_chars is_name_char is_dots
name_accepted = refl

path_accepted : shell_safe_relpath (some a_path) ≡ true
unfolding shell_safe_relpath no_control_chars check_segments str_chr
path_accepted = refl

path_not_a_name : shell_safe_name (some a_path) ≡ false
unfolding shell_safe_name all_name_chars is_name_char is_dots
path_not_a_name = refl

absolute_refused : shell_safe_tar_member (some (b'/' ∷ a_path)) ≡ false
unfolding shell_safe_tar_member
absolute_refused = refl

shell_safe_relpath-below_example :
    (added : List (List ℕ)) × (walk some_dirs (segments a_path) ≡ added ++ some_dirs)
shell_safe_relpath-below_example = shell_safe_relpath-below a_path some_dirs path_accepted
