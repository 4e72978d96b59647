-- ===== src/Package/Text.antt =====
-- The C library's string functions as firmware_package.c uses them, and `trim_whitespace`.
use dpb_s_mgmt.Base.{
  ℕ, ◌+◌, ◌-◌, ◌*◌, ◌^◌, min, Bool, true, false, Option, none, some, List, [], ◌∷◌, length, get_or,
  drop, ltb, leb, ◌==◌, if◌then◌else◌, not, ◌&&◌, ◌||◌, ◌%◌,
}

unfoldable pub isspace : ℕ → Bool
isspace c = c == 32 || (leb 9 c && leb c 13)

-- `while (isspace(*str)) str++;`
unfoldable pub skip_spaces : List ℕ → List ℕ
unfolding isspace
skip_spaces [] = []
skip_spaces (c ∷ s) = let rest = skip_spaces s in if isspace c then rest else c ∷ s

-- `while (end > str && isspace(*end)) end--;`, which never takes the first byte, no space by then.
unfoldable pub drop_spaces_end : List ℕ → List ℕ
unfolding isspace
drop_spaces_end [] = []
drop_spaces_end (c ∷ s) =
    let rest = drop_spaces_end s in if isspace c && length rest == 0 then [] else c ∷ rest

unfoldable pub trim_whitespace : List ℕ → List ℕ
unfolding skip_spaces drop_spaces_end
trim_whitespace s = drop_spaces_end (skip_spaces s)

-- `strcmp(a, b) == 0`
unfoldable pub str_eq : List ℕ → List ℕ → Bool
str_eq [] [] = true
str_eq [] (b ∷ t) = false
str_eq (a ∷ s) [] = false
str_eq (a ∷ s) (b ∷ t) = let rest = str_eq s t in if a == b then rest else false

unfoldable pub tolower : ℕ → ℕ
tolower c = if leb b'A' c && leb c b'Z' then c + 32 else c

-- `strcasecmp(a, b) == 0`
unfoldable pub strcasecmp_eq : List ℕ → List ℕ → Bool
unfolding tolower
strcasecmp_eq [] [] = true
strcasecmp_eq [] (b ∷ t) = false
strcasecmp_eq (a ∷ s) [] = false
strcasecmp_eq (a ∷ s) (b ∷ t) =
    let rest = strcasecmp_eq s t in if tolower a == tolower b then rest else false

digit_value : ℕ → Option ℕ
digit_value c =
    if leb b'0' c && leb c b'9'
    then some (c - b'0')
    else if leb b'a' c && leb c b'z'
    then some (c - b'a' + 10)
    else if leb b'A' c && leb c b'Z'
    then some (c - b'A' + 10)
    else none

-- The digits in front, up to the largest unsigned long.
digits_of : ℕ → ℕ → List ℕ → ℕ
digits_of base acc [] = acc
digits_of base acc (c ∷ s) = elim (digit_value c) [
  | none ↦ acc
  | some d ↦ if ltb d base then digits_of base (min (acc * base + d) (2 ^ 64 - 1)) s else acc
]

is_hex_digit : ℕ → Bool
is_hex_digit c = elim (digit_value c) [ none ↦ false | some d ↦ ltb d 16 ]

-- Base 0: hexadecimal behind "0x" and a digit, octal behind "0", else decimal.
magnitude : List ℕ → ℕ
magnitude s =
    if not (get_or s 0 0 == b'0')
    then digits_of 10 0 s
    else if (get_or s 1 0 == b'x' || get_or s 1 0 == b'X') && is_hex_digit (get_or s 2 0)
    then digits_of 16 0 (drop 2 s)
    else digits_of 8 0 s

-- `strtoul(s, NULL, 0)`; behind a minus sign the value is negated as an unsigned long, except for
-- the largest one, which stands for an overflow.
unfoldable pub strtoul : List ℕ → ℕ
unfolding skip_spaces magnitude digits_of digit_value is_hex_digit
strtoul text =
    let s = skip_spaces text in
    let n = magnitude (drop 1 s) in
    if get_or s 0 0 == b'-'
    then (if n == 2 ^ 64 - 1 then n else (2 ^ 64 - n) % 2 ^ 64)
    else if get_or s 0 0 == b'+'
    then n
    else magnitude s
