-- ===== src/Text.antt =====
-- The string methods that the matrix loader uses: `str.splitlines`, `str.split(c)`, `str.strip`, and
-- `int(s)`, which reads the ASCII digits alone.
use Prim.Native.Char.{Char, code}
use agent_agora.Prelude.{
  ℕ, zero, suc, ◌+◌, ◌-◌, ◌*◌, String, Bool, true, false, ◌&&◌, ◌||◌, Option, none, some, List, [],
  ◌∷◌, leb, nat_eq, if◌then◌else◌, not,
}

-- A character put in front of the first piece.
abbrev on_first : Char → List String → List String
on_first c [] = String.◌∷◌ c String.[] ∷ []
on_first c (s ∷ ss) = String.◌∷◌ c s ∷ ss

-- `s.split(sep)` for a separator of one character
unfoldable pub split : ℕ → String → List String
split sep String.[] = String.[] ∷ []
split sep (String.◌∷◌ c s) =
    let rest = split sep s in if nat_eq (code c) sep then String.[] ∷ rest else on_first c rest

is_line_end : ℕ → Bool
is_line_end c =
    leb 10 c && leb c 13
    || leb 28 c && leb c 30
    || nat_eq c 0x85
    || nat_eq c 0x2028
    || nat_eq c 0x2029

-- `\r\n` is one line end: the second character ends no line of its own. A line end at the end of
-- the text begins no line.
unfoldable pub split_lines_from : Bool → String → List String
unfolding is_line_end
split_lines_from after_cr String.[] = []
split_lines_from after_cr (String.◌∷◌ c s) =
    let n = code c in
    let same_end = split_lines_from false s in
    let next_line = String.[] ∷ split_lines_from (nat_eq n 13) s in
    let longer = on_first c (split_lines_from false s) in
    if after_cr && nat_eq n 10 then same_end else if is_line_end n then next_line else longer

is_space : ℕ → Bool
is_space c =
    leb 9 c && leb c 13
    || leb 28 c && leb c 32
    || nat_eq c 0x85
    || nat_eq c 0xa0
    || nat_eq c 0x1680
    || leb 0x2000 c && leb c 0x200a
    || nat_eq c 0x2028
    || nat_eq c 0x2029
    || nat_eq c 0x202f
    || nat_eq c 0x205f
    || nat_eq c 0x3000

unfoldable pub lstrip : String → String
unfolding is_space
lstrip String.[] = String.[]
lstrip (String.◌∷◌ c s) = let rest = lstrip s in if is_space (code c) then rest else String.◌∷◌ c s

abbrev strip_before : Char → String → String
strip_before c String.[] = if is_space (code c) then String.[] else String.◌∷◌ c String.[]
strip_before c (String.◌∷◌ d s) = String.◌∷◌ c (String.◌∷◌ d s)

unfoldable pub rstrip : String → String
unfolding is_space
rstrip String.[] = String.[]
rstrip (String.◌∷◌ c s) = strip_before c (rstrip s)

unfoldable pub strip : String → String
unfolding lstrip rstrip
strip s = rstrip (lstrip s)

-- An integer: `negsuc n` is -(n + 1).
pub data ℤ : Type 0 where
  pos : ℕ → ℤ
  negsuc : ℕ → ℤ

-- The digits behind one that was read; `_` may stand between two digits.
digits_from : ℕ → Bool → String → Option ℕ
digits_from n after_underscore String.[] = if after_underscore then none else some n
digits_from n after_underscore (String.◌∷◌ ch s) =
    let c = code ch in
    let digit = digits_from (n * 10 + (c - 48)) false s in
    let underscore = digits_from n true s in
    if leb 48 c && leb c 57
    then digit
    else if nat_eq c 95 && not after_underscore
    then underscore
    else none

digits : String → Option ℕ
unfolding digits_from
digits s = digits_from 0 true s

abbrev as_pos : Option ℕ → Option ℤ
as_pos none = none
as_pos (some n) = some (pos n)

abbrev as_neg : Option ℕ → Option ℤ
as_neg none = none
as_neg (some zero) = some (pos 0)
as_neg (some (suc n)) = some (negsuc n)

signed : String → Option ℤ
unfolding digits
signed String.[] = none
signed (String.◌∷◌ ch s) =
    let c = code ch in
    if nat_eq c 45
    then as_neg (digits s)
    else if nat_eq c 43
    then as_pos (digits s)
    else as_pos (digits (String.◌∷◌ ch s))

-- `int(s)`; `none` is a `ValueError`
unfoldable pub parse_int : String → Option ℤ
unfolding signed strip
parse_int s = signed (strip s)
