-- ===== src/Base/Text.antt =====
-- Strings as the standard library treats them: a text is its characters' code points.
pub mod Decimal
use Prim.Native.Char.{code}
use Prim.Native.String.{String}
use Prim.Native.Nat.{ℕ, zero, suc, ◌+◌, ◌-◌, ◌*◌, ◌/◌, ◌%◌, ◌^◌}
use mathlib.Core.Bool.{Bool, true, false, ◌&&◌, ◌||◌}
use mathlib.Core.Option.{Option, none, some}
use mathlib.Core.List.{List, [], ◌∷◌, ◌++◌}
use falcon_cache.Base.Tests.{leb, ◌==◌, if◌then◌else◌}
use falcon_cache.Base.Equality.{bytes_eq}

abbrev pub Text : Type 0
Text = List ℕ

abbrev pub text : String → Text
text String.[] = []
text (String.◌∷◌ c s) = code c ∷ text s

abbrev pub between : ℕ → ℕ → ℕ → Bool
between lo hi c = leb lo c && leb c hi

-- `char::is_whitespace`
unfoldable pub is_whitespace : ℕ → Bool
is_whitespace c =
    between 9 13 c
    || c == 32
    || c == 133
    || c == 160
    || c == 5760
    || between 8192 8202 c
    || c == 8232
    || c == 8233
    || c == 8239
    || c == 8287
    || c == 12288

unfoldable pub trim_start : Text → Text
unfolding is_whitespace
trim_start [] = []
trim_start (c ∷ cs) = let rest = trim_start cs in if is_whitespace c then rest else c ∷ cs

abbrev pub is_blank : Text → Bool
is_blank [] = true
is_blank (c ∷ cs) = false

unfoldable pub trim_end : Text → Text
unfolding is_whitespace
trim_end [] = []
trim_end (c ∷ cs) =
    let rest = trim_end cs in if is_blank rest && is_whitespace c then [] else c ∷ rest

unfoldable pub trim : Text → Text
unfolding trim_start trim_end
trim t = trim_end (trim_start t)

abbrev lower : ℕ → ℕ
lower c = if between 65 90 c then c + 32 else c

unfoldable pub to_ascii_lowercase : Text → Text
to_ascii_lowercase [] = []
to_ascii_lowercase (c ∷ cs) = lower c ∷ to_ascii_lowercase cs

-- Whether the text is one of some literals.
unfoldable pub is_any : List Text → Text → Bool
is_any [] t = false
is_any (s ∷ rest) t = bytes_eq t s || is_any rest t

unfoldable pub digit : ℕ → Option ℕ
digit c = if between 48 57 c then some (c - 48) else none

-- The digits of a number, after `acc` of those before; none if one is no digit or the number
-- passes `most`.
unfoldable pub read_digits : ℕ → ℕ → Text → Option ℕ
unfolding digit
read_digits most acc [] = some acc
read_digits most acc (c ∷ cs) = elim (digit c) [
  | none ↦ none
  | some d ↦ elim (leb (acc * 10 + d) most) [
    | true ↦ read_digits most (acc * 10 + d) cs
    | false ↦ none
  ]
]

-- `str::parse` at `u64` and `usize`: a sign '+' may stand before the digits, and there is a digit.
unfoldable pub parse_u64 : Text → Option ℕ
unfolding read_digits
parse_u64 [] = none
parse_u64 (c ∷ []) = read_digits (2 ^ 64 - 1) 0 (c ∷ [])
parse_u64 (c ∷ d ∷ cs) =
    if c == 43 then read_digits (2 ^ 64 - 1) 0 (d ∷ cs) else read_digits (2 ^ 64 - 1) 0 (c ∷ d ∷ cs)

-- A number of at most `fuel` digits in decimal.
unfoldable pub show_digits : ℕ → ℕ → Text
show_digits zero n = []
show_digits (suc fuel) n = elim (leb n 9) [
  | true ↦ (n + 48) ∷ []
  | false ↦ show_digits fuel (n / 10) ++ ((n % 10 + 48) ∷ [])
]

-- `to_string` of a number of 64 bits, which has at most 20 digits.
unfoldable pub show_u64 : ℕ → Text
unfolding show_digits
show_u64 n = show_digits 20 n

-- `strip_prefix`
unfoldable pub strip_prefix : Text → Text → Option Text
strip_prefix [] t = some t
strip_prefix (p ∷ ps) [] = none
strip_prefix (p ∷ ps) (c ∷ cs) = let rest = strip_prefix ps cs in if p == c then rest else none

abbrev on_line : ℕ → List Text → List Text
on_line c [] = (c ∷ []) ∷ []
on_line c (line ∷ rest) = (c ∷ line) ∷ rest

-- `lines`, but for a carriage return at the end of a line, which is 13.
unfoldable pub split_lines : Text → List Text
split_lines [] = []
split_lines (c ∷ cs) = let rest = split_lines cs in if c == 10 then [] ∷ rest else on_line c rest

unfoldable pub drop_return : Text → Text
drop_return [] = []
drop_return (c ∷ cs) = let rest = drop_return cs in if c == 13 && is_blank cs then [] else c ∷ rest

unfoldable pub until_whitespace : Text → Text
unfolding is_whitespace
until_whitespace [] = []
until_whitespace (c ∷ cs) =
    let rest = until_whitespace cs in if is_whitespace c then [] else c ∷ rest

-- `split_whitespace().next()`
unfoldable pub first_word : Text → Option Text
unfolding until_whitespace trim_start
first_word t =
    let word = until_whitespace (trim_start t) in if is_blank word then none else some word
