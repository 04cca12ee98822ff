-- ===== src/Base/Text/Decimal.antt =====
-- A number that is shown is read back, and spaces around it do not matter.
use mathlib.Core.Logic.{inl, inr}
use mathlib.Core.Path.{◌≡◌, refl, ap, ◌∙◌}
use Prim.Native.Nat.{ℕ, zero, suc, ◌+◌, ◌-◌, ◌*◌, ◌/◌, ◌%◌, ◌^◌, ◌≤◌, ◌<◌}
use mathlib.Core.Bool.{true, false}
use mathlib.Core.Option.{Option, none, some}
use mathlib.Core.List.{[], ◌∷◌, ◌++◌}
use native.Mathlib.Nat.{pow-suc}
use native.Mathlib.Omega.{arith}
use falcon_cache.Base.Tests.{leb, ◌==◌, Bool-cases}
use falcon_cache.Base.Lists.{All, All-append}
use falcon_cache.Base.Text.{
  Text, digit, read_digits, parse_u64, show_digits, show_u64, is_whitespace, trim, trim_start,
  trim_end, is_blank,
}

abbrev pub IsDigit : ℕ → Type 0
IsDigit c = (48 ≤ c) × (c ≤ 57)

abbrev then_read : ℕ → Option ℕ → Text → Option ℕ
then_read most none cs = none
then_read most (some n) cs = read_digits most n cs

digit-digit : (d : ℕ) → d ≤ 9 → digit (d + 48) ≡ some d
unfolding digit
digit-digit d h = ground arith

read_one :
    (most n d : ℕ)
    → d ≤ 9
    → n * 10 + d ≤ most
    → read_digits most n ((d + 48) ∷ []) ≡ some (n * 10 + d)
unfolding read_digits
read_one most n d small fits =
    let room : leb (n * 10 + d) most ≡ true = ground (arith, fits) in
    rw (read_digits, digit-digit d small, room) refl

read_digits-append :
    (most acc : ℕ) (xs ys : Text)
    → read_digits most acc (xs ++ ys) ≡ then_read most (read_digits most acc xs) ys
unfolding read_digits
read_digits-append most acc [] ys = refl
read_digits-append most acc (c ∷ xs) ys =
    ground (arith, read_digits-append most (acc * 10 + (c - 48)) xs ys)

read_digits-nil : (most acc : ℕ) → read_digits most acc [] ≡ some acc
unfolding read_digits
read_digits-nil most acc = refl

read-show :
    (most fuel n : ℕ) → n < 10 ^ fuel → n ≤ most → read_digits most 0 (show_digits fuel n) ≡ some n
unfolding show_digits
read-show most zero n h fits = read_digits-nil most 0 ∙ ap some (omega arith)
read-show most (suc fuel) n h fits = elim (Bool-cases (leb n 9)) [
  | inl last ↦
      rw (show_digits, last)
        (read_one most 0 n (ground (arith, last)) (omega arith) ∙ ap some (omega arith))
  | inr more ↦
      rw (show_digits, more)
        (read_digits-append most 0 (show_digits fuel (n / 10)) ((n % 10 + 48) ∷ [])
          ∙ ap (λ o. then_read most o ((n % 10 + 48) ∷ []))
              (read-show most fuel (n / 10) (omega (arith, h, pow-suc 10 fuel)) (omega arith))
          ∙ read_one most (n / 10) (n % 10) (omega arith) (omega arith)
          ∙ ap some (omega arith))
]

show_digits-IsDigit : (fuel n : ℕ) → All IsDigit (show_digits fuel n)
unfolding show_digits
show_digits-IsDigit zero n = tt
show_digits-IsDigit (suc fuel) n = elim (Bool-cases (leb n 9)) [
  | inl last ↦ rw (show_digits, last) ((omega arith, ground (arith, last)), tt)
  | inr more ↦
      rw (show_digits, more)
        (All-append IsDigit (show_digits fuel (n / 10)) ((n % 10 + 48) ∷ [])
          (show_digits-IsDigit fuel (n / 10)) ((omega arith, omega arith), tt))
]

digit-solid : (c : ℕ) → IsDigit c → is_whitespace c ≡ false
unfolding is_whitespace
digit-solid c h = ground (arith, h)

trim_start-digits : (t : Text) → All IsDigit t → trim_start t ≡ t
unfolding trim_start
trim_start-digits [] h = refl
trim_start-digits (c ∷ cs) h = rw (digit-solid c h.0) refl

trim_end-digits : (t : Text) → All IsDigit t → trim_end t ≡ t
unfolding trim_end
trim_end-digits [] h = refl
trim_end-digits (c ∷ cs) h = ground (arith, digit-solid c h.0, trim_end-digits cs h.1)

trim-digits : (t : Text) → All IsDigit t → trim t ≡ t
unfolding trim
trim-digits t h = ap trim_end (trim_start-digits t h) ∙ trim_end-digits t h

-- The text of a number has no spaces to trim.
pub trim-show_u64 : (n : ℕ) → trim (show_u64 n) ≡ show_u64 n
unfolding show_u64
trim-show_u64 n = trim-digits (show_digits 20 n) (show_digits-IsDigit 20 n)

parse-digits :
    (t : Text) (n : ℕ)
    → All IsDigit t
    → is_blank t ≡ false
    → parse_u64 t ≡ read_digits (2 ^ 64 - 1) 0 t
unfolding parse_u64
parse-digits [] n h full = cc
parse-digits (c ∷ []) n h full = refl
parse-digits (c ∷ d ∷ cs) n h full =
    let unsigned : c == 43 ≡ false = ground (arith, h.0) in rw unsigned refl

append-full : (xs : Text) (c : ℕ) → is_blank (xs ++ (c ∷ [])) ≡ false
append-full [] c = refl
append-full (x ∷ xs) c = refl

show_digits-full : (fuel n : ℕ) → is_blank (show_digits (suc fuel) n) ≡ false
unfolding show_digits
show_digits-full fuel n = elim (Bool-cases (leb n 9)) [
  | inl last ↦ rw (show_digits, last) refl
  | inr more ↦ rw (show_digits, more) (append-full (show_digits fuel (n / 10)) (n % 10 + 48))
]

-- A number of 64 bits that is shown is read back.
pub parse_u64-show_u64 : (n : ℕ) → n < 2 ^ 64 → parse_u64 (show_u64 n) ≡ some n
unfolding show_u64
parse_u64-show_u64 n h =
    parse-digits (show_digits 20 n) n (show_digits-IsDigit 20 n) (show_digits-full 19 n)
    ∙ read-show (2 ^ 64 - 1) 20 n (omega arith) (omega arith)

-- No number is spelled like a word that does not start with a digit.
pub show_u64-head : (n c : ℕ) (cs : Text) → show_u64 n ≡ c ∷ cs → IsDigit c
unfolding show_u64
show_u64-head n c cs e = head_digit (rw e at (show_digits-IsDigit 20 n))
  where
    head_digit : All IsDigit (c ∷ cs) → IsDigit c
    head_digit h = h.0

abbrev IsAtMost : ℕ → Option ℕ → Type 0
IsAtMost most none = Unit
IsAtMost most (some n) = n ≤ most

read_digits-le : (most acc : ℕ) (t : Text) → acc ≤ most → IsAtMost most (read_digits most acc t)
unfolding read_digits
read_digits-le most acc [] h = h
read_digits-le most acc (c ∷ cs) h = ground (arith, read_digits-le most (acc * 10 + (c - 48)) cs)

parse_u64-IsAtMost : (t : Text) → IsAtMost (2 ^ 64 - 1) (parse_u64 t)
unfolding parse_u64
parse_u64-IsAtMost [] = tt
parse_u64-IsAtMost (c ∷ []) = read_digits-le (2 ^ 64 - 1) 0 (c ∷ []) (omega arith)
parse_u64-IsAtMost (c ∷ d ∷ cs) = elim (Bool-cases (c == 43)) [
  | inl sign ↦ rw sign (read_digits-le (2 ^ 64 - 1) 0 (d ∷ cs) (omega arith))
  | inr plain ↦ rw plain (read_digits-le (2 ^ 64 - 1) 0 (c ∷ d ∷ cs) (omega arith))
]

-- What is read fits 64 bits.
pub parse_u64-lt : (t : Text) (n : ℕ) → parse_u64 t ≡ some n → n < 2 ^ 64
parse_u64-lt t n h =
    let bounded : IsAtMost (2 ^ 64 - 1) (some n) = rw h at (parse_u64-IsAtMost t) in omega arith
