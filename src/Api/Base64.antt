-- ===== src/Api/Base64.antt =====
-- Base64 with padding, for the values that are not UTF-8 (crates/falcon-api/src/rest/simple.rs).
use falcon_cache.Base.{
  not, inr, inl, Bool-cases, leb, ℕ, zero, suc, ◌+◌, ◌-◌, ◌*◌, ◌/◌, ◌%◌, ◌<◌, ◌≡◌, refl, ap, ◌∙◌,
  Bool, true, false, ◌&&◌, ◌==◌, Option, none, some, List, [], ◌∷◌, ◌++◌, ltb, if◌then◌else◌, All,
  arith,
}
use falcon_cache.Base.Text.{Text, text, is_blank}

abbrev pub IsByte : ℕ → Type 0
IsByte b = b < 256

-- `ALPHABET`
abbrev alphabet : Text
alphabet = text "ABCDEFGHIJKLMNOPQRSTUVWXYZabcdefghijklmnopqrstuvwxyz0123456789+/"

-- `ALPHABET[c]`; the indices are below 64.
abbrev letter_at : Text → ℕ → ℕ
letter_at [] i = 0
letter_at (c ∷ cs) zero = c
letter_at (c ∷ cs) (suc i) = letter_at cs i

abbrev letter : ℕ → ℕ
letter i = letter_at alphabet i

-- `u32::from_be_bytes([0, b0, b1, b2])`
abbrev pub word : ℕ → ℕ → ℕ → ℕ
word a b c = a * 65536 + b * 256 + c

-- The four digits of a word: `(n >> 18) & 0x3F` and so on.
abbrev digit3 : ℕ → ℕ
digit3 n = n / 262144 % 64

abbrev digit2 : ℕ → ℕ
digit2 n = n / 4096 % 64

abbrev digit1 : ℕ → ℕ
digit1 n = n / 64 % 64

abbrev digit0 : ℕ → ℕ
digit0 n = n % 64

-- What a chunk is written as, of which `keep` characters are kept; '=' is 61.
abbrev quad : ℕ → ℕ → Text
quad keep n =
    (if ltb 0 keep then letter (digit3 n) else 61)
    ∷ (if ltb 1 keep then letter (digit2 n) else 61)
    ∷ (if ltb 2 keep then letter (digit1 n) else 61)
    ∷ (if ltb 3 keep then letter (digit0 n) else 61)
    ∷ []

-- The loop over the chunks of three bytes, the last of which may be shorter.
unfoldable pub base64_encode : List ℕ → Text
base64_encode [] = []
base64_encode (a ∷ []) = quad 2 (word a 0 0)
base64_encode (a ∷ b ∷ []) = quad 3 (word a b 0)
base64_encode (a ∷ b ∷ c ∷ rest) = quad 4 (word a b c) ++ base64_encode rest

-- A decoder that a client may use, after RFC 4648: the value of a letter,
unfoldable pub letter_value : ℕ → Option ℕ
letter_value c =
    if leb 65 c && leb c 90
    then some (c - 65)
    else if leb 97 c && leb c 122
    then some (c - 71)
    else if leb 48 c && leb c 57
    then some (c + 4)
    else if c == 43
    then some 62
    else if c == 47
    then some 63
    else none

abbrev bytes1 : Option ℕ → Option ℕ → Option (List ℕ)
bytes1 (some i) (some j) = some ((i * 4 + j / 16) ∷ [])
bytes1 (some i) none = none
bytes1 none o = none

abbrev bytes2 : Option ℕ → Option ℕ → Option ℕ → Option (List ℕ)
bytes2 (some i) (some j) (some k) = some ((i * 4 + j / 16) ∷ (j % 16 * 16 + k / 4) ∷ [])
bytes2 (some i) (some j) none = none
bytes2 (some i) none o = none
bytes2 none o p = none

abbrev bytes3 : Option ℕ → Option ℕ → Option ℕ → Option ℕ → Option (List ℕ)
bytes3 (some i) (some j) (some k) (some l) =
    some ((i * 4 + j / 16) ∷ (j % 16 * 16 + k / 4) ∷ (k % 4 * 64 + l) ∷ [])
bytes3 (some i) (some j) (some k) none = none
bytes3 (some i) (some j) none o = none
bytes3 (some i) none o p = none
bytes3 none o p q = none

-- the bytes of four characters, where two or one of them are padding only if they are the last,
abbrev quad_bytes : ℕ → ℕ → ℕ → ℕ → Bool → Option (List ℕ)
quad_bytes w x y z last =
    if z == 61 && last
    then (if y == 61
        then bytes1 (letter_value w) (letter_value x)
        else bytes2 (letter_value w) (letter_value x) (letter_value y))
    else bytes3 (letter_value w) (letter_value x) (letter_value y) (letter_value z)

abbrev joined : Option (List ℕ) → Option (List ℕ) → Option (List ℕ)
joined (some xs) (some ys) = some (xs ++ ys)
joined (some xs) none = none
joined none o = none

-- and the bytes of a text.
unfoldable pub base64_decode : Text → Option (List ℕ)
unfolding letter_value
base64_decode [] = some []
base64_decode (w ∷ []) = none
base64_decode (w ∷ x ∷ []) = none
base64_decode (w ∷ x ∷ y ∷ []) = none
base64_decode (w ∷ x ∷ y ∷ z ∷ rest) =
    joined (quad_bytes w x y z (is_blank rest)) (base64_decode rest)

abbrev all_below : (ℕ → Bool) → ℕ → Bool
all_below p zero = true
all_below p (suc n) = p n && all_below p n

all_below-lt : (p : ℕ → Bool) (n i : ℕ) → all_below p n ≡ true → i < n → p i ≡ true
all_below-lt p zero i h small = ground arith
all_below-lt p (suc n) i h small = elim (Bool-cases (i == n)) [
  | inl e ↦ let same : i ≡ n = ground (arith, e) in rw same (ground (arith, h))
  | inr e ↦ all_below-lt p n i (ground (arith, h)) (ground (arith, e, small))
]

abbrev is_read : Option ℕ → ℕ → Bool
is_read none i = false
is_read (some j) i = j == i

is_read-eq : (o : Option ℕ) (i : ℕ) → is_read o i ≡ true → o ≡ some i
is_read-eq none i h = cc
is_read-eq (some j) i h = ground arith

letter_value-letter : (i : ℕ) → i < 64 → letter_value (letter i) ≡ some i
unfolding letter_value
letter_value-letter i small =
    is_read-eq (letter_value (letter i)) i
      (all_below-lt (λ j. is_read (letter_value (letter j)) j) 64 i refl small)

letter-unpadded : (i : ℕ) → i < 64 → (letter i == 61) ≡ false
letter-unpadded i small =
    let h = all_below-lt (λ j. not (letter j == 61)) 64 i refl small in ground (arith, h)

-- The bytes of a word are in its digits.
byte2 :
    (a b c : ℕ)
    → b < 256
    → c < 256
    → a < 256
    → digit3 (word a b c) * 4 + digit2 (word a b c) / 16 ≡ a
byte2 a b c hb hc ha = omega arith

byte1 :
    (a b c : ℕ) → b < 256 → c < 256 → digit2 (word a b c) % 16 * 16 + digit1 (word a b c) / 4 ≡ b
byte1 a b c hb hc = omega arith

byte0 : (a b c : ℕ) → c < 256 → digit1 (word a b c) % 4 * 64 + digit0 (word a b c) ≡ c
byte0 a b c hc = omega arith

digit-lt : (n : ℕ) → n % 64 < 64
digit-lt n = omega arith

quad_bytes4 :
    (a b c : ℕ) (last : Bool)
    → a < 256
    → b < 256
    → c < 256
    → quad_bytes
        (letter (digit3 (word a b c)))
        (letter (digit2 (word a b c)))
        (letter (digit1 (word a b c)))
        (letter (digit0 (word a b c)))
        last
      ≡ some (a ∷ b ∷ c ∷ [])
quad_bytes4 a b c last ha hb hc =
    let n = word a b c in
    rw
      (
        letter-unpadded (digit0 n) (digit-lt n),
        letter_value-letter (digit3 n) (digit-lt (n / 262144)),
        letter_value-letter (digit2 n) (digit-lt (n / 4096)),
        letter_value-letter (digit1 n) (digit-lt (n / 64)),
        letter_value-letter (digit0 n) (digit-lt n),
        byte2 a b c hb hc ha,
        byte1 a b c hb hc,
        byte0 a b c hc,
      )
      refl

-- What a value is written as in base64 is read back as the value.
pub base64_decode-base64_encode :
    (bytes : List ℕ) → All IsByte bytes → base64_decode (base64_encode bytes) ≡ some bytes
unfolding base64_decode base64_encode
base64_decode-base64_encode [] h = refl
base64_decode-base64_encode (a ∷ []) h =
    let n = word a 0 0 in
    rw
      (
        letter_value-letter (digit3 n) (digit-lt (n / 262144)),
        letter_value-letter (digit2 n) (digit-lt (n / 4096)),
        byte2 a 0 0 (omega arith) (omega arith) h.0,
      )
      refl
base64_decode-base64_encode (a ∷ b ∷ []) h =
    let n = word a b 0 in
    rw
      (
        letter-unpadded (digit1 n) (digit-lt (n / 64)),
        letter_value-letter (digit3 n) (digit-lt (n / 262144)),
        letter_value-letter (digit2 n) (digit-lt (n / 4096)),
        letter_value-letter (digit1 n) (digit-lt (n / 64)),
        byte2 a b 0 h.1.0 (omega arith) h.0,
        byte1 a b 0 h.1.0 (omega arith),
      )
      refl
base64_decode-base64_encode (a ∷ b ∷ c ∷ rest) h =
    ap (λ o. joined o (base64_decode (base64_encode rest)))
      (quad_bytes4 a b c (is_blank (base64_encode rest)) h.0 h.1.0 h.1.1.0)
    ∙ ap (joined (some (a ∷ b ∷ c ∷ []))) (base64_decode-base64_encode rest h.1.1.1)
