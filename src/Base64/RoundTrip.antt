-- ===== src/Base64/RoundTrip.antt =====
-- What src/base/crypto/crypto.cpp encodes, decoded again.
use mathlib.Core.List.{append-nil, append_assoc}
use Prim.Native.Nat.{bit_or}
use yscript.Prelude.{
  ℕ, zero, suc, ◌+◌, ◌-◌, ◌*◌, ◌/◌, ◌%◌, ◌≤◌, ◌<◌, ◌≡◌, refl, ap, ◌∙◌, [], ◌∷◌, ◌++◌, Bool, true,
  false, not, ◌&&◌, Option, none, some, arith, ◌==◌, ltb, leb, if◌then◌else◌, length, get_or,
}
use yscript.Prelude.Bytes.{Bytes}
use yscript.Base64.{
  letter, base64_encode, padding_byte, accepted, table_entry, decode_letter, decode_loop, padding,
  expect_len, base64_decode,
}

-- A letter of the table, which is no padding, means its number.
abbrev is_letter : ℕ → Bool
is_letter n = ltb (letter n) 128 && not (letter n == padding_byte)

abbrev all_below : ℕ → (ℕ → Bool) → Bool
all_below zero p = true
all_below (suc n) p = p n && all_below n p

abbrev same_number : Option ℕ → ℕ → Bool
same_number none n = false
same_number (some m) n = m == n

abbrev means : ℕ → Bool
means n = is_letter n && same_number (table_entry (letter n)) n

all_mean : all_below 64 means ≡ true
unfolding letter table_entry
all_mean = refl

all_below_sound : (n : ℕ) (p : ℕ → Bool) (x : ℕ) → all_below n p ≡ true → x < n → p x ≡ true
all_below_sound zero p x h lt = absurd (omega arith)
all_below_sound (suc n) p x h lt = ground (arith, all_below_sound n p x)

record Reads (n : ℕ) : Type 0 where
  no_padding : (letter n == padding_byte) ≡ false
  small : leb 128 (letter n) ≡ false
  number : table_entry (letter n) ≡ some n

same_number→eq : (o : Option ℕ) (n : ℕ) → same_number o n ≡ true → o ≡ some n
same_number→eq none n h = absurd (ground arith)
same_number→eq (some m) n h = let e : m ≡ n = ground arith in ap some e

means→Reads : (n : ℕ) → means n ≡ true → Reads n
means→Reads n h =
    let number : same_number (table_entry (letter n)) n ≡ true = ground arith in
    record {
      no_padding = ground arith;
      small = ground arith;
      number = same_number→eq (table_entry (letter n)) n number;
    }

letter-Reads : (n : ℕ) → n < 64 → Reads n
letter-Reads n h = means→Reads n (all_below_sound 64 means n all_mean h)

-- A number of `k` digits and another below `w`, joined by their bits.
abbrev joins : (k w : ℕ) → Bool
joins k w = all_below k (λ a. all_below w (λ b. bit_or (a * w) b == a * w + b))

joins_two_bits : joins 64 4 ≡ true
joins_two_bits = refl

joins_four_bits : joins 16 16 ≡ true
joins_four_bits = refl

joins_six_bits : joins 4 64 ≡ true
joins_six_bits = refl

joins_sound : (k w a b : ℕ) → joins k w ≡ true → a < k → b < w → bit_or (a * w) b ≡ a * w + b
joins_sound k w a b h ha hb =
    let same : (bit_or (a * w) b == a * w + b) ≡ true =
      all_below_sound w _ b (all_below_sound k _ a h ha) hb in
    ground (arith, same)

-- One letter of the input, by its place in its group of four.
module _ (before : ℕ → ℕ → Option ℕ) (expect : ℕ) (n : ℕ) (h : n < 64) (rest : Bytes) (i bin : ℕ)
    (out : Bytes) where
  decode_loop-first :
      i % 4 ≡ 0
      → decode_loop before expect (letter n ∷ rest) i bin out
        ≡ decode_loop before expect rest (i + 1) (n * 4) out
  unfolding decode_loop decode_letter
  decode_loop-first e =
      let l = letter-Reads n h in
      let at : (i % 4 == 0) ≡ true = ground arith in
      rw (decode_loop, decode_letter, l.no_padding, l.small, l.number, at)

  decode_loop-second :
      i % 4 ≡ 1
      → decode_loop before expect (letter n ∷ rest) i bin out
        ≡ decode_loop before expect rest
            (i + 1)
            (n % 16 * 16)
            (out ++ bit_or bin (n / 16) % 256 ∷ [])
  unfolding decode_loop decode_letter
  decode_loop-second e =
      let l = letter-Reads n h in
      let at : (i % 4 == 0) ≡ false = ground arith in
      let at₁ : (i % 4 == 1) ≡ true = ground arith in
      rw (decode_loop, decode_letter, l.no_padding, l.small, l.number, at, at₁)

  decode_loop-third :
      i % 4 ≡ 2
      → decode_loop before expect (letter n ∷ rest) i bin out
        ≡ decode_loop before expect rest (i + 1) (n % 4 * 64) (out ++ bit_or bin (n / 4) % 256 ∷ [])
  unfolding decode_loop decode_letter
  decode_loop-third e =
      let l = letter-Reads n h in
      let at : (i % 4 == 0) ≡ false = ground arith in
      let at₁ : (i % 4 == 1) ≡ false = ground arith in
      let at₂ : (i % 4 == 2) ≡ true = ground arith in
      rw (decode_loop, decode_letter, l.no_padding, l.small, l.number, at, at₁, at₂)

  decode_loop-fourth :
      i % 4 ≡ 3
      → decode_loop before expect (letter n ∷ rest) i bin out
        ≡ decode_loop before expect rest (i + 1) (bit_or bin n) (out ++ bit_or bin n % 256 ∷ [])
  unfolding decode_loop decode_letter
  decode_loop-fourth e =
      let l = letter-Reads n h in
      let at : (i % 4 == 0) ≡ false = ground arith in
      let at₁ : (i % 4 == 1) ≡ false = ground arith in
      let at₂ : (i % 4 == 2) ≡ false = ground arith in
      rw (decode_loop, decode_letter, l.no_padding, l.small, l.number, at, at₁, at₂)

abbrev pub AreBytes : Bytes → Type 0
AreBytes [] = Unit
AreBytes (x ∷ xs) = (x < 256) × AreBytes xs

-- Two paddings end a text of which two letters have been read, and one a text of which three have.
module _ (before : ℕ → ℕ → Option ℕ) (expect : ℕ) (out : Bytes) (full : length out ≡ expect) where
  decode_loop-end : (i bin : ℕ) → decode_loop before expect [] i bin out ≡ accepted out
  unfolding decode_loop
  decode_loop-end i bin =
      let all : (length out == expect) ≡ true = ground arith in rw (decode_loop, all)

  decode_loop-padding :
      (i bin : ℕ) → decode_loop before expect (padding_byte ∷ []) i bin out ≡ accepted out
  unfolding decode_loop
  decode_loop-padding i bin = decode_loop-end i bin

  decode_loop-paddings :
      (i bin : ℕ)
      → decode_loop before expect (padding_byte ∷ padding_byte ∷ []) i bin out ≡ accepted out
  unfolding decode_loop
  decode_loop-paddings i bin = decode_loop-end i bin

module _ (before : ℕ → ℕ → Option ℕ) (expect : ℕ) where
  decode_loop-encode :
      (xs : Bytes) (i bin : ℕ) (out : Bytes)
      → AreBytes xs
      → i % 4 ≡ 0
      → length (out ++ xs) ≡ expect
      → decode_loop before expect (base64_encode xs) i bin out ≡ accepted (out ++ xs)
  unfolding base64_encode
  decode_loop-encode [] i bin out small e full =
      rw append-nil (decode_loop-end before expect out (rw append-nil at full) i bin)
  decode_loop-encode (a ∷ []) i bin out (sa, _) e full =
      let first : bit_or (a / 4 % 64 * 4) (a % 4 * 16 / 16) % 256 ≡ a = omega (
        arith,
        joins_sound 64 4 (a / 4 % 64) (a % 4 * 16 / 16) joins_two_bits (omega arith) (omega arith),
      ) in
      rw
        (
          decode_loop-first before expect (a / 4 % 64) (omega arith) _ i bin out e,
          decode_loop-second before expect (a % 4 * 16) (omega arith) _ (i + 1) (a / 4 % 64 * 4) out
              (omega arith),
          first,
        )
        (decode_loop-paddings before expect (out ++ a ∷ []) full (i + 1 + 1) (a % 4 * 16 % 16 * 16))
  decode_loop-encode (a ∷ b ∷ []) i bin out (sa, (sb, _)) e full =
      let first : bit_or (a / 4 % 64 * 4) ((a % 4 * 16 + b / 16 % 16) / 16) % 256 ≡ a = omega (
        arith,
        joins_sound 64 4 (a / 4 % 64) ((a % 4 * 16 + b / 16 % 16) / 16) joins_two_bits (omega arith)
            (omega arith),
      ) in
      let second : bit_or ((a % 4 * 16 + b / 16 % 16) % 16 * 16) (b % 16 * 4 / 4) % 256 ≡ b =
        omega (
          arith,
          joins_sound 16 16 ((a % 4 * 16 + b / 16 % 16) % 16) (b % 16 * 4 / 4) joins_four_bits
              (omega arith) (omega arith),
        ) in
      let joined : (out ++ a ∷ []) ++ b ∷ [] ≡ out ++ a ∷ b ∷ [] =
        append_assoc out (a ∷ []) (b ∷ []) in
      rw
        (
          decode_loop-first before expect (a / 4 % 64) (omega arith) _ i bin out e,
          decode_loop-second before expect (a % 4 * 16 + b / 16 % 16) (omega arith) _ (i + 1)
              (a / 4 % 64 * 4) out (omega arith),
          first,
          decode_loop-third before expect (b % 16 * 4) (omega arith) _ (i + 1 + 1)
              ((a % 4 * 16 + b / 16 % 16) % 16 * 16) (out ++ a ∷ []) (omega arith),
          second,
          joined,
        )
        (decode_loop-padding before expect (out ++ a ∷ b ∷ []) full (i + 1 + 1 + 1)
          (b % 16 * 4 % 4 * 64))
  decode_loop-encode (a ∷ b ∷ c ∷ rest) i bin out (sa, (sb, (sc, small))) e full =
      let high = b / 16 % 16 + a % 4 * 16 in
      let low = b % 16 * 4 + c / 64 % 4 in
      let first : bit_or (a / 4 % 64 * 4) ((b / 16 % 16 + a % 4 * 16) / 16) % 256 ≡ a = omega (
        arith,
        joins_sound 64 4 (a / 4 % 64) (high / 16) joins_two_bits (omega arith) (omega arith),
      ) in
      let second : bit_or ((b / 16 % 16 + a % 4 * 16) % 16 * 16) ((b % 16 * 4 + c / 64 % 4) / 4)
            % 256
          ≡ b =
        omega (
          arith,
          joins_sound 16 16 (high % 16) (low / 4) joins_four_bits (omega arith) (omega arith),
        ) in
      let third : bit_or ((b % 16 * 4 + c / 64 % 4) % 4 * 64) (c % 64) % 256 ≡ c =
        omega
          (arith, joins_sound 4 64 (low % 4) (c % 64) joins_six_bits (omega arith) (omega arith)) in
      let joined : (out ++ a ∷ b ∷ c ∷ []) ++ rest ≡ out ++ a ∷ b ∷ c ∷ rest =
        append_assoc out (a ∷ b ∷ c ∷ []) rest in
      let joined₂ : ((out ++ a ∷ []) ++ b ∷ []) ++ c ∷ [] ≡ out ++ a ∷ b ∷ c ∷ [] =
        simp append_assoc in
      rw
        (
          decode_loop-first before expect (a / 4 % 64) (omega arith) _ i bin out e,
          decode_loop-second before expect (b / 16 % 16 + a % 4 * 16) (omega arith) _ (i + 1)
              (a / 4 % 64 * 4) out (omega arith),
          first,
          decode_loop-third before expect (b % 16 * 4 + c / 64 % 4) (omega arith) _ (i + 1 + 1)
              ((b / 16 % 16 + a % 4 * 16) % 16 * 16) (out ++ a ∷ []) (omega arith),
          second,
          decode_loop-fourth before expect (c % 64) (omega arith) _ (i + 1 + 1 + 1)
              ((b % 16 * 4 + c / 64 % 4) % 4 * 64) ((out ++ a ∷ []) ++ b ∷ []) (omega arith),
          third,
          joined₂,
        )
        (decode_loop-encode rest (i + 1 + 1 + 1 + 1)
            (bit_or ((b % 16 * 4 + c / 64 % 4) % 4 * 64) (c % 64)) (out ++ a ∷ b ∷ c ∷ []) small
            (omega arith) (ap length joined ∙ full)
          ∙ ap accepted joined)

-- The text is of whole groups of four, and the number of bytes is read from its length and its end.
length-base64_encode : (xs : Bytes) → length (base64_encode xs) ≡ (length xs + 2) / 3 * 4
unfolding base64_encode
length-base64_encode [] = refl
length-base64_encode (a ∷ []) = refl
length-base64_encode (a ∷ b ∷ []) = refl
length-base64_encode (a ∷ b ∷ c ∷ rest) = omega (arith, length-base64_encode rest)

get_or-behind :
    (a b c d : ℕ) (xs : Bytes) (k : ℕ)
    → k ≤ length xs
    → get_or (a ∷ b ∷ c ∷ d ∷ xs) (length (a ∷ b ∷ c ∷ d ∷ xs) - k) 0 ≡ get_or xs (length xs - k) 0
get_or-behind a b c d xs k h =
    let e : suc (suc (suc (suc (length xs)))) - k ≡ suc (suc (suc (suc (length xs - k)))) =
      omega arith in
    rw e

padding-behind :
    (a b c d : ℕ) (xs : Bytes) → 2 ≤ length xs → padding (a ∷ b ∷ c ∷ d ∷ xs) ≡ padding xs
unfolding padding
padding-behind a b c d xs h =
    let last = get_or-behind a b c d xs 1 (omega arith) in
    let before = get_or-behind a b c d xs 2 h in
    λ i. (if last i == padding_byte then 1 else 0) + (if before i == padding_byte then 1 else 0)

expect_len-encode :
    (x : ℕ) (xs : Bytes) → AreBytes (x ∷ xs) → expect_len (base64_encode (x ∷ xs)) ≡ suc (length xs)
unfolding base64_encode expect_len padding
expect_len-encode a [] s = refl
expect_len-encode a (b ∷ []) s =
    let l = letter-Reads (b % 16 * 4) (omega arith) in rw (l.no_padding)
expect_len-encode a (b ∷ c ∷ []) s =
    let l = letter-Reads (c % 64) (omega arith) in
    let l₂ = letter-Reads (b % 16 * 4 + c / 64 % 4) (omega arith) in
    rw (l.no_padding, l₂.no_padding)
expect_len-encode a (b ∷ c ∷ d ∷ rest) (_, (_, (_, small))) =
    let more = expect_len-encode d rest small in
    let size = length-base64_encode (d ∷ rest) in
    let same =
      padding-behind (letter (a / 4 % 64)) (letter (b / 16 % 16 + a % 4 * 16))
        (letter (b % 16 * 4 + c / 64 % 4)) (letter (c % 64)) (base64_encode (d ∷ rest))
        (omega arith) in
    omega (arith, same, more, size)

-- What base64Encode writes for a text of one byte at least, base64Decode takes, with room for as many bytes, and writes
-- the text again.
pub base64_decode-base64_encode :
    (before : ℕ → ℕ → Option ℕ) (xs : Bytes) (out_len : ℕ)
    → 0 < length xs
    → AreBytes xs
    → length xs ≤ out_len
    → base64_decode before (base64_encode xs) out_len ≡ accepted xs
unfolding base64_decode
base64_decode-base64_encode before [] out_len some_byte small room = absurd (omega arith)
base64_decode-base64_encode before (x ∷ xs) out_len some_byte small room =
    let size = length-base64_encode (x ∷ xs) in
    let expect = expect_len-encode x xs small in
    let filled : (length (base64_encode (x ∷ xs)) == 0) ≡ false = ground arith in
    let whole : (length (base64_encode (x ∷ xs)) % 4 == 0) ≡ true = ground arith in
    let fits : ltb out_len (suc (length xs)) ≡ false = ground arith in
    rw (base64_decode, filled, whole, expect, fits)
      (decode_loop-encode before (suc (length xs)) (x ∷ xs) 0 0 [] small refl refl)
