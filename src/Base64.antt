-- ===== src/Base64.antt =====
-- Base64 (src/base/crypto/crypto.cpp). A byte is a number below 256; the masks and shifts of the source
-- are written as remainders and quotients, and the `|` of the encoder, whose sides never have a bit in common,
-- as a sum.
-- The lengths are numbers of 32 bits there: the text of `in_len` bytes fits one up to 3 * 2 ^ 30 - 3 bytes.
pub mod RoundTrip
pub mod Bounds
use Prim.Native.Nat.{bit_or}
use yscript.Prelude.{
  zero, suc, ℕ, ◌+◌, ◌-◌, ◌*◌, ◌/◌, ◌%◌, List, [], ◌∷◌, ◌++◌, not, ◌&&◌, Option, none, some, ◌==◌,
  ltb, leb, if◌then◌else◌, length, get_or, replicate,
}
use yscript.Prelude.Bytes.{Bytes, codes}

abbrev pub table : Bytes
table = codes "ABCDEFGHIJKLMNOPQRSTUVWXYZabcdefghijklmnopqrstuvwxyz0123456789+/"

unfoldable pub letter : ℕ → ℕ
letter n = get_or table n 0

abbrev pub padding_byte : ℕ
padding_byte = b'='

-- What is written to `output_data`; `out_len` is its length.
unfoldable pub base64_encode : Bytes → Bytes
unfolding letter
base64_encode (a ∷ b ∷ c ∷ rest) =
    letter (a / 4 % 64)
    ∷ letter (b / 16 % 16 + a % 4 * 16)
    ∷ letter (b % 16 * 4 + c / 64 % 4)
    ∷ letter (c % 64)
    ∷ base64_encode rest
base64_encode (a ∷ b ∷ []) =
    letter (a / 4 % 64)
    ∷ letter (a % 4 * 16 + b / 16 % 16)
    ∷ letter (b % 16 * 4)
    ∷ padding_byte
    ∷ []
base64_encode (a ∷ []) =
    letter (a / 4 % 64) ∷ letter (a % 4 * 16) ∷ padding_byte ∷ padding_byte ∷ []
base64_encode [] = []

abbrev counted : (n from : ℕ) → List (Option ℕ)
counted zero from = []
counted (suc n) from = some from ∷ counted n (suc from)

-- `DecodeTable`, in which every table_entry below 0 is `none`.
abbrev pub decode_table : List (Option ℕ)
decode_table =
    replicate 43 none
    ++ some 62 ∷ none ∷ none ∷ none ∷ some 63 ∷ []
    ++ counted 10 52
    ++ replicate 7 none
    ++ counted 26 0
    ++ replicate 6 none
    ++ counted 26 26
    ++ replicate 133 none

unfoldable pub padding : Bytes → ℕ
padding input =
    (if get_or input (length input - 1) 0 == padding_byte then 1 else 0)
    + (if get_or input (length input - 2) 0 == padding_byte then 1 else 0)

unfoldable pub expect_len : Bytes → ℕ
unfolding padding
expect_len input = length input / 4 * 3 - padding input

-- How a call ends: it answers `true`, or `false`, with what it has written.
pub data Decoded : Type 0 where
  accepted refused : Bytes → Decoded

unfoldable pub table_entry : ℕ → Option ℕ
table_entry ch = get_or decode_table ch none

-- A `char` of 128 and more is a negative index, and what stands before `DecodeTable` is not of the source:
-- `before` gives what is read there with so much of the input left, which may be anything.
module _ (before : ℕ → ℕ → Option ℕ) where
  unfoldable pub decode_letter : (in_len ch : ℕ) → Option ℕ
  unfolding table_entry
  decode_letter in_len ch = if leb 128 ch then before in_len ch else table_entry ch

  -- The loop, with what is left of the input, `i`, `bin` and what has been written.
  unfoldable pub decode_loop : (expect_len : ℕ) → Bytes → (i bin : ℕ) → Bytes → Decoded
  unfolding decode_letter
  decode_loop expect_len [] i bin out =
      if length out == expect_len then accepted out else refused out
  decode_loop expect_len (ch ∷ rest) i bin out =
      let in_len = length rest in
      let stays = decode_loop expect_len rest i bin out in
      let padded =
        if not (in_len == 0) && not (in_len == 1)
        then refused out
        else if ltb 0 in_len && (not (get_or rest 0 0 == padding_byte) && (i % 4 == 1))
        then refused out
        else stays in
      let first = λ (n : ℕ). decode_loop expect_len rest (i + 1) (n * 4) out in
      let second = λ (n : ℕ).
        decode_loop expect_len rest (i + 1) (n % 16 * 16) (out ++ bit_or bin (n / 16) % 256 ∷ []) in
      let third = λ (n : ℕ).
        decode_loop expect_len rest (i + 1) (n % 4 * 64) (out ++ bit_or bin (n / 4) % 256 ∷ []) in
      let fourth = λ (n : ℕ).
        decode_loop expect_len rest (i + 1) (bit_or bin n) (out ++ bit_or bin n % 256 ∷ []) in
      if ch == padding_byte then padded else elim (decode_letter in_len ch) [
        | none ↦ refused out
        | some n ↦
            if i % 4 == 0
            then first n
            else if i % 4 == 1
            then second n
            else if i % 4 == 2
            then third n
            else fourth n
      ]

  -- `out_len` is the room at `output_data`.
  unfoldable pub base64_decode : Bytes → (out_len : ℕ) → Decoded
  unfolding expect_len decode_loop
  base64_decode input out_len =
      if length input == 0
      then refused []
      else if not (length input % 4 == 0)
      then refused []
      else if ltb out_len (expect_len input)
      then refused []
      else decode_loop (expect_len input) input 0 0 []
