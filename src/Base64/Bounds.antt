-- ===== src/Base64/Bounds.antt =====
-- What src/base/crypto/crypto.cpp writes to the buffer of base64Decode.
use Prim.Native.Nat.{bit_or}
use yscript.Prelude.{
  ℕ, suc, ◌+◌, ◌-◌, ◌*◌, ◌/◌, ◌%◌, ◌≤◌, ◌≡◌, refl, [], ◌∷◌, ◌++◌, not, ◌&&◌, ltb, Option, none,
  some, arith, ◌==◌, if◌then◌else◌, if_elim, length, length-append, get_or,
}
use yscript.Prelude.Bytes.{Bytes}
use yscript.Base64.{
  padding_byte, Decoded, accepted, refused, decode_letter, decode_loop, padding, expect_len,
  base64_decode,
}

-- At most `room` bytes have been written, and exactly `n` of them if the text is accepted.
pub data Within (room n : ℕ) : Decoded → Type 0 where
  all_written : {out : Bytes} → length out ≡ n → n ≤ room → Within room n (accepted out)
  some_written : {out : Bytes} → length out ≤ room → Within room n (refused out)

abbrev letters : Bytes → ℕ
letters [] = 0
letters (ch ∷ rest) = if ch == padding_byte then letters rest else suc (letters rest)

module _ (before : ℕ → ℕ → Option ℕ) (room expect : ℕ) (fits : expect ≤ room) where
  Within-option :
      (o : Option ℕ) (out : Bytes) (f : ℕ → Decoded)
      → Within room expect (refused out)
      → ((n : ℕ) → Within room expect (f n))
      → Within room expect (elim o [ none ↦ refused out | some n ↦ f n ])
  Within-option none out f r g = r
  Within-option (some n) out f r g = g n

  -- `i` letters give `i * 3 / 4` bytes.
  decode_loop-Within :
      (rest : Bytes) (i bin : ℕ) (out : Bytes)
      → length out ≡ i * 3 / 4
      → (i + letters rest) * 3 / 4 ≤ expect
      → Within room expect (decode_loop before expect rest i bin out)
  unfolding decode_loop
  decode_loop-Within [] i bin out size few =
      if_elim (Within room expect) (length out == expect) (λ e. all_written (ground arith) fits)
        (λ _. some_written (omega arith))
  decode_loop-Within (ch ∷ rest) i bin out size few =
      let so_far : Within room expect (refused out) = some_written (omega arith) in
      if_elim (Within room expect) (ch == padding_byte)
        (λ pad.
          let same : letters (ch ∷ rest) ≡ letters rest = rw pad refl in
          if_elim (Within room expect) (not (length rest == 0) && not (length rest == 1))
            (λ _. so_far)
            λ _.
              if_elim (Within room expect)
                (ltb 0 (length rest) && (not (get_or rest 0 0 == padding_byte) && (i % 4 == 1)))
                (λ _. so_far) λ _. decode_loop-Within rest i bin out size (omega (arith, same)))
        (λ digit.
          let more : letters (ch ∷ rest) ≡ suc (letters rest) = rw digit refl in
          Within-option (decode_letter before (length rest) ch) out _ so_far λ n.
            if_elim (Within room expect) (i % 4 == 0)
              (λ e.
                decode_loop-Within rest (i + 1) (n * 4) out (ground arith) (omega (arith, more)))
              λ e₀.
                if_elim (Within room expect) (i % 4 == 1)
                  (λ e.
                    decode_loop-Within rest (i + 1) (n % 16 * 16)
                      (out ++ bit_or bin (n / 16) % 256 ∷ [])
                      (ground (arith, length-append out (bit_or bin (n / 16) % 256 ∷ [])))
                      (omega (arith, more)))
                  λ e₁.
                    if_elim (Within room expect) (i % 4 == 2)
                      (λ e.
                        decode_loop-Within rest (i + 1) (n % 4 * 64)
                          (out ++ bit_or bin (n / 4) % 256 ∷ [])
                          (ground (arith, length-append out (bit_or bin (n / 4) % 256 ∷ [])))
                          (omega (arith, more)))
                      λ e₂.
                        decode_loop-Within rest (i + 1) (bit_or bin n)
                          (out ++ bit_or bin n % 256 ∷ [])
                          (ground (arith, length-append out (bit_or bin n % 256 ∷ [])))
                          (omega (arith, more)))

get_or-last :
    (xs : Bytes) (x y : ℕ) (k : ℕ)
    → k ≤ length xs
    → get_or (x ∷ y ∷ xs) (length (x ∷ y ∷ xs) - k) 0 ≡ get_or (y ∷ xs) (length (y ∷ xs) - k) 0
get_or-last xs x y k h =
    let e : suc (suc (length xs)) - k ≡ suc (suc (length xs) - k) = omega arith in rw e

-- The paddings that are counted at the end are no letters.
letters-padding :
    (x y : ℕ) (xs : Bytes) → letters (x ∷ y ∷ xs) + padding (x ∷ y ∷ xs) ≤ length (x ∷ y ∷ xs)
unfolding padding
letters-padding x y [] = ground arith
letters-padding x y (z ∷ xs) =
    let last = get_or-last (z ∷ xs) x y 1 (omega arith) in ground (arith, letters-padding y z xs)

-- With room for `out_len` bytes, and whatever is read before the table for a byte of 128 and more, base64Decode writes
-- no more than `out_len` bytes, whether it takes the text or not; a text that it takes gives exactly the
-- number of bytes that its length and its padding promise.
pub base64_decode-Within :
    (before : ℕ → ℕ → Option ℕ) (input : Bytes) (out_len : ℕ)
    → Within out_len (expect_len input) (base64_decode before input out_len)
unfolding base64_decode
base64_decode-Within before [] out_len = some_written (omega arith)
base64_decode-Within before (x ∷ []) out_len = some_written (omega arith)
base64_decode-Within before (x ∷ y ∷ xs) out_len =
    let input = x ∷ y ∷ xs in
    if_elim (Within out_len (expect_len input)) (length input == 0)
      (λ _. some_written (omega arith))
      λ _.
        if_elim (Within out_len (expect_len input)) (not (length input % 4 == 0))
          (λ _. some_written (omega arith))
          λ whole.
            if_elim (Within out_len (expect_len input)) (ltb out_len (expect_len input))
              (λ _. some_written (omega arith))
              λ fits.
                decode_loop-Within before out_len (expect_len input) (ground arith) input 0 0 []
                  refl (ground (arith, letters-padding x y xs))
