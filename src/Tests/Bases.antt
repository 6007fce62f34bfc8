-- ===== src/Tests/Bases.antt =====
-- Base64 and the flat array on small inputs, and the theorems at these inputs.
use yscript.Prelude.{ℕ, ◌*◌, ◌≡◌, refl, [], ◌∷◌, Bool, false, Option, none, some, arith, ltb}
use yscript.Prelude.Bytes.{codes}
use yscript.Base64.{accepted, refused, base64_encode, base64_decode, expect_len}
use yscript.Base64.RoundTrip.{base64_decode-base64_encode}
use yscript.Base64.Bounds.{Within, base64_decode-Within}
use yscript.FlatArray.{FlatArray, create_filled, copy, assign, resize, at, store}
use yscript.FlatArray.Cells.{IsValid, resized_at, at-resize}

-- What stands before the table of the decoder: negative numbers, or zeros.
abbrev unread : ℕ → ℕ → Option ℕ
unread in_len ch = none

abbrev zeros : ℕ → ℕ → Option ℕ
zeros in_len ch = some 0

man_encoded : base64_encode (codes "Man, ") ≡ codes "TWFuLCA="
unfolding base64_encode
man_encoded = refl

man_decoded : base64_decode unread (codes "TWFuLCA=") 5 ≡ accepted (codes "Man, ")
unfolding base64_decode
man_decoded = refl

-- A padding before the last letter is taken.
padded_inside : base64_decode unread (codes "AA=A") 2 ≡ accepted (0 ∷ 0 ∷ [])
unfolding base64_decode
padded_inside = refl

empty_refused : base64_decode unread (base64_encode []) 8 ≡ refused []
unfolding base64_decode base64_encode
empty_refused = refl

negative_char : base64_decode zeros (195 ∷ 164 ∷ 195 ∷ 164 ∷ []) 8 ≡ accepted (0 ∷ 0 ∷ 0 ∷ [])
unfolding base64_decode
negative_char = refl

base64_decode-base64_encode_example :
    base64_decode unread (base64_encode (0 ∷ 255 ∷ 16 ∷ 128 ∷ [])) 4
    ≡ accepted (0 ∷ 255 ∷ 16 ∷ 128 ∷ [])
base64_decode-base64_encode_example =
    base64_decode-base64_encode unread (0 ∷ 255 ∷ 16 ∷ 128 ∷ []) 4 (omega arith) (omega arith)
      (omega arith)

-- A byte of 195 in the text, with letters of the table before it.
base64_decode-Within_example :
    Within 3
      (expect_len (b'A' ∷ b'A' ∷ 195 ∷ b'A' ∷ []))
      (base64_decode zeros (b'A' ∷ b'A' ∷ 195 ∷ b'A' ∷ []) 3)
base64_decode-Within_example = base64_decode-Within zeros (b'A' ∷ b'A' ∷ 195 ∷ b'A' ∷ []) 3

abbrev two_bytes : ℕ → ℕ
two_bytes b = b * 257

abbrev up_to_four : ℕ → Bool
up_to_four n = ltb n 5

abbrev pair : FlatArray ℕ
pair = record { contents = some (7 ∷ 8 ∷ []); size = 2; end = 9 }

filled_runs :
    create_filled two_bytes 0 up_to_four 2 513
    ≡ record { contents = some (257 ∷ 257 ∷ []); size = 2; end = 0 }
unfolding create_filled
filled_runs = refl

assign_runs :
    assign two_bytes 0 up_to_four false (copy two_bytes 0 up_to_four pair) (store pair 5 4)
    ≡ record { contents = some (7 ∷ 8 ∷ []); size = 2; end = 0 }
unfolding assign copy store
assign_runs = refl

at-resize_example :
    IsValid (resize two_bytes 0 up_to_four 3 pair)
    × (at (resize two_bytes 0 up_to_four 3 pair) 2 ≡ resized_at two_bytes 0 up_to_four 3 pair 2)
at-resize_example = at-resize two_bytes 0 up_to_four pair 3 2 refl
