-- ===== src/Encoding/Base58.antt =====
-- encoding/base58.ts, the decoder: three digits a step onto little-endian bytes. A multiplier is at
-- most 58^3 and a carry below 2^26, so the shifts and masks of the source never wrap, and its buffer,
-- 0.733 bytes a digit and one more, is never full.
pub mod Encoder
use record_node.Prelude.{
  ℕ, zero, suc, ◌+◌, ◌-◌, ◌*◌, ◌/◌, ◌%◌, ◌^◌, Text, Bytes, lit, Bool, true, false, Option, none,
  some, List, [], ◌∷◌, ◌++◌, ◌==◌, if◌then◌else◌, length, take, drop,
}
use mathlib.Core.List.{reverse}

abbrev pub alphabet : Text
alphabet = lit "123456789ABCDEFGHJKLMNPQRSTUVWXYZabcdefghijkmnopqrstuvwxyz"

-- `DIGIT_OF`: the place of a character in the alphabet.
index_from : ℕ → Text → ℕ → Option ℕ
index_from i [] c = none
index_from i (a ∷ rest) c =
    let later = index_from (i + 1) rest c in if a == c then some i else later

unfoldable pub digit_of : ℕ → Option ℕ
unfolding index_from
digit_of c = index_from 0 alphabet c

-- The leading `1`s, one zero byte each, and what follows them.
unfoldable pub split_zeros : Text → ℕ × Text
split_zeros [] = (0, [])
split_zeros (c ∷ rest) =
    let (zeros, text) = split_zeros rest in if c == b'1' then (zeros + 1, text) else (0, c ∷ rest)

-- `while (carry > 0)`: the bytes of the carry, on fuel.
unfoldable pub spill : ℕ → ℕ → Bytes
spill zero carry = []
spill (suc fuel) carry =
    let rest = spill fuel (carry / 256) in if carry == 0 then [] else (carry % 256) ∷ rest

-- One step: the little-endian number times the multiplier, plus the chunk.
unfoldable pub multiply_add : ℕ → ℕ → Bytes → Bytes
unfolding spill
multiply_add multiplier carry [] = spill carry carry
multiply_add multiplier carry (b ∷ bs) =
    let accumulated = b * multiplier + carry in
    (accumulated % 256) ∷ multiply_add multiplier (accumulated / 256) bs

abbrev digit_onto : Option ℕ → ℕ → Option ℕ
digit_onto none value = none
digit_onto (some d) value = some (value * 58 + d)

-- The inner loop over the digits of one chunk.
unfoldable pub chunk_value : ℕ → Text → Option ℕ
unfolding digit_of
chunk_value value [] = some value
chunk_value value (c ∷ rest) = elim (digit_onto (digit_of c) value) [
  | none ↦ none
  | some v ↦ chunk_value v rest
]

-- The outer loop, with the width of the next chunk: the first takes what is left over by threes.
unfoldable pub decode_chunks : ℕ → ℕ → Text → Bytes → Option Bytes
unfolding chunk_value multiply_add
decode_chunks zero width text number = some number
decode_chunks (suc fuel) width [] number = some number
decode_chunks (suc fuel) width (c ∷ rest) number =
    let text = c ∷ rest in
    elim (chunk_value 0 (take width text)) [
      | none ↦ none
      | some value ↦ decode_chunks fuel 3 (drop width text) (multiply_add (58 ^ width) value number)
    ]

abbrev pub first_width : Text → ℕ
first_width text = if length text % 3 == 0 then 3 else length text % 3

unfoldable pub zero_bytes : ℕ → Bytes
zero_bytes zero = []
zero_bytes (suc n) = 0 ∷ zero_bytes n

unfoldable pub decode_base58btc : Text → Option Bytes
unfolding decode_chunks split_zeros zero_bytes
decode_base58btc text =
    let (zeros, rest) = split_zeros text in
    elim (decode_chunks (length rest) (first_width rest) rest []) [
      | none ↦ none
      | some number ↦ some (zero_bytes zeros ++ reverse number)
    ]
