-- ===== src/Encoding/Base58/Encoder.antt =====
-- encoding/base58.ts, the encoder: long division by 58^3, three digits a round.
use mathlib.Core.List.{reverse}
use record_node.Prelude.{
  ℕ, zero, suc, ◌+◌, ◌*◌, ◌/◌, ◌%◌, ◌^◌, Text, Bytes, [], ◌∷◌, ◌++◌, ◌==◌, if◌then◌else◌, length,
}
use record_node.Encoding.Base58.{alphabet}

-- The number of leading zero bytes, and the bytes after them.
unfoldable pub strip_zeros : Bytes → ℕ × Bytes
strip_zeros [] = (0, [])
strip_zeros (b ∷ bs) =
    let (zeros, number) = strip_zeros bs in if b == 0 then (zeros + 1, number) else (0, b ∷ bs)

-- `ALPHABET[digit]`; a digit is below 58.
digit_at : Text → ℕ → ℕ
digit_at [] n = 0
digit_at (c ∷ cs) zero = c
digit_at (c ∷ cs) (suc n) = digit_at cs n

unfoldable pub digit_char : ℕ → ℕ
unfolding digit_at
digit_char d = digit_at alphabet d

-- The inner loop: the quotient of a big-endian number by 58^3, and the remainder.
unfoldable pub divide : ℕ → Bytes → Bytes × ℕ
divide remainder [] = ([], remainder)
divide remainder (b ∷ bs) =
    let accumulated = remainder * 256 + b in
    let (rest, last) = divide (accumulated % 58 ^ 3) bs in (accumulated / 58 ^ 3 ∷ rest, last)

-- The outer loop, least significant digit first. Each round makes the number shorter, so its length
-- is fuel enough.
unfoldable pub encode_digits : ℕ → Bytes → Text
unfolding divide strip_zeros digit_char
encode_digits zero number = []
encode_digits (suc fuel) [] = []
encode_digits (suc fuel) (b ∷ bs) =
    let (quotient, r) = divide 0 (b ∷ bs) in
    let (_, number) = strip_zeros quotient in
    digit_char (r % 58)
    ∷ digit_char (r / 58 % 58)
    ∷ digit_char (r / 3364)
    ∷ encode_digits fuel number

-- The digits most significant first, without the padding of the last chunk.
unfoldable pub drop_ones : Text → Text
drop_ones [] = []
drop_ones (c ∷ cs) = let rest = drop_ones cs in if c == b'1' then rest else c ∷ cs

unfoldable pub ones : ℕ → Text
ones zero = []
ones (suc n) = b'1' ∷ ones n

unfoldable pub encode_base58btc : Bytes → Text
unfolding encode_digits strip_zeros drop_ones ones
encode_base58btc bytes =
    let (zeros, number) = strip_zeros bytes in
    ones zeros ++ drop_ones (reverse (encode_digits (length number) number))
