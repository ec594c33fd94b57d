-- ===== src/Prelude/Unicode.antt =====
-- Strings as `Array.from`, `TextEncoder` and `String.prototype.split` see them.
use record_node.Prelude.Tests.{ltb, leb, ◌==◌, if◌then◌else◌}
use record_node.Prelude.Texts.{Text, Bytes}
use Prim.Native.Nat.{ℕ, ◌+◌, ◌-◌, ◌*◌, ◌/◌, ◌%◌}
use mathlib.Core.Bool.{Bool, true, false, ◌&&◌, ◌||◌}
use mathlib.Core.Option.{Option, none, some}
use mathlib.Core.List.{List, [], ◌∷◌, ◌++◌}

is_high : ℕ → Bool
is_high u = leb 0xD800 u && leb u 0xDBFF

is_low : ℕ → Bool
is_low u = leb 0xDC00 u && leb u 0xDFFF

-- The code points, with a high surrogate that waits for its low one; a lone surrogate stands for itself.
points_from : Option ℕ → Text → List ℕ
unfolding is_high is_low
points_from none [] = []
points_from (some h) [] = h ∷ []
points_from none (u ∷ rest) =
    let waiting = points_from (some u) rest in
    let alone = points_from none rest in if is_high u then waiting else u ∷ alone
points_from (some h) (u ∷ rest) =
    let waiting = points_from (some u) rest in
    let alone = points_from none rest in
    if is_low u
    then (0x10000 + (h - 0xD800) * 0x400 + (u - 0xDC00)) ∷ alone
    else if is_high u
    then h ∷ waiting
    else h ∷ u ∷ alone

unfoldable pub code_points : Text → List ℕ
unfolding points_from
code_points t = points_from none t

-- UTF-8, where a lone surrogate is written as U+FFFD.
unfoldable pub utf8_point : ℕ → Bytes
utf8_point p =
    if ltb p 0x80
    then p ∷ []
    else if ltb p 0x800
    then (0xC0 + p / 64) ∷ (0x80 + p % 64) ∷ []
    else if leb 0xD800 p && leb p 0xDFFF
    then 0xEF ∷ 0xBF ∷ 0xBD ∷ []
    else if ltb p 0x10000
    then (0xE0 + p / 4096) ∷ (0x80 + p / 64 % 64) ∷ (0x80 + p % 64) ∷ []
    else (0xF0 + p / 262144) ∷ (0x80 + p / 4096 % 64) ∷ (0x80 + p / 64 % 64) ∷ (0x80 + p % 64) ∷ []

utf8_points : List ℕ → Bytes
unfolding utf8_point
utf8_points [] = []
utf8_points (p ∷ ps) = utf8_point p ++ utf8_points ps

unfoldable pub utf8 : Text → Bytes
unfolding code_points utf8_points
utf8 t = utf8_points (code_points t)

-- `text.split(separator)` at one code unit; the first piece is never missing.
unfoldable pub split_at : ℕ → Text → Text × List Text
split_at sep [] = ([], [])
split_at sep (u ∷ rest) =
    let (piece, pieces) = split_at sep rest in
    if u == sep then ([], piece ∷ pieces) else (u ∷ piece, pieces)

-- Code points, prefix against whole.
unfoldable pub is_prefix : List ℕ → List ℕ → Bool
is_prefix [] s = true
is_prefix (p ∷ ps) [] = false
is_prefix (p ∷ ps) (s ∷ ss) = p == s && is_prefix ps ss

-- Lowercase hexadecimal digits.
abbrev pub is_hex_digit : ℕ → Bool
is_hex_digit u = leb b'0' u && leb u b'9' || leb b'a' u && leb u b'f'
