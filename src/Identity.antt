-- ===== src/Identity.antt =====
-- identity/key-pair.ts, the canonical form of a public key; encoding/sha256.ts, and hexadecimal text.
use record_node.Prelude.{
  ℕ, ◌+◌, ◌-◌, ◌/◌, ◌%◌, Text, Bytes, Bool, false, ◌&&◌, ◌||◌, Option, none, some, [], ◌∷◌, ◌==◌,
  ltb, length, every, is_hex_digit, if◌then◌else◌, utf8,
}
use record_node.Value.{Value, as_text}
use record_node.Host.{Host}

-- `/^0[23][0-9a-f]{64}$/`.
unfoldable pub is_pubkey_text : Text → Bool
is_pubkey_text (a ∷ b ∷ rest) =
    a == b'0' && (b == b'2' || b == b'3') && length rest == 64 && every is_hex_digit rest
is_pubkey_text _ = false

abbrev pubkey_test : Option Text → Bool
pubkey_test none = false
pubkey_test (some t) = is_pubkey_text t

unfoldable pub is_compressed_pubkey : Option Value → Bool
unfolding is_pubkey_text
is_compressed_pubkey v = pubkey_test (as_text v)

-- `/^[0-9a-f]{64}$/`, the pattern of track ids and envelope ids.
unfoldable pub is_track_id : Text → Bool
is_track_id t = length t == 64 && every is_hex_digit t

hex_digit : ℕ → ℕ
hex_digit n = if ltb n 10 then b'0' + n else b'a' + (n - 10)

-- `bytesToHex`: two lowercase digits a byte.
unfoldable pub hex : Bytes → Text
unfolding hex_digit
hex [] = []
hex (b ∷ bs) = hex_digit (b / 16) ∷ hex_digit (b % 16) ∷ hex bs

unfoldable pub sha256_hex : Host → Text → Text
sha256_hex host t = hex (host.sha256 (utf8 t))
