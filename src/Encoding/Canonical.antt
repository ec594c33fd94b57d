-- ===== src/Encoding/Canonical.antt =====
-- encoding/canonical-bytes.ts, and the bound of encoding/size-bounds.ts on a signed entry.
use record_node.Prelude.{ℕ, ◌*◌, Bytes, text_eq, leb, length}
use record_node.Value.{Value}
use record_node.Result.{
  Result, ok, malformed_encoding, non_canonical_encoding, size_exceeded, ◌>>=◌, ◌>>◌, require,
  required,
}
use record_node.Host.{Host}

abbrev pub signed_entry_max_bytes : ℕ
signed_entry_max_bytes = 256 * 1024

unfoldable pub assert_signed_entry_size : Bytes → Result (Unit {0})
assert_signed_entry_size bytes = require (leb (length bytes) signed_entry_max_bytes) size_exceeded

-- The value of bytes that are the encoding of what they decode to.
unfoldable pub decode_canonical : Host → Bytes → Result Value
decode_canonical host bytes = do
  value ← required (host.decode bytes) malformed_encoding
  require (text_eq (host.encode value) bytes) non_canonical_encoding
  ok value
