-- ===== src/Encoding/LibraryAddress.antt =====
-- encoding/library-address.ts: the library address and its parts, and the names of libraries.
pub mod RoundTrip
use record_node.Prelude.{
  ℕ, Text, lit, text_eq, Bool, true, false, ◌&&◌, ◌||◌, not, Option, none, some, List, [], ◌∷◌,
  ◌++◌, ◌==◌, any, every, leb, length, drop, take, is_some, if◌then◌else◌,
}
use record_node.Value.{Value, text, as_text}
use record_node.Result.{
  Result, ok, err, ErrorCode, invalid_library_address, invalid_library_name, ◌>>=◌, ◌>>◌, require,
  required, is_ok,
}
use record_node.Host.{Host}
use record_node.Encoding.Cid.{is_cid_string}

abbrev pub address_prefix : Text
address_prefix = lit "/record/"

abbrev pub is_name_char : ℕ → Bool
is_name_char c =
    leb b'0' c && leb c b'9' || leb b'a' c && leb c b'z' || leb b'A' c && leb c b'Z' || c == b'-'

-- `/^[0-9a-zA-Z-]*$/`.
unfoldable pub validate_library_name : Text → Result Text
validate_library_name name = require (every is_name_char name) invalid_library_name >> ok name

abbrev pub discriminator_max_length : ℕ
discriminator_max_length = 64

unfoldable pub validate_discriminator : Text → Result Text
validate_discriminator name = do
  checked ← validate_library_name name
  require (leb 1 (length name) && leb (length name) discriminator_max_length) invalid_library_name
  ok name

unfoldable pub build_library_address : (manifest_cid name : Text) → Text
build_library_address manifest_cid name = address_prefix ++ (manifest_cid ++ (b'/' ∷ name))

-- What a prefix leaves of a text that starts with it.
unfoldable pub after_prefix : (prefix : Text) → Text → Option Text
after_prefix [] t = some t
after_prefix (p ∷ ps) [] = none
after_prefix (p ∷ ps) (c ∷ cs) = let rest = after_prefix ps cs in if p == c then rest else none

abbrev pub cons_left : ℕ → Option (Text × Text) → Option (Text × Text)
cons_left c none = none
cons_left c (some (a, b)) = some (c ∷ a, b)

-- The texts before and after the first separator.
unfoldable pub at_separator : Text → Option (Text × Text)
at_separator [] = none
at_separator (c ∷ cs) =
    let rest = at_separator cs in if c == b'/' then some ([], cs) else cons_left c rest

-- `text.includes('/')`.
abbrev pub has_separator : Text → Bool
has_separator t = any (λ c. c == b'/') t

unfoldable pub split_address : Text → Result (Text × Text)
split_address address = do
  rest ← required (after_prefix address_prefix address) invalid_library_address
  required (at_separator rest) invalid_library_address

unfoldable pub check_parts : Host → Text × Text → Result (Text × Text)
check_parts host (manifest_cid, name) = do
  require (is_cid_string host (some (text manifest_cid))) invalid_library_address
  require (not (has_separator name)) invalid_library_address
  ok (manifest_cid, name)

unfoldable pub parse_library_address : Host → Text → Result (Text × Text)
parse_library_address host address = do parts ← split_address address; check_parts host parts

address_test : Host → Option Text → Bool
address_test host none = false
address_test host (some t) = is_ok (parse_library_address host t)

unfoldable pub is_library_address : Host → Option Value → Bool
unfolding address_test
is_library_address host v = address_test host (as_text v)
