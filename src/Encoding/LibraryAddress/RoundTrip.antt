-- ===== src/Encoding/LibraryAddress/RoundTrip.antt =====
-- encoding/library-address.ts: building and parsing an address undo each other.
use record_node.Prelude.{
  Text, true, false, some, [], ◌∷◌, ◌++◌, ◌≡◌, inl, inr, Option-cases, refl, arith,
}
use record_node.Value.{text}
use record_node.Result.{ok}
use record_node.Host.{Host}
use record_node.Encoding.Cid.{is_cid_string}
use record_node.Encoding.LibraryAddress.{
  build_library_address, after_prefix, at_separator, has_separator, address_prefix, split_address,
  check_parts, parse_library_address,
}

after_prefix-append : (p t : Text) → after_prefix p (p ++ t) ≡ some t
unfolding after_prefix
after_prefix-append [] t = refl
after_prefix-append (c ∷ p) t = ground (arith, after_prefix-append p t)

append-after_prefix : (p t r : Text) → after_prefix p t ≡ some r → t ≡ p ++ r
unfolding after_prefix
append-after_prefix [] t r h = ground arith
append-after_prefix (c ∷ p) [] r h = ground arith
append-after_prefix (c ∷ p) (d ∷ t) r h = ground (arith, append-after_prefix p t r)

at_separator-append :
    (a b : Text) → has_separator a ≡ false → at_separator (a ++ (b'/' ∷ b)) ≡ some (a, b)
unfolding at_separator
at_separator-append [] b h = refl
at_separator-append (c ∷ a) b h = ground (arith, at_separator-append a b)

at_separator-some : (t a b : Text) → at_separator t ≡ some (a, b) → t ≡ a ++ (b'/' ∷ b)
unfolding at_separator
at_separator-some [] a b h = ground arith
at_separator-some (c ∷ t) a b h = elim (Option-cases (at_separator t)) [
  | inl e ↦ ground arith
  | inr ((x, y), e) ↦ ground (arith, at_separator-some t x y e)
]

-- What a parsed address is made of: a CID, and a name with no separator.
pub IsParts : Host → Text → Text → Type 0
IsParts host manifest_cid name =
    (is_cid_string host (some (text manifest_cid)) ≡ true) × (has_separator name ≡ false)

-- An address built from a CID string without a separator and a name without one parses to them.
pub parse-build :
    (host : Host) (manifest_cid name : Text)
    → is_cid_string host (some (text manifest_cid)) ≡ true
    → has_separator manifest_cid ≡ false
    → has_separator name ≡ false
    → parse_library_address host (build_library_address manifest_cid name) ≡ ok (manifest_cid, name)
unfolding parse_library_address build_library_address split_address check_parts
parse-build host manifest_cid name hc hm hn =
    rw (after_prefix-append address_prefix (manifest_cid ++ (b'/' ∷ name)))
      (rw (at_separator-append manifest_cid name hm) (rw hc (rw hn refl)))

-- An address that parses is the one built from its parts, which are a CID string and a name without a
-- separator: no two addresses share their parts.
pub build-parse :
    (host : Host) (address manifest_cid name : Text)
    → parse_library_address host address ≡ ok (manifest_cid, name)
    → (address ≡ build_library_address manifest_cid name) × IsParts host manifest_cid name
unfolding parse_library_address build_library_address split_address check_parts IsParts
build-parse host address manifest_cid name h =
    elim (Option-cases (after_prefix address_prefix address)) [
      | inl e ↦ ground (arith, h)
      | inr (rest, e) ↦ elim (Option-cases (at_separator rest)) [
        | inl d ↦ ground arith
        | inr ((a, b), d) ↦
            ground (
              arith,
              append-after_prefix address_prefix address rest e,
              at_separator-some rest a b d,
            )
      ]
    ]
