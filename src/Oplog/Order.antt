-- ===== src/Oplog/Order.antt =====
-- oplog/current-state.ts, and `least_entry` of oplog/identity-library.ts: the order of the entries of
-- one state key, greatest first, and the entry that resolves it.
pub mod Total
pub mod Resolve
pub mod Least
use Prim.Native.Nat.{compare, Ordering}
use record_node.Prelude.{
  ℕ, Text, Bytes, lit, Bool, true, false, Option, none, some, List, [], ◌∷◌, if◌then◌else◌,
}
use record_node.Value.{Value, Fields, get_field, as_record, as_uint}
use record_node.Entry.{HashedEntry, VerifiedEntry}

-- The sign of the difference that `compare_bytes` returns.
unfoldable pub compare_bytes : Bytes → Bytes → Ordering
compare_bytes [] [] = Ordering.eq
compare_bytes [] (_ ∷ _) = Ordering.lt
compare_bytes (_ ∷ _) [] = Ordering.gt
compare_bytes (a ∷ s) (b ∷ t) = elim (compare a b) [
  | Ordering.lt ↦ Ordering.lt
  | Ordering.gt ↦ Ordering.gt
  | Ordering.eq ↦ compare_bytes s t
]

abbrev timestamp_in : Option Value → ℕ
timestamp_in none = 0
timestamp_in (some value) = elim (as_record value) [
  | none ↦ 0
  | some fs ↦ elim (as_uint (get_field (lit "timestamp") fs)) [ none ↦ 0 | some t ↦ t ]
]

-- Verification has made the timestamp of every entry that is compared an unsigned integer.
unfoldable pub envelope_timestamp : HashedEntry → ℕ
envelope_timestamp e = elim (as_record e.entry.payload) [
  | none ↦ 0
  | some fs ↦ timestamp_in (get_field (lit "value") fs)
]

-- `x || y` on signs.
abbrev pub or_else : Ordering → Ordering → Ordering
or_else Ordering.lt y = Ordering.lt
or_else Ordering.gt y = Ordering.gt
or_else Ordering.eq y = y

-- The sign: negative where `a` comes before `b`, later clocks and later timestamps first.
unfoldable pub compare_current_state : HashedEntry → HashedEntry → Ordering
compare_current_state a b = or_else (compare b.entry.clock.time a.entry.clock.time) (
    or_else (compare (envelope_timestamp b) (envelope_timestamp a))
      (compare_bytes a.multihash b.multihash))

abbrev pub is_lt : Ordering → Bool
is_lt Ordering.lt = true
is_lt _ = false

abbrev pub is_gt : Ordering → Bool
is_gt Ordering.gt = true
is_gt _ = false

-- One turn of the loop of `resolve_current_state`.
unfoldable pub better : Option VerifiedEntry → VerifiedEntry → Option VerifiedEntry
better none e = some e
better (some current) e =
    if is_lt (compare_current_state e.hashed current.hashed) then some e else some current

unfoldable pub resolve_from : Option VerifiedEntry → List VerifiedEntry → Option VerifiedEntry
resolve_from current [] = current
resolve_from current (e ∷ es) = resolve_from (better current e) es

unfoldable pub resolve_current_state : List VerifiedEntry → Option VerifiedEntry
unfolding resolve_from better
resolve_current_state es = resolve_from none es

unfoldable pub lesser : Option VerifiedEntry → VerifiedEntry → Option VerifiedEntry
lesser none e = some e
lesser (some least) e =
    if is_gt (compare_current_state e.hashed least.hashed) then some e else some least

unfoldable pub least_from : Option VerifiedEntry → List VerifiedEntry → Option VerifiedEntry
least_from least [] = least
least_from least (e ∷ es) = least_from (lesser least e) es

unfoldable pub least_entry : List VerifiedEntry → Option VerifiedEntry
unfolding least_from lesser
least_entry es = least_from none es
