-- ===== src/Oplog/Append.antt =====
-- oplog/dag.ts: signing a local operation against the heads, and appending it; oplog/duplicate-key.ts.
use record_node.Prelude.{
  ℕ, suc, max, Text, Bytes, lit, text_eq, text_lt, Bool, true, false, ◌&&◌, ◌||◌, not, Option, none,
  some, List, [], ◌∷◌, ◌==◌, any, if◌then◌else◌, ltb, length, take, drop, sort_by,
}
use record_node.Dict
use record_node.TextSet
use record_node.Value.{Value, Fields, get_field, as_text, as_record}
use record_node.Entry.{
  LibraryType, recordstore, Envelope, EntryPayload, track_put, VerifiedEntry, time_of,
}
use record_node.Result.{Result, ok, duplicate_entry, ◌>>=◌, require}
use record_node.Host.{Host}
use record_node.Entry.Signed.{build_unsigned_entry, hash_signed_entry, sign_entry}
use record_node.Entry.Operations.{validate_operation}
use record_node.Oplog.{Oplog, insert_entry, get_live_entry, refresh_current_state}
use record_node.Oplog.Causal.{in_causal_past}
use record_node.Oplog.Accept.{verify_entry}
use record_node.Oplog.Refresh.{AccessChange, refresh_access_state}

pub record KeyPair : Type 0 where
  pub private_key : Bytes
  pub public_key : Text

abbrev track_of : EntryPayload → Option Envelope
track_of (track_put _ envelope _) = some envelope
track_of _ = none

abbrev operation_of : Option VerifiedEntry → Option Envelope
operation_of none = none
operation_of (some e) = track_of e.operation

-- Whether the two envelopes have one duplicate key under an address: the same id and content.
abbrev same_duplicate_key : Envelope → Envelope → Bool
same_duplicate_key a b = text_eq a.id b.id && text_eq a.content b.content

abbrev pub is_duplicate_of : Envelope → Option Envelope → Bool
is_duplicate_of envelope none = false
is_duplicate_of envelope (some live) = same_duplicate_key live envelope

-- Whether an operation is a track PUT that duplicates the live entry of its key.
unfoldable pub is_duplicate : Oplog → EntryPayload → Bool
is_duplicate oplog (track_put key envelope _) =
    is_duplicate_of envelope (operation_of (get_live_entry oplog key))
is_duplicate oplog _ = false

abbrev is_recordstore : LibraryType → Bool
is_recordstore recordstore = true
is_recordstore _ = false

unfoldable pub assert_not_duplicate : Host → Oplog → Value → Result (Unit {0})
unfolding is_duplicate
assert_not_duplicate host oplog payload =
    let checked = (do
      operation ← validate_operation host payload oplog.chain.type false
      require (not (is_duplicate oplog operation)) duplicate_entry) in
    if is_recordstore oplog.chain.type then checked else ok tt

abbrev pub clock_at : Option VerifiedEntry → ℕ
clock_at none = 0
clock_at (some e) = time_of e

unfoldable pub clock_of : Oplog → Text → ℕ
clock_of oplog hash = clock_at (Dict.get hash oplog.entries)

abbrev pub max_cited_heads : ℕ
max_cited_heads = 256

-- By clock, greatest first, then by hash.
unfoldable pub head_lt : Oplog → Text → Text → Bool
unfolding clock_of
head_lt oplog a b =
    ltb (clock_of oplog b) (clock_of oplog a) || clock_of oplog a == clock_of oplog b && text_lt a b

unfoldable pub reaches : Oplog → Option Text → Text → Bool
reaches oplog none hash = true
reaches oplog (some capability_id) hash =
    text_eq hash capability_id || in_causal_past oplog.entries capability_id (hash ∷ [])

-- `find`.
unfoldable pub find : (Text → Bool) → List Text → Option Text
find p [] = none
find p (x ∷ xs) = let rest = find p xs in if p x then some x else rest

-- `next[next.length - 1] = head`.
unfoldable pub replace_last : Text → List Text → List Text
replace_last head [] = []
replace_last head (x ∷ []) = head ∷ []
replace_last head (x ∷ y ∷ xs) = x ∷ replace_last head (y ∷ xs)

abbrev pub keep_reaching : List Text → Option Text → List Text
keep_reaching next none = next
keep_reaching next (some head) = replace_last head next

-- The 256 greatest heads; one that reaches the capability takes the last place if none of them does.
unfoldable pub cited_heads : (Text → Bool) → List Text → List Text
unfolding find replace_last
cited_heads reaching heads =
    let next = take max_cited_heads heads in
    let reached = keep_reaching next (find reaching (drop max_cited_heads heads)) in
    if ltb max_cited_heads (length heads) && not (any reaching next) then reached else next

unfoldable pub select_next : Oplog → Option Text → List Text
select_next oplog capability_id =
    sort_by text_lt
      (cited_heads (reaches oplog capability_id) (sort_by (head_lt oplog) oplog.heads))

-- The greatest clock of these hashes.
unfoldable pub greatest : Oplog → List Text → ℕ
greatest oplog [] = 0
greatest oplog (h ∷ hs) = max (clock_of oplog h) (greatest oplog hs)

abbrev capability_of : Option Fields → Option Text
capability_of none = none
capability_of (some fields) = as_text (get_field (lit "capability_id") fields)

-- The entry that an append would add now, or the refusal that it would meet.
unfoldable pub sign_local_entry : Host → Oplog → Value → KeyPair → Result VerifiedEntry
sign_local_entry host oplog payload key_pair = do
  fresh ← assert_not_duplicate host oplog payload
  let next = select_next oplog (capability_of (as_record payload))
  unsigned ← build_unsigned_entry (record {
    id = oplog.chain.address;
    payload = payload;
    next = next;
    refs = [];
    clock = record { id = key_pair.public_key; time = suc (greatest oplog next) };
  })
  verify_entry host oplog (hash_signed_entry host (sign_entry host unsigned key_pair.private_key))

-- What an append returns: the oplog after it, the entry and what a revocation changed.
pub record Appended : Type 0 where
  pub oplog : Oplog
  pub entry : VerifiedEntry
  pub access : AccessChange

unfoldable pub append_verified : Oplog → VerifiedEntry → Appended
append_verified oplog e =
    let (grown, _) = insert_entry e oplog in
    let (refreshed, access) = refresh_access_state grown (e ∷ []) in
    record {
      oplog = refresh_current_state (TextSet.add_all e.state_keys access.keys) refreshed;
      entry = e;
      access = access;
    }

unfoldable pub append_entry_with_access : Host → Oplog → Value → KeyPair → Result Appended
append_entry_with_access host oplog payload key_pair = do
  e ← sign_local_entry host oplog payload key_pair
  ok (append_verified oplog e)
