-- ===== src/Replication/Heads.antt =====
-- replication/messages.ts, the heads messages, and the receiver of replication/heads-exchange.ts that
-- assembles them. A message travels as the length in bytes of its JSON text and the value that the text
-- parses to; a heads message holds strings alone, which the text carries unchanged.
pub mod Bounded
pub mod Assembled
use mathlib.Core.Option.{get_or}
use record_node.Prelude.{
  ℕ, zero, suc, ◌+◌, ◌-◌, ◌*◌, ◌^◌, Text, Bytes, lit, text_eq, Bool, true, false, ◌&&◌, ◌||◌, not,
  Option, none, some, List, [], ◌∷◌, ◌++◌, ◌==◌, if◌then◌else◌, ltb, leb, length, code_points,
  utf8_point, map,
}
use record_node.Value.{
  Value, Fields, bool, text, array, map_of, get_field, as_record, as_text, as_array, is_text,
}
use record_node.Host.{Host}
use record_node.Encoding.Cid.{is_cid_string}
use record_node.Access.Records.{array_of}
use record_node.Dict
use record_node.Dict.{Dict}

abbrev pub network_message_max_bytes : ℕ
network_message_max_bytes = 256 * 1024

pub record HeadsMessage : Type 0 where
  pub heads : List Text
  pub incomplete : Bool

abbrev pub is_true : Option Value → Bool
is_true (some (bool b)) = b
is_true _ = false

abbrev pub cons_both : Option Text → Option (List Text) → Option (List Text)
cons_both (some t) (some ts) = some (t ∷ ts)
cons_both _ _ = none

-- The bytes that one code point takes in a JSON string: a short or a long escape, or its UTF-8.
escaped_bytes : ℕ → ℕ
escaped_bytes c =
    let plain = length (utf8_point c) in
    if c == 34 || c == 92 || c == 8 || c == 9 || c == 10 || c == 12 || c == 13
    then 2
    else if ltb c 32 || leb 0xd800 c && leb c 0xdfff
    then 6
    else plain

total : List ℕ → ℕ
total [] = 0
total (c ∷ cs) = escaped_bytes c + total cs

-- `byte_length(JSON.stringify(head))`.
unfoldable pub json_bytes : Text → ℕ
unfolding total escaped_bytes
json_bytes t = 2 + total (code_points t)

-- The length of an incomplete message with no head.
abbrev pub overhead : ℕ
overhead = length (lit "{'type':'heads','heads':[],'incomplete':true}")

abbrev pub is_empty : List Text → Bool
is_empty [] = true
is_empty (_ ∷ _) = false

unfoldable pub added_bytes : Text → List Text → ℕ
added_bytes head batch = json_bytes head + (if is_empty batch then 0 else 1)

-- The loop over the heads, with the batch at hand and its size.
unfoldable pub split : ℕ → List Text → (batch : List Text) → (size : ℕ) → List (List Text)
split max_bytes [] batch size = batch ∷ []
split max_bytes (head ∷ heads) batch size =
    let added = added_bytes head batch in
    let next = split max_bytes heads (head ∷ []) (overhead + added - 1) in
    let same = split max_bytes heads (batch ++ head ∷ []) (size + added) in
    if not (is_empty batch) && ltb max_bytes (size + added) then batch ∷ next else same

-- The bytes of an array's elements and the commas between them.
unfoldable pub joined_bytes : List Text → ℕ
joined_bytes [] = 0
joined_bytes (head ∷ []) = json_bytes head
joined_bytes (head ∷ next ∷ heads) = json_bytes head + 1 + joined_bytes (next ∷ heads)

-- The length of a complete message with no head.
abbrev pub complete_overhead : ℕ
complete_overhead = length (lit "{'type':'heads','heads':[]}")

unfoldable pub message_bytes : HeadsMessage → ℕ
unfolding joined_bytes
message_bytes m = (if m.incomplete then overhead else complete_overhead) + joined_bytes m.heads

-- What `pubsub` carries: `none` is a text that does not parse.
pub record Data : Type 0 where
  pub size : ℕ
  pub json : Option Value

abbrev pub incomplete_field : Bool → Fields
incomplete_field true = Fields.field (lit "incomplete") (bool true) Fields.end
incomplete_field false = Fields.end

unfoldable pub encode_heads_message : HeadsMessage → Data
unfolding message_bytes
encode_heads_message m = record {
  size = message_bytes m;
  json = some (
      map_of (
        Fields.field (lit "type") (text (lit "heads")) (
          Fields.field (lit "heads") (array (array_of (map text m.heads)))
            (incomplete_field m.incomplete))));
}

-- Every message but the last is incomplete.
unfoldable pub mark : List (List Text) → List HeadsMessage
mark [] = []
mark (batch ∷ []) = record { heads = batch; incomplete = false } ∷ []
mark (batch ∷ next ∷ batches) = record { heads = batch; incomplete = true } ∷ mark (next ∷ batches)

unfoldable pub encode_heads_batches : (max_bytes : ℕ) → List Text → List Data
unfolding encode_heads_message mark
encode_heads_batches max_bytes heads =
    map encode_heads_message (mark (split max_bytes heads [] overhead))

-- `parse_bounded`: a text that is too long is dropped before it is parsed.
unfoldable pub parse_bounded : Data → Option Value
parse_bounded data' = if ltb network_message_max_bytes data'.size then none else data'.json

module _ (host : Host) where
  abbrev pub as_cid : Value → Option Text
  as_cid v = if is_cid_string host (some v) then as_text (some v) else none

  -- Every element is a CID string.
  unfoldable pub cids_in : List Value → Option (List Text)
  cids_in [] = some []
  cids_in (v ∷ vs) = cons_both (as_cid v) (cids_in vs)

  abbrev pub heads_message_of : Fields → Option (List Text) → Option HeadsMessage
  heads_message_of fields none = none
  heads_message_of fields (some heads) =
      some (record { heads = heads; incomplete = is_true (get_field (lit "incomplete") fields) })

  abbrev pub heads_in : Option (List Value) → Option (List Text)
  heads_in none = none
  heads_in (some vs) = cids_in vs

  abbrev pub heads_message_in : Option Fields → Option HeadsMessage
  heads_message_in none = none
  heads_message_in (some fields) =
      if is_text (lit "heads") (get_field (lit "type") fields)
      then heads_message_of fields (heads_in (as_array (get_field (lit "heads") fields)))
      else none

  abbrev pub heads_message_at : Option Value → Option HeadsMessage
  heads_message_at none = none
  heads_message_at (some value) = heads_message_in (as_record value)

  unfoldable pub decode_heads_message : Data → Option HeadsMessage
  unfolding parse_bounded cids_in
  decode_heads_message data' = heads_message_at (parse_bounded data')

abbrev pub max_pending_heads : ℕ
max_pending_heads = 2 ^ 16

unfoldable pub pending_of : Text → Dict (List Text) → List Text
pending_of sender pending = get_or (Dict.get sender pending) []

abbrev pub keep_part : Text → List Text → Dict (List Text) → Dict (List Text)
keep_part sender heads pending =
    if ltb max_pending_heads (length heads)
    then Dict.delete sender pending
    else Dict.set sender heads pending

-- One decoded message of a sender: the pending parts after it, and the snapshot that it completes.
unfoldable pub assemble :
    Text → HeadsMessage → Dict (List Text) → Dict (List Text) × Option (List Text)
unfolding pending_of
assemble sender message pending =
    let heads = pending_of sender pending ++ message.heads in
    if message.incomplete
    then (keep_part sender heads pending, none)
    else (Dict.delete sender pending, some heads)

abbrev pub onto : Option (List Text) → List (List Text) → List (List Text)
onto none snapshots = snapshots
onto (some heads) snapshots = heads ∷ snapshots

abbrev pub assemble_decoded :
    Text → Option HeadsMessage → Dict (List Text) → Dict (List Text) × Option (List Text)
assemble_decoded sender none pending = (pending, none)
assemble_decoded sender (some message) pending = assemble sender message pending

-- What does not decode is dropped.
unfoldable pub receive :
    Host → Text → Data → Dict (List Text) → Dict (List Text) × Option (List Text)
unfolding decode_heads_message assemble
receive host sender data' pending =
    assemble_decoded sender (decode_heads_message host data') pending

-- The snapshots of a sender's messages, in order.
unfoldable pub receive_all : Host → Text → List Data → Dict (List Text) → List (List Text)
unfolding receive
receive_all host sender [] pending = []
receive_all host sender (message ∷ messages) pending =
    let (after, snapshot) = receive host sender message pending in
    onto snapshot (receive_all host sender messages after)
