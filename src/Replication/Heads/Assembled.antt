-- ===== src/Replication/Heads/Assembled.antt =====
-- What a sender splits, a receiver assembles.
use mathlib.Core.List.{append_assoc, append-nil}
use record_node.Prelude.{
  ℕ, ◌+◌, ◌-◌, ◌≤◌, Text, text_eq_refl, ◌≡◌, refl, sym, ap, ◌∙◌, Bool-cases, inl, inr, Bool, true,
  false, ◌&&◌, not, some, List, [], ◌∷◌, ◌++◌, arith, ltb, length, length-append, In, map,
}
use record_node.Value.{text}
use record_node.Host.{Host}
use record_node.Encoding.Cid.{is_cid_string}
use record_node.Dict
use record_node.Dict.{Dict, get-set, get-delete}
use record_node.Replication.Heads.{
  HeadsMessage, Data, network_message_max_bytes, json_bytes, joined_bytes, message_bytes, split,
  mark, encode_heads_message, encode_heads_batches, decode_heads_message, max_pending_heads,
  pending_of, assemble, onto, receive, receive_all, added_bytes, overhead, is_empty,
}
use record_node.Replication.Heads.Bounded.{
  within, AllFit, split-AllFit, AllCids, split-AllCids, decode_heads_message-encode,
}

abbrev pub concat : List (List Text) → List Text
concat [] = []
concat (b ∷ bs) = b ++ concat bs

concat-split :
    (max_bytes : ℕ) (heads batch : List Text) (size : ℕ)
    → concat (split max_bytes heads batch size) ≡ batch ++ heads
unfolding split
concat-split max_bytes [] batch size = refl
concat-split max_bytes (head ∷ heads) batch size =
    elim (Bool-cases (not (is_empty batch) && ltb max_bytes (size + added_bytes head batch))) [
      | inl full ↦ rw full (
          ap (◌++◌ batch)
            (concat-split max_bytes heads (head ∷ []) (overhead + added_bytes head batch - 1)))
      | inr fits ↦ rw fits (
          concat-split max_bytes heads (batch ++ head ∷ []) (size + added_bytes head batch)
          ∙ append_assoc batch (head ∷ []) heads)
    ]

-- There is always a first batch.
split-cons :
    (max_bytes : ℕ) (heads batch : List Text) (size : ℕ)
    → (b : List Text) × (bs : List (List Text)) × (split max_bytes heads batch size ≡ b ∷ bs)
unfolding split
split-cons max_bytes [] batch size = (batch, [], refl)
split-cons max_bytes (head ∷ heads) batch size =
    elim (Bool-cases (not (is_empty batch) && ltb max_bytes (size + added_bytes head batch))) [
      | inl full ↦ (
        batch,
        split max_bytes heads (head ∷ []) (overhead + added_bytes head batch - 1),
        rw full refl,
      )
      | inr fits ↦
          let (b, bs, e) =
            split-cons max_bytes heads (batch ++ head ∷ []) (size + added_bytes head batch) in
          (b, bs, rw fits e)
    ]

pending_of-set :
    (sender : Text) (heads : List Text) (pending : Dict (List Text))
    → pending_of sender (Dict.set sender heads pending) ≡ heads
unfolding pending_of
pending_of-set sender heads pending =
    ground (arith, get-set sender sender heads pending, text_eq_refl sender)

-- The snapshots of a sender's messages that all decode.
assemble_all : Text → List HeadsMessage → Dict (List Text) → List (List Text)
unfolding assemble
assemble_all sender [] pending = []
assemble_all sender (message ∷ messages) pending =
    let (after, snapshot) = assemble sender message pending in
    onto snapshot (assemble_all sender messages after)

assemble_all-mark :
    (sender : Text) (b : List Text) (bs : List (List Text)) (pending : Dict (List Text))
    → length (pending_of sender pending) + length (concat (b ∷ bs)) ≤ max_pending_heads
    → assemble_all sender (mark (b ∷ bs)) pending
      ≡ (pending_of sender pending ++ concat (b ∷ bs)) ∷ []
unfolding assemble_all mark assemble
assemble_all-mark sender b [] pending fits =
    ap (λ x. (pending_of sender pending ++ x) ∷ []) (sym (append-nil b))
assemble_all-mark sender b (c ∷ cs) pending fits =
    let heads = pending_of sender pending ++ b in
    let kept = pending_of-set sender heads pending in
    let whole = length-append b (concat (c ∷ cs)) in
    rw
      (within max_pending_heads (length heads)
        (omega (arith, length-append (pending_of sender pending) b, whole, fits)))
      (assemble_all-mark sender c cs (Dict.set sender heads pending)
          (rw kept (omega (arith, length-append (pending_of sender pending) b, whole, fits)))
        ∙ rw kept (ap (λ x. x ∷ []) (append_assoc (pending_of sender pending) b (concat (c ∷ cs)))))

receive-decoded :
    (host : Host) (sender : Text) (data' : Data) (m : HeadsMessage) (pending : Dict (List Text))
    → decode_heads_message host data' ≡ some m
    → receive host sender data' pending ≡ assemble sender m pending
unfolding receive
receive-decoded host sender data' m pending e = rw e refl

-- A batch that fits is sent as a message that is read back, incomplete or not.
message-decoded :
    (host : Host) (max_bytes : ℕ) (b : List Text) (incomplete : Bool)
    → max_bytes ≤ network_message_max_bytes
    → overhead + joined_bytes b ≤ max_bytes
    → ((h : Text) → In h b → is_cid_string host (some (text h)) ≡ true)
    → decode_heads_message host
        (encode_heads_message (record { heads = b; incomplete = incomplete }))
      ≡ some (record { heads = b; incomplete = incomplete })
unfolding message_bytes
message-decoded host max_bytes b true small fits each =
    decode_heads_message-encode host b true (omega (arith, small, fits)) each
message-decoded host max_bytes b false small fits each =
    decode_heads_message-encode host b false (omega (arith, small, fits)) each

receive_all-mark :
    (host : Host) (max_bytes : ℕ) (sender : Text) (bs : List (List Text))
    (pending : Dict (List Text))
    → max_bytes ≤ network_message_max_bytes
    → AllFit max_bytes bs
    → AllCids host bs
    → receive_all host sender (map encode_heads_message (mark bs)) pending
      ≡ assemble_all sender (mark bs) pending
unfolding receive_all mark assemble_all
receive_all-mark host max_bytes sender [] pending small fits cids = refl
receive_all-mark host max_bytes sender (b ∷ []) pending small (fit, _) (cid, _) =
    rw
      (receive-decoded host sender (encode_heads_message (record { heads = b; incomplete = false }))
        (record { heads = b; incomplete = false }) pending
        (message-decoded host max_bytes b false small fit cid))
      refl
receive_all-mark host max_bytes sender (b ∷ c ∷ cs) pending small (fit, fits) (cid, cids) =
    let message : HeadsMessage = record { heads = b; incomplete = true } in
    let (after, snapshot) = assemble sender message pending in
    rw
      (receive-decoded host sender (encode_heads_message message) message pending
        (message-decoded host max_bytes b true small fit cid))
      (ap (onto snapshot) (receive_all-mark host max_bytes sender (c ∷ cs) after small fits cids))

-- The messages that a set of CID strings is split into, if the bound on their size is at most 256 KiB
-- and leaves room for an incomplete message with no head and for one with any single head, are
-- assembled to one snapshot with the same heads in the same order, by a receiver that drops a message
-- over 256 KiB or with a head that is no CID string, and that holds no part of the sender; a receiver
-- holds up to 65536 heads.
pub receive_all-encode :
    (host : Host) (max_bytes : ℕ) (sender : Text) (heads : List Text) (pending : Dict (List Text))
    → max_bytes ≤ network_message_max_bytes
    → overhead ≤ max_bytes
    → ((h : Text) → In h heads → overhead + json_bytes h ≤ max_bytes)
    → ((h : Text) → In h heads → is_cid_string host (some (text h)) ≡ true)
    → pending_of sender pending ≡ []
    → length heads ≤ max_pending_heads
    → receive_all host sender (encode_heads_batches max_bytes heads) pending ≡ heads ∷ []
unfolding encode_heads_batches joined_bytes
receive_all-encode host max_bytes sender heads pending small room each cids none_held fits =
    let (b, bs, e) = split-cons max_bytes heads [] overhead in
    let whole : concat (b ∷ bs) ≡ heads =
      ap concat (sym e) ∙ concat-split max_bytes heads [] overhead in
    let fit = split-AllFit max_bytes heads [] overhead (omega arith) room each in
    let cid = split-AllCids host max_bytes heads [] overhead (λ h m. absurd m) cids in
    receive_all-mark host max_bytes sender (split max_bytes heads [] overhead) pending small fit cid
    ∙ rw e (
        assemble_all-mark sender b bs pending (rw (none_held, whole) (omega (arith, fits)))
        ∙ rw (none_held, whole) refl)
