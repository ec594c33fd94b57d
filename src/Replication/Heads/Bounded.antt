-- ===== src/Replication/Heads/Bounded.antt =====
-- Each message that a set of heads is split into is within the bound, and decodes to what it says.
use record_node.Prelude.{
  ℕ, ◌+◌, ◌-◌, ◌≤◌, Text, text_eq, ◌≡◌, refl, ◌⊎◌, Bool-cases, Bool, true, false, inl, inr, ◌&&◌,
  not, some, List, [], ◌∷◌, ◌++◌, arith, ltb, ltb→lt, In, map,
}
use record_node.Value.{text, get_field, as_record, as_text, as_array, is_text}
use record_node.Host.{Host}
use record_node.Encoding.Cid.{is_cid_string}
use record_node.Access.Chain.ReadBack.{items-array_of}
use record_node.Replication.Heads.{
  network_message_max_bytes, json_bytes, overhead, is_empty, added_bytes, split, joined_bytes,
  message_bytes, parse_bounded, encode_heads_message, cids_in, decode_heads_message,
}

joined_bytes-snoc :
    (batch : List Text) (head : Text)
    → joined_bytes (batch ++ head ∷ []) ≡ joined_bytes batch + added_bytes head batch
unfolding joined_bytes added_bytes
joined_bytes-snoc [] head = omega arith
joined_bytes-snoc (a ∷ []) head = omega arith
joined_bytes-snoc (a ∷ b ∷ batch) head = omega (arith, joined_bytes-snoc (b ∷ batch) head)

joined_bytes-one : (head : Text) → joined_bytes (head ∷ []) ≡ json_bytes head
unfolding joined_bytes
joined_bytes-one head = refl

added_bytes-next :
    (head : Text) (batch : List Text)
    → is_empty batch ≡ false
    → added_bytes head batch ≡ json_bytes head + 1
unfolding added_bytes
added_bytes-next head batch more = rw more refl

-- A head that has room, or that is the first of its batch, leaves the batch within the bound.
room_left :
    (max_bytes size : ℕ) (head : Text) (batch : List Text)
    → size ≡ overhead + joined_bytes batch
    → overhead + json_bytes head ≤ max_bytes
    → (not (is_empty batch) && ltb max_bytes (size + added_bytes head batch)) ≡ false
    → size + added_bytes head batch ≤ max_bytes
unfolding joined_bytes added_bytes
room_left max_bytes size head [] counted alone room = omega (arith, counted, alone)
room_left max_bytes size head (b ∷ batch) counted alone room = ground arith

-- Every batch fits in an incomplete message.
abbrev pub AllFit : ℕ → List (List Text) → Type 0
AllFit max_bytes [] = Unit
AllFit max_bytes (b ∷ bs) = (overhead + joined_bytes b ≤ max_bytes) × AllFit max_bytes bs

pub split-AllFit :
    (max_bytes : ℕ) (heads batch : List Text) (size : ℕ)
    → size ≡ overhead + joined_bytes batch
    → size ≤ max_bytes
    → ((h : Text) → In h heads → overhead + json_bytes h ≤ max_bytes)
    → AllFit max_bytes (split max_bytes heads batch size)
unfolding split
split-AllFit max_bytes [] batch size counted fits each = (rw⁻¹ counted fits, tt)
split-AllFit max_bytes (head ∷ heads) batch size counted fits each =
    let added = added_bytes head batch in
    let alone = each head (inl refl) in
    elim (Bool-cases (not (is_empty batch) && ltb max_bytes (size + added))) [
      | inl full ↦
          let next = added_bytes-next head batch (ground arith) in
          rw full (
            rw⁻¹ counted fits,
            split-AllFit max_bytes heads (head ∷ []) (overhead + added - 1)
                (omega (arith, next, joined_bytes-one head)) (omega (arith, next, alone))
                (λ h m. each h (inr m)),
          )
      | inr room ↦ rw room (
          split-AllFit max_bytes heads (batch ++ head ∷ []) (size + added)
            (omega (arith, counted, joined_bytes-snoc batch head))
            (room_left max_bytes size head batch counted alone room) (λ h m. each h (inr m)))
    ]

-- What the batches hold comes from the heads.
abbrev pub AllCids : Host → List (List Text) → Type 0
AllCids host [] = Unit
AllCids host (b ∷ bs) =
    ((h : Text) → In h b → is_cid_string host (some (text h)) ≡ true) × AllCids host bs

In-append : (h : Text) (xs ys : List Text) → In h (xs ++ ys) → In h xs ⊎ In h ys
In-append h [] ys m = inr m
In-append h (x ∷ xs) ys (inl e) = inl (inl e)
In-append h (x ∷ xs) ys (inr m) = elim (In-append h xs ys m) [ inl l ↦ inl (inr l) | inr r ↦ inr r ]

pub split-AllCids :
    (host : Host) (max_bytes : ℕ) (heads batch : List Text) (size : ℕ)
    → ((h : Text) → In h batch → is_cid_string host (some (text h)) ≡ true)
    → ((h : Text) → In h heads → is_cid_string host (some (text h)) ≡ true)
    → AllCids host (split max_bytes heads batch size)
unfolding split
split-AllCids host max_bytes [] batch size here each = (here, tt)
split-AllCids host max_bytes (head ∷ heads) batch size here each =
    let added = added_bytes head batch in
    let first = each head (inl refl) in
    elim (Bool-cases (not (is_empty batch) && ltb max_bytes (size + added))) [
      | inl full ↦ rw full (
        here,
        split-AllCids host max_bytes heads (head ∷ []) (overhead + added - 1)
            (λ h m. elim m [ inl same ↦ rw same first | inr nowhere ↦ absurd nowhere ])
            (λ h m. each h (inr m)),
      )
      | inr room ↦ rw room (
          split-AllCids host max_bytes heads (batch ++ head ∷ []) (size + added)
            (λ h m. elim (In-append h batch (head ∷ []) m) [
              | inl old ↦ here h old
              | inr (inl same) ↦ rw same first
              | inr (inr nowhere) ↦ absurd nowhere
            ])
            (λ h m. each h (inr m)))
    ]

cids_in-map :
    (host : Host) (heads : List Text)
    → ((h : Text) → In h heads → is_cid_string host (some (text h)) ≡ true)
    → cids_in host (map text heads) ≡ some heads
unfolding cids_in
cids_in-map host [] each = refl
cids_in-map host (h ∷ heads) each =
    rw (each h (inl refl))
      (rw (cids_in-map host heads (λ g m. each g (inr m))) (unfold as_text in refl))

pub within : (max_bytes size : ℕ) → size ≤ max_bytes → ltb max_bytes size ≡ false
within max_bytes size fits = elim (Bool-cases (ltb max_bytes size)) [
  | inl t ↦ absurd (omega (arith, ltb→lt max_bytes size t, fits))
  | inr f ↦ f
]

-- A heads message of CID strings within the bound decodes to what it says.
pub decode_heads_message-encode :
    (host : Host) (heads : List Text) (incomplete : Bool)
    → message_bytes (record { heads = heads; incomplete = incomplete }) ≤ network_message_max_bytes
    → ((h : Text) → In h heads → is_cid_string host (some (text h)) ≡ true)
    → decode_heads_message host
        (encode_heads_message (record { heads = heads; incomplete = incomplete }))
      ≡ some (record { heads = heads; incomplete = incomplete })
unfolding decode_heads_message encode_heads_message parse_bounded get_field as_record as_array
    is_text as_text text_eq
decode_heads_message-encode host heads true fits each =
    rw
      (
        within network_message_max_bytes
            (message_bytes (record { heads = heads; incomplete = true })) fits,
        items-array_of (map text heads),
        cids_in-map host heads each,
      )
      refl
decode_heads_message-encode host heads false fits each =
    rw
      (
        within network_message_max_bytes
            (message_bytes (record { heads = heads; incomplete = false })) fits,
        items-array_of (map text heads),
        cids_in-map host heads each,
      )
      refl
