-- ===== src/Entry/LabelKeys.antt =====
-- entry/records.ts: the state key of a label names its pair.
use record_node.Prelude.{
  ℕ, zero, suc, Text, ◌≡◌, refl, ap, true, [], ◌∷◌, ◌++◌, arith, length, take, drop, ==_iff,
}
use record_node.Identity.{is_track_id}
use record_node.Entry.Records.{label_state_key, label_pair_of}

take-append : (n : ℕ) (xs ys : Text) → length xs ≡ n → take n (xs ++ ys) ≡ xs
take-append zero [] ys h = refl
take-append zero (x ∷ xs) ys h = absurd (omega arith)
take-append (suc n) [] ys h = absurd (omega arith)
take-append (suc n) (x ∷ xs) ys h = ap (◌∷◌ x) (take-append n xs ys (omega arith))

drop-append : (n c : ℕ) (xs ys : Text) → length xs ≡ n → drop (suc n) (xs ++ (c ∷ ys)) ≡ ys
drop-append zero c [] ys h = refl
drop-append zero c (x ∷ xs) ys h = absurd (omega arith)
drop-append (suc n) c [] ys h = absurd (omega arith)
drop-append (suc n) c (x ∷ xs) ys h = drop-append n c xs ys (omega arith)

length-track_id : (t : Text) → is_track_id t ≡ true → length t ≡ 64
unfolding is_track_id
length-track_id t h = ground (arith, ==_iff (length t) 64)

-- The pair that a label's state key is read as is the pair that it was made of, whatever the label, when
-- the track id is one: two pairs never share a slot.
pub label_pair_of-label_state_key :
    (track_id label : Text)
    → is_track_id track_id ≡ true
    → label_pair_of (label_state_key (track_id, label)) ≡ (track_id, label)
unfolding label_pair_of label_state_key
label_pair_of-label_state_key track_id label h =
    let long = length-track_id track_id h in
    rw (take-append 64 track_id (b':' ∷ label) long)
      (rw (drop-append 64 b':' track_id label long) refl)
