-- ===== src/Replication/AnnouncementMessages/Plain.antt =====
-- The values that the JSON text of replication/messages.ts carries unchanged: those with no byte array,
-- link, bigint or negative zero.
use record_node.Prelude.{Bytes, ◌≡◌, refl, ap, Bool, true, false, ◌&&◌, not, some, ◌==◌, arith}
use record_node.Value.{
  Number, Value, Items, Fields, null, bool, num, bigint, text, bytes, link, array, map_of,
}
use record_node.Replication.AnnouncementMessages.Json.{
  unsigned_zero, through_json, through_items, through_fields,
}

unfoldable mutual
  pub is_plain : Value → Bool
  is_plain null = true
  is_plain (bool b) = true
  is_plain (num n) = not (n.negative && n.magnitude == 0)
  is_plain (bigint negative n) = false
  is_plain (text t) = true
  is_plain (bytes bs) = false
  is_plain (link cid) = false
  is_plain (array vs) = are_plain vs
  is_plain (map_of fs) = have_plain fs

  pub are_plain : Items → Bool
  are_plain Items.nil = true
  are_plain (Items.item v vs) = is_plain v && are_plain vs

  pub have_plain : Fields → Bool
  have_plain Fields.end = true
  have_plain (Fields.field k v fs) = is_plain v && have_plain fs

unsigned_zero-plain :
    (n : Number) → not (n.negative && n.magnitude == 0) ≡ true → unsigned_zero n ≡ n
unsigned_zero-plain n h =
    let kept : (n.negative && not (n.magnitude == 0)) ≡ n.negative = ground arith in
    ap (λ (b : Bool). record n { negative = b }) kept

module _ (cid_json : Bytes → Value) where
  mutual
    unfolding is_plain through_json

    pub through_json-plain : (v : Value) → is_plain v ≡ true → through_json cid_json v ≡ some v
    through_json-plain null h = refl
    through_json-plain (bool b) h = refl
    through_json-plain (num n) h = ap (λ (m : Number). some (num m)) (unsigned_zero-plain n h)
    through_json-plain (bigint negative n) h = cc
    through_json-plain (text t) h = refl
    through_json-plain (bytes bs) h = cc
    through_json-plain (link cid) h = cc
    through_json-plain (array vs) h = rw (through_items-plain vs h) refl
    through_json-plain (map_of fs) h = rw (through_fields-plain fs h) refl

    through_items-plain : (vs : Items) → are_plain vs ≡ true → through_items cid_json vs ≡ some vs
    through_items-plain Items.nil h = refl
    through_items-plain (Items.item v vs) h =
        rw (through_json-plain v (ground arith), through_items-plain vs (ground arith)) refl

    through_fields-plain :
        (fs : Fields) → have_plain fs ≡ true → through_fields cid_json fs ≡ some fs
    through_fields-plain Fields.end h = refl
    through_fields-plain (Fields.field k v fs) h =
        rw (through_json-plain v (ground arith), through_fields-plain fs (ground arith)) refl
