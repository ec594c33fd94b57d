-- ===== src/Replication/AnnouncementMessages/Json.antt =====
-- What `JSON.parse` returns for the text that `JSON.stringify` writes of a value, in
-- replication/messages.ts: `none` is a bigint, on which `JSON.stringify` throws. A byte array becomes an
-- object of its indices, and a CID what its own `toJSON` returns, which is a parameter.
use record_node.Prelude.{Text, Bytes, ◌&&◌, not, Option, none, some, ◌==◌}
use record_node.Value.{
  Number, Value, Items, Fields, byte_fields, null, bool, num, bigint, text, bytes, link, array,
  map_of,
}

-- The text of -0 is 0.
abbrev pub unsigned_zero : Number → Number
unsigned_zero n = record n { negative = n.negative && not (n.magnitude == 0) }

abbrev pub array_some : Option Items → Option Value
array_some none = none
array_some (some vs) = some (array vs)

abbrev pub map_some : Option Fields → Option Value
map_some none = none
map_some (some fs) = some (map_of fs)

abbrev pub item_some : Option Value → Option Items → Option Items
item_some (some v) (some vs) = some (Items.item v vs)
item_some _ _ = none

abbrev pub field_some : Text → Option Value → Option Fields → Option Fields
field_some k (some v) (some fs) = some (Fields.field k v fs)
field_some k _ _ = none

module _ (cid_json : Bytes → Value) where
  unfoldable mutual
    pub through_json : Value → Option Value
    through_json null = some null
    through_json (bool b) = some (bool b)
    through_json (num n) = some (num (unsigned_zero n))
    through_json (bigint negative n) = none
    through_json (text t) = some (text t)
    through_json (bytes bs) = some (map_of (byte_fields 0 bs))
    through_json (link cid) = some (cid_json cid)
    through_json (array vs) = array_some (through_items vs)
    through_json (map_of fs) = map_some (through_fields fs)

    pub through_items : Items → Option Items
    through_items Items.nil = some Items.nil
    through_items (Items.item v vs) = item_some (through_json v) (through_items vs)

    pub through_fields : Fields → Option Fields
    through_fields Fields.end = some Fields.end
    through_fields (Fields.field k v fs) = field_some k (through_json v) (through_fields fs)
