-- ===== src/Access/Filter/FailClosed.antt =====
-- A filter that holds an unknown node anywhere matches nothing, and no node lies too deep.
use record_node.Prelude.{
  ℕ, zero, suc, ◌+◌, ◌<◌, Text, lit, text_eq, ◌≡◌, refl, Bool, true, false, ◌&&◌, not, Option, none,
  some, List, [], ◌∷◌, map, arith, In, In-map, inl, inr, if◌then◌else◌, Bool-cases, is_some,
}
use record_node.Value.{Value, Fields, get_field, as_record, as_text, as_array}
use record_node.Access.Filter.Shapes.{
  Shape, sound, unknown, malformed, worst_shape, filter_shape, record_shape, node_shape, list_shape,
  not_shape, match_shape, any_of_shape, range_shape, prefix_shape, known, has_extra_fields, sized,
  bound_names, max_spec_depth,
}
use record_node.Access.Filter.Evaluate.{filter_matches, is_sound}

abbrev pub type_of : Fields → Option Text
type_of node = as_text (get_field (lit "type") node)

-- `v` is a filter directly under the node.
pub data Child (node : Fields) (v : Value) : Type 0 where
  in_and :
      (vs : List Value)
      → type_of node ≡ some (lit "and")
      → as_array (get_field (lit "filters") node) ≡ some vs
      → In v vs
      → Child node v
  in_or :
      (vs : List Value)
      → type_of node ≡ some (lit "or")
      → as_array (get_field (lit "filters") node) ≡ some vs
      → In v vs
      → Child node v
  under_not :
      type_of node ≡ some (lit "not") → get_field (lit "filter") node ≡ some v → Child node v

worst-sound : (ss : List Shape) (s : Shape) → worst_shape ss ≡ sound → In s ss → s ≡ sound
unfolding worst_shape
worst-sound [] s h m = absurd m
worst-sound (t ∷ ss) s h m = ground (arith, worst-sound ss s)

list-sound :
    (below : Option Value → Shape) (node : Fields) (vs : List Value) (v : Value)
    → as_array (get_field (lit "filters") node) ≡ some vs
    → list_shape below node ≡ sound
    → In v vs
    → below (some v) ≡ sound
unfolding list_shape
list-sound below node vs v e h m = elim (Bool-cases (sized 1 64 vs)) [
  | inl fits ↦
      worst-sound (known node (lit "type" ∷ lit "filters" ∷ []) true ∷ map (λ w. below (some w)) vs)
        (below (some v)) (rw (e, fits, list_shape) at h) (inr (In-map (λ w. below (some w)) v vs m))
  | inr unfit ↦ absurd (cc (rw (e, unfit, list_shape) at h))
]

record_shape_lem :
    (below : Option Value → Shape) (node : Fields) (t : Text)
    → type_of node ≡ some t
    → record_shape below (some node) ≡ node_shape below t node
unfolding record_shape
record_shape_lem below node t e = rw (e, record_shape)

module _ (levels : ℕ) (node : Fields) (v : Value) where
  Child-sound_record :
      record_shape (filter_shape levels) (some node) ≡ sound
      → Child node v
      → filter_shape levels (some v) ≡ sound
  unfolding node_shape not_shape text_eq
  Child-sound_record h (in_and vs e a m) =
      list-sound (filter_shape levels) node vs v a
        (rw (record_shape_lem (filter_shape levels) node (lit "and") e) at h) m
  Child-sound_record h (in_or vs e a m) =
      list-sound (filter_shape levels) node vs v a
        (rw (record_shape_lem (filter_shape levels) node (lit "or") e) at h) m
  Child-sound_record h (under_not e g) =
      let s = rw (record_shape_lem (filter_shape levels) node (lit "not") e) at h in
      worst-sound
        (known node (lit "type" ∷ lit "filter" ∷ []) true ∷ filter_shape levels (some v) ∷ [])
        (filter_shape levels (some v)) (rw (g, not_shape) at s) (inr (inl refl))

-- The fields that a node of a known type may carry.
abbrev pub allowed_fields : Text → Option (List Text)
allowed_fields t =
    if text_eq t (lit "match")
    then some (lit "type" ∷ lit "fields" ∷ [])
    else if text_eq t (lit "any_of")
    then some (lit "type" ∷ lit "field" ∷ lit "values" ∷ [])
    else if text_eq t (lit "range")
    then some (lit "type" ∷ lit "field" ∷ lit "gte" ∷ lit "gt" ∷ lit "lte" ∷ lit "lt" ∷ [])
    else if text_eq t (lit "prefix")
    then some (lit "type" ∷ lit "field" ∷ lit "prefix" ∷ [])
    else if text_eq t (lit "and")
    then some (lit "type" ∷ lit "filters" ∷ [])
    else if text_eq t (lit "or")
    then some (lit "type" ∷ lit "filters" ∷ [])
    else if text_eq t (lit "not")
    then some (lit "type" ∷ lit "filter" ∷ [])
    else none

abbrev pub clean : Fields → Option (List Text) → Bool
clean node none = false
clean node (some fields) = not (has_extra_fields node fields)

-- A map of a known type with no other field.
pub record IsKnown (v : Value) : Type 0 where
  pub node : Fields
  pub type : Text
  pub is_record : as_record v ≡ some node
  pub typed : type_of node ≡ some type
  pub allowed : clean node (allowed_fields type) ≡ true

known-sound :
    (node : Fields) (fields : List Text) (b : Bool)
    → known node fields b ≡ sound
    → has_extra_fields node fields ≡ false
unfolding known
known-sound node fields b h = ground arith

match-clean :
    (node : Fields)
    → match_shape node ≡ sound
    → has_extra_fields node (lit "type" ∷ lit "fields" ∷ []) ≡ false
unfolding match_shape
match-clean node h = known-sound node (lit "type" ∷ lit "fields" ∷ []) _ h

any_of-clean :
    (node : Fields)
    → any_of_shape node ≡ sound
    → has_extra_fields node (lit "type" ∷ lit "field" ∷ lit "values" ∷ []) ≡ false
unfolding any_of_shape
any_of-clean node h = known-sound node (lit "type" ∷ lit "field" ∷ lit "values" ∷ []) _ h

range-clean :
    (node : Fields)
    → range_shape node ≡ sound
    → has_extra_fields node (lit "type" ∷ lit "field" ∷ bound_names) ≡ false
unfolding range_shape
range-clean node h = known-sound node (lit "type" ∷ lit "field" ∷ bound_names) _ h

prefix-clean :
    (node : Fields)
    → prefix_shape node ≡ sound
    → has_extra_fields node (lit "type" ∷ lit "field" ∷ lit "prefix" ∷ []) ≡ false
unfolding prefix_shape
prefix-clean node h = known-sound node (lit "type" ∷ lit "field" ∷ lit "prefix" ∷ []) _ h

list-clean :
    (below : Option Value → Shape) (node : Fields) (o : Option (List Value))
    → as_array (get_field (lit "filters") node) ≡ o
    → list_shape below node ≡ sound
    → has_extra_fields node (lit "type" ∷ lit "filters" ∷ []) ≡ false
unfolding list_shape
list-clean below node none e h = absurd (cc (rw (e, list_shape) at h))
list-clean below node (some vs) e h = elim (Bool-cases (sized 1 64 vs)) [
  | inl fits ↦
      let top = known node (lit "type" ∷ lit "filters" ∷ []) true in
      known-sound node (lit "type" ∷ lit "filters" ∷ []) true (
        worst-sound (top ∷ map (λ w. below (some w)) vs) top (rw (e, fits, list_shape) at h)
          (inl refl))
  | inr unfit ↦ absurd (cc (rw (e, unfit, list_shape) at h))
]

not-clean :
    (below : Option Value → Shape) (node : Fields)
    → not_shape below node ≡ sound
    → has_extra_fields node (lit "type" ∷ lit "filter" ∷ []) ≡ false
unfolding not_shape
not-clean below node h =
    let inner = get_field (lit "filter") node in
    let top = known node (lit "type" ∷ lit "filter" ∷ []) (is_some inner) in
    known-sound node (lit "type" ∷ lit "filter" ∷ []) (is_some inner)
      (worst-sound (top ∷ below inner ∷ []) top h (inl refl))

node-clean :
    (below : Option Value → Shape) (t : Text) (node : Fields)
    → node_shape below t node ≡ sound
    → clean node (allowed_fields t) ≡ true
unfolding node_shape
node-clean below t node h = ground (
  arith,
  match-clean node,
  any_of-clean node,
  range-clean node,
  prefix-clean node,
  list-clean below node (as_array (get_field (lit "filters") node)) refl,
  not-clean below node,
)

module _ (below : Option Value → Shape) (v : Value) where
  typed-IsKnown :
      (node : Fields) (t : Option Text)
      → as_record v ≡ some node
      → type_of node ≡ t
      → record_shape below (some node) ≡ sound
      → IsKnown v
  unfolding record_shape
  typed-IsKnown node none r e h = absurd (cc (rw (e, record_shape) at h))
  typed-IsKnown node (some t) r e h = record {
    node = node;
    type = t;
    is_record = r;
    typed = e;
    allowed = node-clean below t node (rw (record_shape_lem below node t e) at h);
  }

  record-IsKnown : (o : Option Fields) → as_record v ≡ o → record_shape below o ≡ sound → IsKnown v
  record-IsKnown none r h = absurd (unfold record_shape in cc)
  record-IsKnown (some node) r h = typed-IsKnown node (type_of node) r refl h

sound-IsKnown : (levels : ℕ) (v : Value) → filter_shape (suc levels) (some v) ≡ sound → IsKnown v
unfolding filter_shape
sound-IsKnown levels v h = record-IsKnown (filter_shape levels) v (as_record v) refl h

-- `v` lies `depth` levels below the root of a filter.
pub data Inside (root : Value) : ℕ → Value → Type 0 where
  top : Inside root 0 root
  under :
      {depth : ℕ} {v w : Value} {node : Fields}
      → Inside root depth v
      → as_record v ≡ some node
      → Child node w
      → Inside root (suc depth) w

Child-sound :
    (left : ℕ) (v w : Value) (node : Fields)
    → as_record v ≡ some node
    → Child node w
    → filter_shape (suc left) (some v) ≡ sound
    → filter_shape left (some w) ≡ sound
unfolding filter_shape
Child-sound left v w node r c h = Child-sound_record left node w (rw r at h) c

lower :
    (left levels depth : ℕ) (w : Value)
    → levels ≡ suc left + depth
    → filter_shape left (some w) ≡ sound
    → (l : ℕ) × (levels ≡ suc l + suc depth) × (filter_shape (suc l) (some w) ≡ sound)
lower zero levels depth w e h = absurd (unfold filter_shape in cc)
lower (suc l) levels depth w e h = (l, omega arith, h)

Inside-sound :
    {root : Value} {depth : ℕ} {v : Value}
    → Inside root depth v
    → (levels : ℕ) → filter_shape levels (some root) ≡ sound
    → (left : ℕ) × (levels ≡ suc left + depth) × (filter_shape (suc left) (some v) ≡ sound)
Inside-sound top zero h = absurd (unfold filter_shape in cc)
Inside-sound top (suc levels) h = (levels, omega arith, h)
Inside-sound (under {depth} {v} {w} {node} i r c) levels h =
    let (left, e, s) = Inside-sound i levels h in
    lower left levels depth w e (Child-sound left v w node r c s)

sound_of_and : (s : Shape) (b : Bool) → (is_sound s && b) ≡ true → s ≡ sound
sound_of_and sound b h = refl
sound_of_and unknown b h = absurd (cc)
sound_of_and malformed b h = absurd (cc)

-- Where a filter matches any subject, every node in it, however deep under `and`, `or` and `not`, is
-- a map of a type that this version defines with no other field, less than sixteen levels down.
-- So a filter that holds one unknown node matches nothing, also under `not`.
pub filter_matches-IsKnown :
    (filter subject v : Value) (depth : ℕ)
    → filter_matches (some filter) subject ≡ true
    → Inside filter depth v
    → (depth < max_spec_depth) × IsKnown v
unfolding filter_matches
filter_matches-IsKnown filter subject v depth h i =
    let root = sound_of_and (filter_shape max_spec_depth (some filter)) _ h in
    let (left, e, s) = Inside-sound i max_spec_depth root in (omega arith, sound-IsKnown left v s)
