-- ===== src/Access/Filter/Shapes.antt =====
-- access-control/filter.ts: the shape check of a FilterSpec. It takes the number of levels that the
-- depth bound leaves.
use record_node.Prelude.{
  ℕ, zero, suc, Text, lit, text_eq, Bool, true, false, ◌&&◌, ◌||◌, not, Option, none, some, List,
  [], ◌∷◌, map, any, every, is_some, if◌then◌else◌, leb, length, utf8, keep,
}
use record_node.Value.{
  Value, num, Fields, get_field, field_names, field_values, as_record, as_text, as_array, includes,
  is_scalar,
}

-- ok, unknown (fail closed), or malformed (reject or refuse).
pub data Shape : Type 0 where
  sound unknown malformed : Shape

abbrev pub max_spec_depth : ℕ
max_spec_depth = 16

abbrev pub worse : Shape → Shape → Shape
worse malformed s = malformed
worse unknown malformed = malformed
worse unknown s = unknown
worse sound s = s

unfoldable pub worst_shape : List Shape → Shape
worst_shape [] = sound
worst_shape (s ∷ ss) = worse s (worst_shape ss)

unfoldable pub has_extra_fields : Fields → List Text → Bool
has_extra_fields node fields = any (λ f. not (includes fields f)) (field_names node)

-- Between `low` and `high` elements.
abbrev pub sized {ℓ} : {A : Type ℓ} → ℕ → ℕ → List A → Bool
sized low high vs = leb low (length vs) && leb (length vs) high

abbrev pub is_number : Option Value → Bool
is_number (some (num _)) = true
is_number _ = false

abbrev pub bound_names : List Text
bound_names = lit "gte" ∷ lit "gt" ∷ lit "lte" ∷ lit "lt" ∷ []

unfoldable pub known : Fields → List Text → Bool → Shape
unfolding has_extra_fields
known node fields well_formed =
    if well_formed then if has_extra_fields node fields then unknown else sound else malformed

unfoldable pub match_shape : Fields → Shape
match_shape node =
    let values : List Value = elim (get_field (lit "fields") node) [
      | none ↦ []
      | some v ↦ elim (as_record v) [ none ↦ [] | some fs ↦ field_values fs ]
    ] in
    known node (lit "type" ∷ lit "fields" ∷ []) (sized 1 16 values && every is_scalar values)

unfoldable pub any_of_shape : Fields → Shape
any_of_shape node = known node (lit "type" ∷ lit "field" ∷ lit "values" ∷ []) (
    is_some (as_text (get_field (lit "field") node))
    && elim (as_array (get_field (lit "values") node)) [
      | none ↦ false
      | some vs ↦ sized 1 256 vs && every is_scalar vs
    ])

unfoldable pub range_shape : Fields → Shape
range_shape node =
    let bounds = keep (λ b. is_some (get_field b node)) bound_names in
    known node (lit "type" ∷ lit "field" ∷ bound_names) (
      is_some (as_text (get_field (lit "field") node))
      && leb 1 (length bounds)
      && every (λ b. is_number (get_field b node)) bounds)

unfoldable pub prefix_shape : Fields → Shape
prefix_shape node = known node (lit "type" ∷ lit "field" ∷ lit "prefix" ∷ []) (
    is_some (as_text (get_field (lit "field") node))
    && elim (as_text (get_field (lit "prefix") node)) [
      | none ↦ false
      | some p ↦ leb 1 (length p) && leb (length (utf8 p)) 128
    ])

-- `and` and `or`, given the shape check of the level below.
unfoldable pub list_shape : (Option Value → Shape) → Fields → Shape
list_shape below node = elim (as_array (get_field (lit "filters") node)) [
  | none ↦ malformed
  | some vs ↦
      if sized 1 64 vs
      then worst_shape
          (known node (lit "type" ∷ lit "filters" ∷ []) true ∷ map (λ v. below (some v)) vs)
      else malformed
]

unfoldable pub not_shape : (Option Value → Shape) → Fields → Shape
not_shape below node =
    let inner = get_field (lit "filter") node in
    worst_shape (known node (lit "type" ∷ lit "filter" ∷ []) (is_some inner) ∷ below inner ∷ [])

-- The `switch` on `node.type`.
unfoldable pub node_shape : (Option Value → Shape) → Text → Fields → Shape
node_shape below type node =
    if text_eq type (lit "match")
    then match_shape node
    else if text_eq type (lit "any_of")
    then any_of_shape node
    else if text_eq type (lit "range")
    then range_shape node
    else if text_eq type (lit "prefix")
    then prefix_shape node
    else if text_eq type (lit "and") || text_eq type (lit "or")
    then list_shape below node
    else if text_eq type (lit "not")
    then not_shape below node
    else unknown

unfoldable pub record_shape : (Option Value → Shape) → Option Fields → Shape
unfolding node_shape
record_shape below none = malformed
record_shape below (some node) = elim (as_text (get_field (lit "type") node)) [
  | none ↦ malformed
  | some type ↦ node_shape below type node
]

abbrev pub fields_of : Option Value → Option Fields
fields_of none = none
fields_of (some v) = as_record v

-- `filter_shape(node, depth)`, where `levels` is `MAX_SPEC_DEPTH + 1 - depth`.
unfoldable pub filter_shape : ℕ → Option Value → Shape
unfolding record_shape
filter_shape zero filter = malformed
filter_shape (suc levels) filter = record_shape (filter_shape levels) (fields_of filter)
