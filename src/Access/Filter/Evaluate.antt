-- ===== src/Access/Filter/Evaluate.antt =====
-- access-control/filter.ts: the evaluation of a FilterSpec, on the levels that its shape check takes.
use record_node.Prelude.{
  ℕ, zero, suc, Text, lit, text_eq, Bool, true, false, ◌&&◌, not, Option, none, some, List, [], ◌∷◌,
  any, every, if◌then◌else◌, code_points, split_at, is_prefix,
}
use record_node.Value.{
  Value, text, array, num, Fields, Number, get_field, items, as_text, as_array, scalar_eq,
  number_le, number_lt,
}
use record_node.Access.Filter.Shapes.{Shape, sound, filter_shape, fields_of, max_spec_depth}

-- `path.split('.').reduce(…)`: the value that a dotted path reaches.
unfoldable pub follow : List Text → Option Value → Option Value
follow [] current = current
follow (step ∷ steps) current =
    follow steps (elim (fields_of current) [ none ↦ none | some fs ↦ get_field step fs ])

unfoldable pub resolve_path : Value → Text → Option Value
unfolding follow
resolve_path subject path =
    let (step, steps) = split_at b'.' path in follow (step ∷ steps) (some subject)

-- Same type and value; an array holds a scalar when an element equals it.
unfoldable pub holds : Option Value → Value → Bool
holds none value = false
holds (some (array vs)) value = any (λ e. scalar_eq e value) (items vs)
holds (some resolved) value = scalar_eq resolved value

unfoldable pub starts_with : Text → Value → Bool
starts_with prefix (text t) = is_prefix (code_points prefix) (code_points t)
starts_with prefix _ = false

abbrev pub any_starts : Text → Option Value → Bool
any_starts prefix none = false
any_starts prefix (some v) = elim (as_array (some v)) [
  | none ↦ starts_with prefix v
  | some vs ↦ any (starts_with prefix) vs
]

unfoldable pub all_hold : Value → Fields → Bool
unfolding holds resolve_path
all_hold subject Fields.end = true
all_hold subject (Fields.field path value fs) =
    holds (resolve_path subject path) value && all_hold subject fs

unfoldable pub evaluate_match : Fields → Value → Bool
unfolding all_hold
evaluate_match node subject = elim (fields_of (get_field (lit "fields") node)) [
  | none ↦ true
  | some fs ↦ all_hold subject fs
]

-- The text of a field that the shape check has found there.
abbrev pub text_at : Text → Fields → Text
text_at name node = elim (as_text (get_field name node)) [ none ↦ [] | some t ↦ t ]

abbrev pub list_at : Text → Fields → List Value
list_at name node = elim (as_array (get_field name node)) [ none ↦ [] | some vs ↦ vs ]

unfoldable pub evaluate_any_of : Fields → Value → Bool
unfolding holds resolve_path
evaluate_any_of node subject =
    any (holds (resolve_path subject (text_at (lit "field") node))) (list_at (lit "values") node)

-- `!(name in node) || test(bound(name))`.
abbrev pub within : Text → (Number → Bool) → Fields → Bool
within name test node = elim (get_field name node) [
  | none ↦ true
  | some v ↦ elim v [ num n ↦ test n | _ ↦ false ]
]

unfoldable pub in_range : Fields → Number → Bool
in_range node n =
    within (lit "gte") (λ b. number_le b n) node
    && within (lit "gt") (λ b. number_lt b n) node
    && within (lit "lte") (λ b. number_le n b) node
    && within (lit "lt") (λ b. number_lt n b) node

unfoldable pub evaluate_range : Fields → Value → Bool
unfolding resolve_path in_range
evaluate_range node subject = elim (resolve_path subject (text_at (lit "field") node)) [
  | none ↦ false
  | some v ↦ elim v [ num n ↦ in_range node n | _ ↦ false ]
]

unfoldable pub evaluate_prefix : Fields → Value → Bool
unfolding resolve_path starts_with
evaluate_prefix node subject =
    any_starts (text_at (lit "prefix") node) (resolve_path subject (text_at (lit "field") node))

unfoldable pub evaluate_node : (Option Value → Value → Bool) → Text → Fields → Value → Bool
unfolding evaluate_match evaluate_any_of evaluate_range evaluate_prefix
evaluate_node below type node subject =
    if text_eq type (lit "match")
    then evaluate_match node subject
    else if text_eq type (lit "any_of")
    then evaluate_any_of node subject
    else if text_eq type (lit "range")
    then evaluate_range node subject
    else if text_eq type (lit "prefix")
    then evaluate_prefix node subject
    else if text_eq type (lit "and")
    then every (λ v. below (some v) subject) (list_at (lit "filters") node)
    else if text_eq type (lit "or")
    then any (λ v. below (some v) subject) (list_at (lit "filters") node)
    else if text_eq type (lit "not")
    then not (below (get_field (lit "filter") node) subject)
    else false

unfoldable pub evaluate_record : (Option Value → Value → Bool) → Option Fields → Value → Bool
unfolding evaluate_node
evaluate_record below none subject = false
evaluate_record below (some node) subject =
    evaluate_node below (text_at (lit "type") node) node subject

-- Evaluates a node whose whole tree is known to be well formed. The levels are those of the shape
-- check, which has bounded the depth.
unfoldable pub evaluate : ℕ → Option Value → Value → Bool
unfolding evaluate_record
evaluate zero filter subject = false
evaluate (suc levels) filter subject = evaluate_record (evaluate levels) (fields_of filter) subject

abbrev pub is_sound : Shape → Bool
is_sound sound = true
is_sound _ = false

-- An absent filter restricts nothing; one that is not wholly well formed and known matches nothing.
unfoldable pub filter_matches : Option Value → Value → Bool
filter_matches none subject = true
filter_matches (some filter) subject =
    is_sound (filter_shape max_spec_depth (some filter))
    && evaluate max_spec_depth (some filter) subject
