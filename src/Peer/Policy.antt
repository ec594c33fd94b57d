-- ===== src/Peer/Policy.antt =====
-- peer/policy.ts: the policy that a library replicates under.
use record_node.Prelude.{Text, text_eq, Bool, Option, none, some, List, [], ◌∷◌, if◌then◌else◌}
use record_node.Dict
use record_node.Value.{Value, null}
use record_node.Access.Filter.Shapes.{Shape, sound, max_spec_depth, filter_shape}
use record_node.Peer.{
  PeerContext, Answer, answered, refused, not_found, invalid, ◌>>=◌, found, ReplicationMode, full,
  selective, StoredPolicy,
}
use record_node.Peer.Ownership.{OwnLibrary, Link, find_own_library, link_set}

pub record EffectivePolicy : Type 0 where
  pub mode : ReplicationMode
  -- `none` is null.
  pub filter : Option Value

abbrev pub whole : EffectivePolicy
whole = record { mode = full; filter = none }

abbrev pub filter_under : ReplicationMode → Option Value → Option Value
filter_under selective (some null) = none
filter_under selective filter = filter
filter_under _ filter = none

abbrev pub as_stored : Option StoredPolicy → EffectivePolicy
as_stored none = whole
as_stored (some stored) = record {
  mode = stored.mode;
  filter = filter_under stored.mode stored.filter;
}

unfoldable pub find_link : Text → List Link → Option Link
find_link address [] = none
find_link address (l ∷ ls) =
    let rest = find_link address ls in if text_eq l.address address then some l else rest

abbrev pub policy_for :
    Option OwnLibrary → Option Link → Option StoredPolicy → Option EffectivePolicy
policy_for (some _) link stored = some whole
policy_for none none stored = none
policy_for none (some _) stored = some (as_stored stored)

-- Own libraries replicate in full, linked ones as stored; others have no policy.
unfoldable pub effective_policy : PeerContext → Text → Answer (Option EffectivePolicy)
unfolding find_link
effective_policy context address = do
  own ← find_own_library context address
  links ← link_set context
  answered (policy_for own (find_link address links) (Dict.get address context.policies))

pub record ReplicationPolicy : Type 0 where
  pub mode : ReplicationMode
  pub filter : Option Value
  pub connected : Bool

-- On whether the replicator of the library is running.
unfoldable pub get_replication_policy :
    PeerContext → (connected : Bool) → Text → Answer ReplicationPolicy
unfolding effective_policy
get_replication_policy context connected address = do
  effective ← effective_policy context address
  policy ← found effective not_found
  answered (record { mode = policy.mode; filter = policy.filter; connected = connected })

abbrev pub of_shape : Shape → Value → Answer StoredPolicy
of_shape sound filter = answered (record { mode = selective; filter = some filter })
of_shape _ filter = refused invalid

abbrev pub selecting : Option Value → Answer StoredPolicy
selecting none = refused invalid
selecting (some null) = refused invalid
selecting (some filter) = of_shape (filter_shape max_spec_depth (some filter)) filter

-- A filter that the node cannot evaluate is refused.
unfoldable pub validate_policy : ReplicationMode → Option Value → Answer StoredPolicy
validate_policy selective filter = selecting filter
validate_policy mode filter = answered (record { mode = mode; filter = none })
