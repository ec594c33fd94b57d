-- ===== src/Peer/State.antt =====
-- peer/state.ts: the heads, the unlinks under way and the policies that survive a restart. Each update of
-- the file store rewrites the file whole, one after another, so both stores are this state.
use record_node.Prelude.{Text, text_lt, true, false, Bool, Option, none, some, List, [], sort_by}
use record_node.Dict
use record_node.Dict.{Dict}
use record_node.TextSet
use record_node.Peer.{StoredPolicy}

pub record LibraryState : Type 0 where
  pub heads : Dict (List Text)
  pub unlinking : List Text
  pub policies : Dict StoredPolicy

unfoldable pub create_state_store : LibraryState
create_state_store = record { heads = []; unlinking = []; policies = [] }

unfoldable pub save_heads : Text → Option (List Text) → LibraryState → LibraryState
save_heads address none state = record state { heads = Dict.delete address state.heads }
save_heads address (some heads) state = record state {
  heads = Dict.set address (sort_by text_lt heads) state.heads;
}

unfoldable pub set_unlinking : Text → Bool → LibraryState → LibraryState
set_unlinking address true state = record state { unlinking = TextSet.add address state.unlinking }
set_unlinking address false state = record state {
  unlinking = TextSet.delete address state.unlinking;
}

unfoldable pub save_policy : Text → Option StoredPolicy → LibraryState → LibraryState
save_policy address none state = record state { policies = Dict.delete address state.policies }
save_policy address (some policy) state = record state {
  policies = Dict.set address policy state.policies;
}
