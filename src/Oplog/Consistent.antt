-- ===== src/Oplog/Consistent.antt =====
-- The invariant of an oplog between two operations, and that the refreshing of oplog/dag.ts restores it.
use record_node.Prelude.{
  Text, text_eq, text_eq_iff, ◌≡◌, refl, Bool, Bool-cases, inl, inr, true, false, ◌&&◌, not, Option,
  none, some, List, [], ◌∷◌, arith, if◌then◌else◌,
}
use record_node.Dict
use record_node.Dict.{Dict, get-set, get-delete}
use record_node.TextSet
use record_node.TextSet.{has-nil, has-cons, has-add_all}
use record_node.Entry.{VerifiedEntry}
use record_node.Oplog.{Oplog, live_entries, store_current, refresh_key, refresh_current_state}
use record_node.Oplog.Order.{resolve_current_state}
use record_node.Oplog.Index.{IsIndexed}
use record_node.Oplog.Causal.{IsClocked}
use record_node.Oplog.Settled.{IsSettledAt}
use record_node.Oplog.Refresh.{}

-- The indexes agree with the entries, clocks exceed those of parents, and the current entry of each key
-- outside `open` is the resolution of its live entries.
pub record IsConsistentBut (open_keys : Text → Bool) (oplog : Oplog) : Type 0 where
  pub indexed : IsIndexed oplog
  pub clocked : IsClocked oplog.entries
  pub settled : (key : Text) → open_keys key ≡ false → IsSettledAt oplog key

abbrev pub none_open : Text → Bool
none_open key = false

abbrev pub IsConsistent : Oplog → Type 0
IsConsistent oplog = IsConsistentBut none_open oplog

get-store_current :
    (k key : Text) (r : Option VerifiedEntry) (current : Dict VerifiedEntry)
    → Dict.get key (store_current k r current) ≡ (if text_eq k key then r else Dict.get key current)
unfolding store_current
get-store_current k key none current = get-delete k key current
get-store_current k key (some e) current = get-set k key e current

module _ (oplog : Oplog) where
  get-refresh_key :
      (k key : Text)
      → Dict.get key (refresh_key k oplog).current ≡ (
          if text_eq k key
          then resolve_current_state (live_entries oplog k)
          else Dict.get key oplog.current)
  unfolding refresh_key
  get-refresh_key k key =
      get-store_current k key (resolve_current_state (live_entries oplog k)) oplog.current

  live_entries-refresh_key :
      (k key : Text) → live_entries (refresh_key k oplog) key ≡ live_entries oplog key
  unfolding refresh_key live_entries
  live_entries-refresh_key k key = refl

  refresh_key-IsIndexed : (k : Text) → IsIndexed oplog → IsIndexed (refresh_key k oplog)
  unfolding refresh_key
  refresh_key-IsIndexed k i = record {
    keyed = i.keyed;
    referenced = i.referenced;
    heads = i.heads;
    keys = i.keys;
    delegated = i.delegated;
    capabilities = i.capabilities;
    revocations = i.revocations;
  }

  refresh_key-IsSettledAt :
      (open_keys : Text → Bool) (k : Text)
      → IsConsistentBut open_keys oplog
      → (key : Text) → (not (text_eq k key) && open_keys key) ≡ false
      → IsSettledAt (refresh_key k oplog) key
  refresh_key-IsSettledAt open_keys k c key s = elim (Bool-cases (text_eq k key)) [
    | inl t ↦
        ground (arith, get-refresh_key k key, live_entries-refresh_key k key, text_eq_iff k key)
    | inr f ↦ ground (arith, get-refresh_key k key, live_entries-refresh_key k key, c.settled key)
  ]

  -- Resolving a key takes it out of the open ones.
  refresh_key-IsConsistentBut :
      (open_keys : Text → Bool) (k : Text)
      → IsConsistentBut open_keys oplog
      → IsConsistentBut (λ key. not (text_eq k key) && open_keys key) (refresh_key k oplog)
  refresh_key-IsConsistentBut open_keys k c = record {
    indexed = refresh_key-IsIndexed k c.indexed;
    clocked = unfold refresh_key in c.clocked;
    settled = λ key s. refresh_key-IsSettledAt open_keys k c key s;
  }

-- Resolving every key of a list leaves open what is not in it.
refresh_current_state-IsConsistentBut :
    (open_keys : Text → Bool) (keys : List Text) (oplog : Oplog)
    → IsConsistentBut open_keys oplog
    → IsConsistentBut
        (λ key. not (TextSet.has key keys) && open_keys key)
        (refresh_current_state keys oplog)
unfolding refresh_current_state
refresh_current_state-IsConsistentBut open_keys [] oplog c = record {
  indexed = c.indexed;
  clocked = c.clocked;
  settled = λ key s. c.settled key (ground (arith, has-nil key));
}
refresh_current_state-IsConsistentBut open_keys (k ∷ keys) oplog c =
    let rest =
      refresh_current_state-IsConsistentBut (λ key. not (text_eq k key) && open_keys key) keys
        (refresh_key k oplog) (refresh_key-IsConsistentBut oplog open_keys k c) in
    record {
      indexed = rest.indexed;
      clocked = rest.clocked;
      settled = λ key s. rest.settled key (ground (arith, has-cons key k keys));
    }

-- Resolving every open key leaves the oplog consistent.
pub refresh_current_state-IsConsistent :
    (open_keys : Text → Bool) (keys : List Text) (oplog : Oplog)
    → IsConsistentBut open_keys oplog
    → ((key : Text) → open_keys key ≡ true → TextSet.has key keys ≡ true)
    → IsConsistent (refresh_current_state keys oplog)
refresh_current_state-IsConsistent open_keys keys oplog c covered =
    let rest = refresh_current_state-IsConsistentBut open_keys keys oplog c in
    record {
      indexed = rest.indexed;
      clocked = rest.clocked;
      settled = λ key s. rest.settled key (ground (arith, covered key));
    }
