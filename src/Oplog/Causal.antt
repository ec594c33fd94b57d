-- ===== src/Oplog/Causal.antt =====
-- oplog/causal.ts: the search for an ancestor in an entry's causal past, and the walks along `next`
-- that it looks for.
mod Sound
mod Complete
pub mod Decides
use record_node.Prelude.{
  ℕ, zero, suc, ◌+◌, Text, text_eq, ◌≡◌, Bool, true, false, Option, none, some, List, [], ◌∷◌, ◌++◌,
  ltb, if◌then◌else◌, length, ◌<◌, ◌≤◌,
}
use mathlib.Core.List.{reverse}
use mathlib.Core.Option.{get_or}
use record_node.Dict
use record_node.Dict.{Dict}
use record_node.TextSet
use record_node.Entry.{VerifiedEntry, next_of, time_of}

-- `h` is reached from an entry with these `next`.
pub data Past (entries : Dict VerifiedEntry) (next : List Text) : Text → Type 0 where
  direct : {h : Text} → TextSet.has h next ≡ true → Past entries next h
  further :
      {h p : Text} {e : VerifiedEntry}
      → Past entries next p
      → Dict.get p entries ≡ some e
      → TextSet.has h (next_of e) ≡ true
      → Past entries next h

-- What the search pushes for the entry of a hash that it has not seen: `stack.push(...entry.next)`.
abbrev pub pushed : ℕ → Option VerifiedEntry → List Text
pushed floor none = []
pushed floor (some e) = if ltb floor (time_of e) then reverse (next_of e) else []

module _ (entries : Dict VerifiedEntry) where
  -- The `for` loop. The head of the list is the top of the stack; `none` is a spent fuel.
  pub search : (ancestor : Text) → (floor : ℕ) → ℕ → (seen stack : List Text) → Option Bool
  search a floor zero seen stack = none
  search a floor (suc fuel) seen [] = some false
  search a floor (suc fuel) seen (h ∷ stack) =
      let skip = search a floor fuel seen stack in
      let visit = search a floor fuel (h ∷ seen) (pushed floor (Dict.get h entries) ++ stack) in
      if text_eq h a then some true else if TextSet.has h seen then skip else visit

-- The pointers of the entries that are not seen yet: each is pushed at most once.
unfoldable pub unseen_work : List Text → Dict VerifiedEntry → ℕ
unseen_work seen [] = 0
unseen_work seen ((h, e) ∷ m) =
    let rest = unseen_work seen m in if TextSet.has h seen then rest else length (next_of e) + rest

module _ (entries : Dict VerifiedEntry) where
  abbrev pub rounds : List Text → ℕ
  rounds next = suc (length next + unseen_work [] entries)

  -- Whether the search from these `next` meets the ancestor, whose entry gives the floor.
  pub meets : (ancestor : Text) → (next : List Text) → Option VerifiedEntry → Bool
  unfolding search
  meets a next none = false
  meets a next (some e) =
      get_or (search entries a (time_of e) (rounds next) [] (reverse next)) false

  unfoldable pub in_causal_past : (ancestor : Text) → (next : List Text) → Bool
  unfolding meets
  in_causal_past a next = meets a next (Dict.get a entries)

-- The clock rule of an oplog: every `next` of an entry is stored, with a smaller clock.
pub record IsClocked (entries : Dict VerifiedEntry) : Type 0 where
  pub parent :
      (h p : Text) (e : VerifiedEntry)
      → Dict.get h entries ≡ some e
      → TextSet.has p (next_of e) ≡ true
      → (d : VerifiedEntry) × (Dict.get p entries ≡ some d) × (time_of d < time_of e)
