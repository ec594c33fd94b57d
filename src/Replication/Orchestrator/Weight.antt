-- ===== src/Replication/Orchestrator/Weight.antt =====
-- The weight of what a walk over the waiting entries has not entered, which bounds its rounds.
use record_node.Prelude.{
  ℕ, suc, ◌+◌, ◌≤◌, Text, text_eq_iff, ◌≡◌, Bool, false, ◌||◌, some, List, [], ◌∷◌, arith, length,
  if◌then◌else◌,
}
use record_node.Dict
use record_node.Dict.{Dict, get-set}
use record_node.TextSet
use record_node.TextSet.{has-add, has-delete, has-nil}
use record_node.Entry.{HashedEntry}
use record_node.Replication.Orchestrator.{next_of, push_parents, weight}

-- The weight of the entries that are neither decided nor on the path.
unfoldable pub open_weight : Dict HashedEntry → List Text → Dict Bool → ℕ
open_weight [] on_path ready = 0
open_weight ((k, e) ∷ es) on_path ready =
    (if TextSet.has k on_path || Dict.has k ready then 0 else suc (length (next_of e)))
    + open_weight es on_path ready

pub open_weight-le :
    (es : Dict HashedEntry) (on_path : List Text) (ready : Dict Bool)
    → open_weight es on_path ready ≤ weight es
unfolding open_weight weight
open_weight-le [] on_path ready = omega arith
open_weight-le ((k, e) ∷ es) on_path ready = ground (arith, open_weight-le es on_path ready)

pub open_weight-set :
    (es : Dict HashedEntry) (on_path : List Text) (ready : Dict Bool) (k : Text) (b : Bool)
    → open_weight es on_path (Dict.set k b ready) ≤ open_weight es on_path ready
unfolding open_weight
open_weight-set [] on_path ready k b = omega arith
open_weight-set ((j, e) ∷ es) on_path ready k b =
    ground (arith, open_weight-set es on_path ready k b, get-set k j b ready)

pub open_weight-leave :
    (es : Dict HashedEntry) (on_path : List Text) (ready : Dict Bool) (k : Text) (b : Bool)
    → open_weight es (TextSet.delete k on_path) (Dict.set k b ready) ≤ open_weight es on_path ready
unfolding open_weight
open_weight-leave [] on_path ready k b = omega arith
open_weight-leave ((j, e) ∷ es) on_path ready k b =
    ground
      (arith, open_weight-leave es on_path ready k b, get-set k j b ready, has-delete k j on_path)

open_weight-add :
    (es : Dict HashedEntry) (on_path : List Text) (ready : Dict Bool) (k : Text)
    → open_weight es (TextSet.add k on_path) ready ≤ open_weight es on_path ready
unfolding open_weight
open_weight-add [] on_path ready k = omega arith
open_weight-add ((j, e) ∷ es) on_path ready k =
    ground (arith, open_weight-add es on_path ready k, has-add k j on_path)

pub open_weight-enter :
    (es : Dict HashedEntry) (on_path : List Text) (ready : Dict Bool) (k : Text) (e : HashedEntry)
    → TextSet.has k on_path ≡ false
    → Dict.has k ready ≡ false
    → Dict.get k es ≡ some e
    → open_weight es (TextSet.add k on_path) ready + suc (length (next_of e))
      ≤ open_weight es on_path ready
unfolding open_weight Dict.get
open_weight-enter [] on_path ready k e off new there = cc
open_weight-enter ((j, d) ∷ es) on_path ready k e off new there = ground (
  arith,
  open_weight-enter es on_path ready k e,
  open_weight-add es on_path ready k,
  has-add k j on_path,
  text_eq_iff j k,
  text_eq_iff k j,
)

pub length-push_parents :
    (ps : List Text) (ready : Dict Bool) (on_path stack : List Text)
    → length (push_parents ps ready on_path stack) ≤ length ps + length stack
unfolding push_parents
length-push_parents [] ready on_path stack = omega arith
length-push_parents (p ∷ ps) ready on_path stack = ground (
  arith,
  length-push_parents ps ready on_path
      (if Dict.has p ready || TextSet.has p on_path then stack else p ∷ stack),
)
