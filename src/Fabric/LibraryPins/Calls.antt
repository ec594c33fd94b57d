-- ===== src/Fabric/LibraryPins/Calls.antt =====
-- The calls of a pin record of fabric/pin-index.ts, and what each library makes of its own.
use record_node.Prelude.{
  Text, text_eq, Bool, true, false, Option, none, List, [], ◌∷◌, if◌then◌else◌,
}
use record_node.TextSet
use record_node.Fabric.LibraryPins.{LibraryPinTables, begin, set_pins, drop_pins, settle, clear}
use record_node.Fabric.LibraryPins.Tables.{last_kind}
use record_node.Fabric.LibraryPins.Separate.{}

pub data Call : Type 0 where
  begins : Text → Call
  sets : Text → List (Text × Bool) → Call
  drops : Text → List Text → Call
  settles : Text → Call
  clears : Text → Call

abbrev pub apply : Call → LibraryPinTables → LibraryPinTables
apply (begins library) t = begin library t
apply (sets library pins) t = set_pins library pins t
apply (drops library cids) t = drop_pins library cids t
apply (settles library) t = settle library t
apply (clears library) t = clear library t

abbrev pub apply_all : List Call → LibraryPinTables → LibraryPinTables
apply_all [] t = t
apply_all (c ∷ cs) t = apply_all cs (apply c t)

-- The view of one library: its own account, in which a pin set is a function.
pub record View : Type 0 where
  pub clean : Bool
  pub kind : Text → Option Bool

abbrev pub see : Text → Call → View → View
see library (begins l) v = if text_eq l library then record v { clean = false } else v
see library (sets l pins) v =
    if text_eq l library then record v { kind = λ cid. last_kind cid pins (v.kind cid) } else v
see library (drops l cids) v =
    if text_eq l library
    then record v { kind = λ cid. if TextSet.has cid cids then none else v.kind cid }
    else v
see library (settles l) v = if text_eq l library then record v { clean = true } else v
see library (clears l) v =
    if text_eq l library then record { clean = false; kind = λ cid. none } else v

abbrev pub see_all : Text → List Call → View → View
see_all library [] v = v
see_all library (c ∷ cs) v = see_all library cs (see library c v)

abbrev pub nothing_recorded : View
nothing_recorded = record { clean = false; kind = λ cid. none }

abbrev pub empty_tables : LibraryPinTables
empty_tables = record { sets = []; pins = [] }
