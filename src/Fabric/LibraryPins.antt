-- ===== src/Fabric/LibraryPins.antt =====
-- fabric/pin-index.ts, create_library_pin_record: the tables library_pin_sets, one row for each library,
-- and library_pins, whose rows name the rowid of a set. A batch that is rolled back is not modelled.
pub mod Tables
pub mod Separate
pub mod Calls
pub mod Shown
pub mod View
use record_node.Prelude.{
  ℕ, ◌+◌, Text, text_eq, Bool, true, false, ◌&&◌, Option, none, some, List, [], ◌∷◌, ◌==◌, max,
  keep, not, if◌then◌else◌,
}
use record_node.Dict
use record_node.Dict.{Dict}

pub record SetRow : Type 0 where
  pub id : ℕ
  pub clean : Bool

pub record PinRow : Type 0 where
  pub set_id : ℕ
  pub cid : Text
  pub recursive : Bool

-- `sets` by library, which is unique.
pub record LibraryPinTables : Type 0 where
  pub sets : Dict SetRow
  pub pins : List PinRow

-- The id of a new row: one more than the largest in the table, so that of a deleted row is used again.
unfoldable pub next_id : Dict SetRow → ℕ
next_id [] = 1
next_id ((_, r) ∷ rest) = max (r.id + 1) (next_id rest)

abbrev pub set_where : Text → LibraryPinTables → Option SetRow
set_where library t = Dict.get library t.sets

unfoldable pub select_pins : ℕ → List PinRow → Dict Bool
select_pins id [] = []
select_pins id (p ∷ ps) =
    let rest = select_pins id ps in if p.set_id == id then (p.cid, p.recursive) ∷ rest else rest

abbrev pub loaded : Option SetRow → LibraryPinTables → Option (Dict Bool)
loaded none t = none
loaded (some r) t = if r.clean then some (select_pins r.id t.pins) else none

unfoldable pub load : Text → LibraryPinTables → Option (Dict Bool)
unfolding select_pins
load library t = loaded (set_where library t) t

unfoldable pub insert_set : Text → LibraryPinTables → LibraryPinTables
unfolding next_id
insert_set library t = elim (set_where library t) [
  | none ↦ record t {
    sets = Dict.set library (record { id = next_id t.sets; clean = false }) t.sets;
  }
  | some r ↦ t
]

-- `UPDATE library_pin_sets SET clean`: nothing without a row.
unfoldable pub set_clean : Bool → Text → LibraryPinTables → LibraryPinTables
set_clean clean library t = elim (set_where library t) [
  | none ↦ t
  | some r ↦ record t { sets = Dict.set library (record r { clean = clean }) t.sets }
]

unfoldable pub begin : Text → LibraryPinTables → LibraryPinTables
unfolding set_clean
begin library t = set_clean false library t

unfoldable pub upsert_pin : ℕ → Text → Bool → List PinRow → List PinRow
upsert_pin id cid recursive [] = record { set_id = id; cid = cid; recursive = recursive } ∷ []
upsert_pin id cid recursive (p ∷ ps) =
    let rest = upsert_pin id cid recursive ps in
    if p.set_id == id && text_eq p.cid cid
    then record p { recursive = recursive } ∷ ps
    else p ∷ rest

unfoldable pub upsert_pins : ℕ → List (Text × Bool) → List PinRow → List PinRow
unfolding upsert_pin
upsert_pins id [] pins = pins
upsert_pins id ((cid, recursive) ∷ rest) pins =
    upsert_pins id rest (upsert_pin id cid recursive pins)

abbrev pub upsert_into : Option SetRow → List (Text × Bool) → LibraryPinTables → LibraryPinTables
upsert_into none ps t = t
upsert_into (some r) ps t = record t { pins = upsert_pins r.id ps t.pins }

-- The row of `set_id` is there once it is inserted.
unfoldable pub set_pins : Text → List (Text × Bool) → LibraryPinTables → LibraryPinTables
unfolding insert_set upsert_pins
set_pins library [] t = t
set_pins library (p ∷ ps) t =
    upsert_into (set_where library (insert_set library t)) (p ∷ ps) (insert_set library t)

unfoldable pub delete_pin : ℕ → Text → List PinRow → List PinRow
delete_pin id cid pins = keep (λ (p : PinRow). not (p.set_id == id && text_eq p.cid cid)) pins

unfoldable pub delete_each : ℕ → List Text → List PinRow → List PinRow
unfolding delete_pin
delete_each id [] pins = pins
delete_each id (cid ∷ cids) pins = delete_each id cids (delete_pin id cid pins)

-- `delete`.
unfoldable pub drop_pins : Text → List Text → LibraryPinTables → LibraryPinTables
unfolding delete_each
drop_pins library cids t = elim (set_where library t) [
  | none ↦ t
  | some r ↦ record t { pins = delete_each r.id cids t.pins }
]

unfoldable pub settle : Text → LibraryPinTables → LibraryPinTables
unfolding set_clean insert_set
settle library t = set_clean true library (insert_set library t)

unfoldable pub delete_pins : ℕ → List PinRow → List PinRow
delete_pins id pins = keep (λ (p : PinRow). not (p.set_id == id)) pins

unfoldable pub clear : Text → LibraryPinTables → LibraryPinTables
unfolding delete_pins
clear library t = elim (set_where library t) [
  | none ↦ t
  | some r ↦ record { sets = Dict.delete library t.sets; pins = delete_pins r.id t.pins }
]
