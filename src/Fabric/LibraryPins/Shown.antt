-- ===== src/Fabric/LibraryPins/Shown.antt =====
-- How each change to the tables changes what they show a library.
use record_node.Prelude.{
  ℕ, Text, text_eq, text_eq_iff, ◌≡◌, refl, sym, ap, ◌∙◌, inl, inr, Bool, true, false, Option, none,
  some, List, ◌==◌, arith, if◌then◌else◌, Option-cases, Bool-cases,
}
use mathlib.Core.Path.{subst}
use record_node.Dict
use record_node.Dict.{Dict, get-set, get-delete}
use record_node.TextSet
use record_node.Fabric.LibraryPins.{
  SetRow, PinRow, LibraryPinTables, next_id, set_where, insert_set, upsert_pins, delete_each,
  delete_pins,
}
use record_node.Fabric.LibraryPins.Tables.{
  pin_kind, last_kind, pin_kind-upsert_pins, pin_kind-delete_each, pin_kind-delete_pins,
  next_id-above,
}
use record_node.Fabric.LibraryPins.Separate.{
  IsSeparate, insert-IsSeparate, update-IsSeparate, upsert-IsSeparate, drop-IsSeparate,
  clear-IsSeparate,
}
use record_node.Fabric.LibraryPins.Calls.{sets, drops, clears, View, see}

abbrev pub clean_in : Option SetRow → Bool
clean_in none = false
clean_in (some r) = r.clean

abbrev pub kind_in : Option SetRow → Text → List PinRow → Option Bool
kind_in none cid pins = none
kind_in (some r) cid pins = pin_kind r.id cid pins

-- The tables show a library what its view says.
pub record Shows (library : Text) (t : LibraryPinTables) (v : View) : Type 0 where
  pub clean : clean_in (set_where library t) ≡ v.clean
  pub kind : (cid : Text) → kind_in (set_where library t) cid t.pins ≡ v.kind cid
  pub separate : IsSeparate t

-- There is a row of the library.
abbrev pub HasRow : Text → LibraryPinTables → Type 0
HasRow l t = (row : SetRow) × (Dict.get l t.sets ≡ some row)

pub insert_set-HasRow : (l : Text) (t : LibraryPinTables) → HasRow l (insert_set l t)
unfolding insert_set
insert_set-HasRow l t = elim (Option-cases (Dict.get l t.sets)) [
  | inl missing ↦
      let row : SetRow = record { id = next_id t.sets; clean = false } in
      (row, ground (arith, get-set l l row t.sets, text_eq_iff l l))
  | inr (r, there) ↦ (r, rw (insert_set, there) there)
]

-- No pin is under the id of a new row.
new_row-IsFree :
    (cid : Text) (t : LibraryPinTables) → IsSeparate t → pin_kind (next_id t.sets) cid t.pins ≡ none
new_row-IsFree cid t i = elim (i.owned (next_id t.sets) cid) [
  | inl free ↦ free
  | inr (l, r, there, same) ↦ absurd (omega (arith, next_id-above l r t.sets there, same))
]

new_row-Shows :
    (library l : Text) (t : LibraryPinTables) (v : View)
    → Dict.get l t.sets ≡ none
    → Shows library t v
    → Shows library
        (record t { sets = Dict.set l (record { id = next_id t.sets; clean = false }) t.sets })
        v
new_row-Shows library l t v missing s =
    let row : SetRow = record { id = next_id t.sets; clean = false } in
    record {
      clean = ground (arith, get-set l library row t.sets, text_eq_iff l library, s.clean);
      kind = λ cid. ground (
        arith,
        get-set l library row t.sets,
        text_eq_iff l library,
        s.kind cid,
        new_row-IsFree cid t s.separate,
      );
      separate = insert-IsSeparate l t missing s.separate;
    }

pub insert_set-Shows :
    (library l : Text) (t : LibraryPinTables) (v : View)
    → Shows library t v
    → Shows library (insert_set l t) v
unfolding insert_set
insert_set-Shows library l t v s = elim (Option-cases (Dict.get l t.sets)) [
  | inl missing ↦ rw (insert_set, missing) (new_row-Shows library l t v missing s)
  | inr (r, there) ↦ rw (insert_set, there) s
]

pub update-Shows :
    (library l : Text) (clean : Bool) (old : SetRow) (t : LibraryPinTables) (v : View)
    → Dict.get l t.sets ≡ some old
    → Shows library t v
    → Shows library
        (record t { sets = Dict.set l (record old { clean = clean }) t.sets })
        (if text_eq l library then record v { clean = clean } else v)
update-Shows library l clean old t v there s =
    let new : SetRow = record old { clean = clean } in
    record {
      clean = ground (arith, get-set l library new t.sets, text_eq_iff l library, s.clean);
      kind = λ cid. ground (arith, get-set l library new t.sets, text_eq_iff l library, s.kind cid);
      separate = update-IsSeparate l clean old t there s.separate;
    }

-- A change to the pins under one library's id is a change for that library alone.
kind_in-changed :
    (library l cid : Text) (row : SetRow) (t : LibraryPinTables) (after : List PinRow)
    (change : Option Bool → Option Bool)
    → IsSeparate t
    → Dict.get l t.sets ≡ some row
    → ((id : ℕ)
        → pin_kind id cid after
          ≡ (if row.id == id then change (pin_kind id cid t.pins) else pin_kind id cid t.pins))
    → kind_in (set_where library t) cid after ≡ (
        if text_eq l library
        then change (kind_in (set_where library t) cid t.pins)
        else kind_in (set_where library t) cid t.pins)
kind_in-changed library l cid row t after change i there changed =
    elim (Option-cases (Dict.get library t.sets)) [
      | inl missing ↦ ground (arith, text_eq_iff l library, missing, there)
      | inr (r, found) ↦ ground (
        arith,
        changed r.id,
        text_eq_iff l library,
        found,
        there,
        i.apart l library row r there found,
      )
    ]

pub upsert-Shows :
    (library l : Text) (row : SetRow) (ps : List (Text × Bool)) (t : LibraryPinTables) (v : View)
    → Dict.get l t.sets ≡ some row
    → Shows library t v
    → Shows library (record t { pins = upsert_pins row.id ps t.pins }) (see library (sets l ps) v)
upsert-Shows library l row ps t v there s = record {
  clean = ground (arith, s.clean);
  kind = λ cid. ground (
    arith,
    s.kind cid,
    kind_in-changed library l cid row t (upsert_pins row.id ps t.pins) (last_kind cid ps) s.separate
        there (λ id. pin_kind-upsert_pins row.id id ps cid t.pins),
  );
  separate = upsert-IsSeparate l row ps t there s.separate;
}

pub drop-Shows :
    (library l : Text) (row : SetRow) (cids : List Text) (t : LibraryPinTables) (v : View)
    → Dict.get l t.sets ≡ some row
    → Shows library t v
    → Shows library
        (record t { pins = delete_each row.id cids t.pins })
        (see library (drops l cids) v)
drop-Shows library l row cids t v there s = record {
  clean = ground (arith, s.clean);
  kind = λ cid. ground (
    arith,
    s.kind cid,
    kind_in-changed library l cid row t (delete_each row.id cids t.pins)
        (λ kind. if TextSet.has cid cids then none else kind) s.separate there
        (λ id. ground (arith, pin_kind-delete_each row.id id cids cid t.pins)),
  );
  separate = drop-IsSeparate row cids t s.separate;
}

pub clear-Shows :
    (library l : Text) (row : SetRow) (t : LibraryPinTables) (v : View)
    → Dict.get l t.sets ≡ some row
    → Shows library t v
    → Shows library
        (record { sets = Dict.delete l t.sets; pins = delete_pins row.id t.pins })
        (see library (clears l) v)
clear-Shows library l row t v there s = record {
  clean = ground (arith, get-delete l library t.sets, s.clean);
  kind = λ cid. ground (
    arith,
    s.kind cid,
    get-delete l library t.sets,
    kind_in-changed library l cid row t (delete_pins row.id t.pins) (λ kind. none) s.separate there
        (λ id. pin_kind-delete_pins row.id id cid t.pins),
  );
  separate = clear-IsSeparate l row t there s.separate;
}

-- A library without a row has a view with nothing in it.
pub missing-Shows :
    (library l : Text) (t : LibraryPinTables) (v w : View)
    → Dict.get l t.sets ≡ none
    → (text_eq l library ≡ false → w ≡ v)
    → (text_eq l library ≡ true
        → (v.clean ≡ false → w.clean ≡ false)
          × ((cid : Text) → v.kind cid ≡ none → w.kind cid ≡ none))
    → Shows library t v
    → Shows library t w
missing-Shows library l t v w missing other same s = elim (Bool-cases (text_eq l library)) [
  | inl here ↦
      let e : l ≡ library = (text_eq_iff l library).0 here in
      let gone : Dict.get library t.sets ≡ none = ap (λ x. Dict.get x t.sets) (sym e) ∙ missing in
      record {
        clean = rw gone (sym ((same here).0 (sym s.clean ∙ rw gone refl)));
        kind = λ cid. rw gone (sym ((same here).1 cid (sym (s.kind cid) ∙ rw gone refl)));
        separate = s.separate;
      }
  | inr elsewhere ↦ subst (Shows library t) (sym (other elsewhere)) s
]
