-- ===== src/Fabric/LibraryPins/Separate.antt =====
-- No two libraries have a set of the same rowid, and no pin is under an id that no library has.
use record_node.Prelude.{
  ℕ, Text, text_eq, text_eq_iff, ◌≡◌, refl, ◌⊎◌, inl, inr, Bool, false, ◌∙◌, none, some, List, ◌==◌,
  arith, Bool-cases,
}
use record_node.Dict
use record_node.Dict.{Dict, get-set, get-delete}
use record_node.Fabric.LibraryPins.{
  SetRow, LibraryPinTables, next_id, upsert_pins, delete_each, delete_pins,
}
use record_node.Fabric.LibraryPins.Tables.{
  pin_kind, pin_kind-upsert_pins, pin_kind-delete_each, pin_kind-delete_pins, next_id-above,
}

abbrev pub IsOwned : ℕ → Dict SetRow → Type 0
IsOwned id sets = (l : Text) × (r : SetRow) × (Dict.get l sets ≡ some r) × (r.id ≡ id)

pub record IsSeparate (t : LibraryPinTables) : Type 0 where
  pub apart :
      (a b : Text) (r s : SetRow)
      → Dict.get a t.sets ≡ some r
      → Dict.get b t.sets ≡ some s
      → r.id ≡ s.id
      → a ≡ b
  pub owned : (id : ℕ) (cid : Text) → (pin_kind id cid t.pins ≡ none) ⊎ IsOwned id t.sets

-- A new row has an id of its own.
insert-apart :
    (library a b : Text) (sets : Dict SetRow) (r s : SetRow)
    → ((x y : Text) (p q : SetRow)
        → Dict.get x sets ≡ some p
        → Dict.get y sets ≡ some q
        → p.id ≡ q.id
        → x ≡ y)
    → Dict.get a (Dict.set library (record { id = next_id sets; clean = false }) sets) ≡ some r
    → Dict.get b (Dict.set library (record { id = next_id sets; clean = false }) sets) ≡ some s
    → r.id ≡ s.id
    → a ≡ b
insert-apart library a b sets r s apart ga gb same =
    let row : SetRow = record { id = next_id sets; clean = false } in
    ground (
      arith,
      get-set library a row sets,
      get-set library b row sets,
      text_eq_iff library a,
      text_eq_iff library b,
      next_id-above a r sets,
      next_id-above b s sets,
      apart a b r s,
    )

-- An update leaves every id as it is.
update-apart :
    (library a b : Text) (sets : Dict SetRow) (old new r s : SetRow)
    → Dict.get library sets ≡ some old
    → new.id ≡ old.id
    → ((x y : Text) (p q : SetRow)
        → Dict.get x sets ≡ some p
        → Dict.get y sets ≡ some q
        → p.id ≡ q.id
        → x ≡ y)
    → Dict.get a (Dict.set library new sets) ≡ some r
    → Dict.get b (Dict.set library new sets) ≡ some s
    → r.id ≡ s.id
    → a ≡ b
update-apart library a b sets old new r s there kept apart ga gb same = ground (
  arith,
  get-set library a new sets,
  get-set library b new sets,
  text_eq_iff library a,
  text_eq_iff library b,
  apart a b r s,
  apart library b old s,
  apart a library r old,
)

set-IsOwned :
    (library : Text) (new : SetRow) (id : ℕ) (sets : Dict SetRow)
    → ((old : SetRow) → Dict.get library sets ≡ some old → new.id ≡ old.id)
    → IsOwned id sets
    → IsOwned id (Dict.set library new sets)
set-IsOwned library new id sets kept (l, r, there, same) = elim (Bool-cases (text_eq library l)) [
  | inl here ↦
      let e : library ≡ l = (text_eq_iff library l).0 here in
      (l, new, get-set library l new sets ∙ rw here refl, kept r (rw e there) ∙ same)
  | inr elsewhere ↦ (l, r, get-set library l new sets ∙ rw elsewhere there, same)
]

pub insert-IsSeparate :
    (library : Text) (t : LibraryPinTables)
    → Dict.get library t.sets ≡ none
    → IsSeparate t
    → IsSeparate (record t {
      sets = Dict.set library (record { id = next_id t.sets; clean = false }) t.sets;
    })
insert-IsSeparate library t missing i =
    let row : SetRow = record { id = next_id t.sets; clean = false } in
    record {
      apart = λ a b r s. insert-apart library a b t.sets r s i.apart;
      owned = λ id cid. elim (i.owned id cid) [
        | inl free ↦ inl free
        | inr o ↦ inr (set-IsOwned library row id t.sets (λ old there. cc) o)
      ];
    }

pub update-IsSeparate :
    (library : Text) (clean : Bool) (old : SetRow) (t : LibraryPinTables)
    → Dict.get library t.sets ≡ some old
    → IsSeparate t
    → IsSeparate (record t { sets = Dict.set library (record old { clean = clean }) t.sets })
update-IsSeparate library clean old t there i =
    let new : SetRow = record old { clean = clean } in
    record {
      apart = λ a b r s. update-apart library a b t.sets old new r s there refl i.apart;
      owned = λ id cid. elim (i.owned id cid) [
        | inl free ↦ inl free
        | inr o ↦ inr (set-IsOwned library new id t.sets (λ other e. ground (arith, there, e)) o)
      ];
    }

pub upsert-IsSeparate :
    (library : Text) (row : SetRow) (ps : List (Text × Bool)) (t : LibraryPinTables)
    → Dict.get library t.sets ≡ some row
    → IsSeparate t
    → IsSeparate (record t { pins = upsert_pins row.id ps t.pins })
upsert-IsSeparate library row ps t there i = record {
  apart = i.apart;
  owned = λ id cid. elim (Bool-cases (row.id == id)) [
    | inl here ↦ inr (library, row, there, ground arith)
    | inr elsewhere ↦ elim (i.owned id cid) [
      | inl free ↦ inl (pin_kind-upsert_pins row.id id ps cid t.pins ∙ rw elsewhere free)
      | inr o ↦ inr o
    ]
  ];
}

pub drop-IsSeparate :
    (row : SetRow) (cids : List Text) (t : LibraryPinTables)
    → IsSeparate t
    → IsSeparate (record t { pins = delete_each row.id cids t.pins })
drop-IsSeparate row cids t i = record {
  apart = i.apart;
  owned = λ id cid. elim (i.owned id cid) [
    | inl free ↦ inl (ground (arith, pin_kind-delete_each row.id id cids cid t.pins))
    | inr o ↦ inr o
  ];
}

-- The pins of a deleted set are gone, so that its id can be used again.
pub clear-IsSeparate :
    (library : Text) (row : SetRow) (t : LibraryPinTables)
    → Dict.get library t.sets ≡ some row
    → IsSeparate t
    → IsSeparate (record { sets = Dict.delete library t.sets; pins = delete_pins row.id t.pins })
clear-IsSeparate library row t there i = record {
  apart = λ a b r s ga gb same.
      ground (arith, get-delete library a t.sets, get-delete library b t.sets, i.apart a b r s);
  owned = λ id cid. elim (Bool-cases (row.id == id)) [
    | inl here ↦ inl (pin_kind-delete_pins row.id id cid t.pins ∙ rw here refl)
    | inr elsewhere ↦ elim (i.owned id cid) [
      | inl free ↦ inl (pin_kind-delete_pins row.id id cid t.pins ∙ rw elsewhere free)
      | inr (l, r, e, same) ↦ inr (
        l,
        r,
        ground
            (arith, get-delete library l t.sets, text_eq_iff library l, there, e, same, elsewhere),
        same,
      )
    ]
  ];
}
