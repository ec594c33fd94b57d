-- ===== src/Fabric/LibraryPins/View.antt =====
-- Each library sees its own calls alone: whether the last of them left it clean, and for each CID the
-- last that named it.
use record_node.Prelude.{
  Text, text_eq, ◌≡◌, refl, sym, ◌∙◌, inl, inr, Bool, true, false, Option, none, some, List, [],
  ◌∷◌, arith, Option-cases, Bool-cases,
}
use record_node.Dict
use record_node.Dict.{Dict, get-set, get-delete}
use record_node.Fabric.LibraryPins.{
  SetRow, LibraryPinTables, set_where, load, loaded, begin, set_clean, insert_set, set_pins,
  drop_pins, settle, clear,
}
use record_node.Fabric.LibraryPins.Tables.{pin_kind, get-select_pins}
use record_node.Fabric.LibraryPins.Separate.{}
use record_node.Fabric.LibraryPins.Calls.{
  Call, begins, sets, drops, settles, clears, apply, apply_all, View, see, see_all, empty_tables,
  nothing_recorded,
}
use record_node.Fabric.LibraryPins.Shown.{
  Shows, clean_in, kind_in, insert_set-HasRow, insert_set-Shows, update-Shows, upsert-Shows,
  drop-Shows, clear-Shows, missing-Shows,
}

apply-Shows :
    (library : Text) (c : Call) (t : LibraryPinTables) (v : View)
    → Shows library t v
    → Shows library (apply c t) (see library c v)
unfolding begin set_clean set_pins drop_pins settle clear
apply-Shows library (begins l) t v s = elim (Option-cases (Dict.get l t.sets)) [
  | inl missing ↦
      rw (begin, set_clean, missing)
        (missing-Shows library l t v (see library (begins l) v) missing (λ e. rw e refl)
          (λ e. rw e (λ c. refl, λ cid h. h)) s)
  | inr (r, there) ↦ rw (begin, set_clean, there) (update-Shows library l false r t v there s)
]
apply-Shows library (sets l []) t v s = elim (Bool-cases (text_eq l library)) [
  | inl here ↦ rw here (record { clean = s.clean; kind = s.kind; separate = s.separate })
  | inr elsewhere ↦ rw elsewhere s
]
apply-Shows library (sets l (p ∷ ps)) t v s =
    let (r, there) = insert_set-HasRow l t in
    rw there (
      upsert-Shows library l r (p ∷ ps) (insert_set l t) v there (insert_set-Shows library l t v s))
apply-Shows library (drops l cids) t v s = elim (Option-cases (Dict.get l t.sets)) [
  | inl missing ↦
      rw (drop_pins, missing)
        (missing-Shows library l t v (see library (drops l cids) v) missing (λ e. rw e refl)
          (λ e. rw e (λ c. c, λ cid h. ground arith)) s)
  | inr (r, there) ↦ rw (drop_pins, there) (drop-Shows library l r cids t v there s)
]
apply-Shows library (settles l) t v s =
    let (r, there) = insert_set-HasRow l t in
    rw (settle, set_clean, there)
      (update-Shows library l true r (insert_set l t) v there (insert_set-Shows library l t v s))
apply-Shows library (clears l) t v s = elim (Option-cases (Dict.get l t.sets)) [
  | inl missing ↦
      rw (clear, missing)
        (missing-Shows library l t v (see library (clears l) v) missing (λ e. rw e refl)
          (λ e. rw e (λ c. refl, λ cid h. refl)) s)
  | inr (r, there) ↦ rw (clear, there) (clear-Shows library l r t v there s)
]

apply_all-Shows :
    (library : Text) (cs : List Call) (t : LibraryPinTables) (v : View)
    → Shows library t v
    → Shows library (apply_all cs t) (see_all library cs v)
apply_all-Shows library [] t v s = s
apply_all-Shows library (c ∷ cs) t v s =
    apply_all-Shows library cs (apply c t) (see library c v) (apply-Shows library c t v s)

-- What a load returns agrees with a view: nothing unless it is clean, and its pins if it is.
abbrev pub LoadsAs : Option (Dict Bool) → View → Type 0
LoadsAs none v = v.clean ≡ false
LoadsAs (some pins) v = (v.clean ≡ true) × ((cid : Text) → Dict.get cid pins ≡ v.kind cid)

by_row :
    (library : Text) (t : LibraryPinTables) (v : View) (row : Option SetRow)
    → clean_in row ≡ v.clean
    → ((cid : Text) → kind_in row cid t.pins ≡ v.kind cid)
    → LoadsAs (loaded row t) v
by_row library t v none c k = sym c
by_row library t v (some r) c k = elim (Bool-cases r.clean) [
  | inl clean ↦ rw clean (sym c ∙ clean, λ cid. get-select_pins r.id cid t.pins ∙ k cid)
  | inr dirty ↦ rw dirty (sym c ∙ dirty)
]

-- After any calls for any libraries on an empty table, `load` of a library depends on the calls for that
-- library alone: it returns a set exactly if the last of its `begin`, `settle` and `clear` calls is a
-- `settle`, and then each CID has the kind of the last call that set it, unless a later one deleted or
-- cleared it.
pub load-LoadsAs :
    (library : Text) (cs : List Call)
    → LoadsAs (load library (apply_all cs empty_tables)) (see_all library cs nothing_recorded)
unfolding load Dict.get pin_kind
load-LoadsAs library cs =
    let s = apply_all-Shows library cs empty_tables nothing_recorded (record {
      clean = refl;
      kind = λ cid. refl;
      separate = record { apart = λ a b r s ga gb same. cc; owned = λ id cid. inl refl };
    }) in
    by_row library (apply_all cs empty_tables) (see_all library cs nothing_recorded)
      (set_where library (apply_all cs empty_tables)) s.clean s.kind
