-- ===== src/Fabric/LibraryPins/Tables.antt =====
-- The pins under an id in library_pins, and that a new set has none.
use record_node.Prelude.{
  ℕ, ◌<◌, Text, text_eq, text_eq_iff, ◌≡◌, refl, Bool, ◌&&◌, Option, none, some, List, [], ◌∷◌,
  ◌==◌, arith, if◌then◌else◌,
}
use record_node.Dict
use record_node.Dict.{Dict}
use record_node.TextSet
use record_node.TextSet.{has-nil, has-cons}
use record_node.Fabric.LibraryPins.{
  SetRow, PinRow, next_id, select_pins, upsert_pin, upsert_pins, delete_pin, delete_each,
  delete_pins,
}

-- The kind of a pin, by the first row of the set that names it.
unfoldable pub pin_kind : ℕ → Text → List PinRow → Option Bool
pin_kind id cid [] = none
pin_kind id cid (p ∷ ps) =
    let rest = pin_kind id cid ps in
    if p.set_id == id && text_eq p.cid cid then some p.recursive else rest

abbrev pub last_kind : Text → List (Text × Bool) → Option Bool → Option Bool
last_kind cid [] kind = kind
last_kind cid ((k, recursive) ∷ rest) kind =
    last_kind cid rest (if text_eq k cid then some recursive else kind)

pub get-select_pins :
    (id : ℕ) (cid : Text) (pins : List PinRow)
    → Dict.get cid (select_pins id pins) ≡ pin_kind id cid pins
unfolding select_pins pin_kind Dict.get
get-select_pins id cid [] = refl
get-select_pins id cid (p ∷ ps) = ground (arith, get-select_pins id cid ps)

pin_kind-upsert_pin :
    (id j : ℕ) (k cid : Text) (recursive : Bool) (pins : List PinRow)
    → pin_kind j cid (upsert_pin id k recursive pins)
      ≡ (if id == j && text_eq k cid then some recursive else pin_kind j cid pins)
unfolding pin_kind upsert_pin
pin_kind-upsert_pin id j k cid recursive [] = refl
pin_kind-upsert_pin id j k cid recursive (p ∷ ps) = ground (
  arith,
  pin_kind-upsert_pin id j k cid recursive ps,
  text_eq_iff p.cid k,
  text_eq_iff p.cid cid,
  text_eq_iff k cid,
)

pub pin_kind-upsert_pins :
    (id j : ℕ) (ps : List (Text × Bool)) (cid : Text) (pins : List PinRow)
    → pin_kind j cid (upsert_pins id ps pins)
      ≡ (if id == j then last_kind cid ps (pin_kind j cid pins) else pin_kind j cid pins)
unfolding upsert_pins
pin_kind-upsert_pins id j [] cid pins = ground arith
pin_kind-upsert_pins id j ((k, r) ∷ ps) cid pins = ground (
  arith,
  pin_kind-upsert_pins id j ps cid (upsert_pin id k r pins),
  pin_kind-upsert_pin id j k cid r pins,
)

pin_kind-delete_pin :
    (id j : ℕ) (k cid : Text) (pins : List PinRow)
    → pin_kind j cid (delete_pin id k pins)
      ≡ (if id == j && text_eq k cid then none else pin_kind j cid pins)
unfolding pin_kind delete_pin
pin_kind-delete_pin id j k cid [] = ground arith
pin_kind-delete_pin id j k cid (p ∷ ps) = ground (
  arith,
  pin_kind-delete_pin id j k cid ps,
  text_eq_iff p.cid k,
  text_eq_iff p.cid cid,
  text_eq_iff k cid,
)

pub pin_kind-delete_each :
    (id j : ℕ) (cids : List Text) (cid : Text) (pins : List PinRow)
    → pin_kind j cid (delete_each id cids pins)
      ≡ (if id == j && TextSet.has cid cids then none else pin_kind j cid pins)
unfolding delete_each
pin_kind-delete_each id j [] cid pins = ground (arith, has-nil cid)
pin_kind-delete_each id j (k ∷ cids) cid pins = ground (
  arith,
  pin_kind-delete_each id j cids cid (delete_pin id k pins),
  pin_kind-delete_pin id j k cid pins,
  has-cons cid k cids,
)

pub pin_kind-delete_pins :
    (id j : ℕ) (cid : Text) (pins : List PinRow)
    → pin_kind j cid (delete_pins id pins) ≡ (if id == j then none else pin_kind j cid pins)
unfolding pin_kind delete_pins
pin_kind-delete_pins id j cid [] = ground arith
pin_kind-delete_pins id j cid (p ∷ ps) = ground (arith, pin_kind-delete_pins id j cid ps)

pub next_id-above :
    (library : Text) (r : SetRow) (sets : Dict SetRow)
    → Dict.get library sets ≡ some r
    → r.id < next_id sets
unfolding Dict.get next_id
next_id-above library r [] e = cc
next_id-above library r ((l, s) ∷ rest) e = ground (arith, next_id-above library r rest)
