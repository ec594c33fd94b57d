-- ===== src/Oplog/Causal/Complete.antt =====
-- A search that fails has looked at every entry that could lead to the ancestor.
use mathlib.Core.List.{reverse}
use record_node.Prelude.{
  ℕ, zero, suc, ◌<◌, Text, text_eq, text_eq_iff, ◌≡◌, refl, true, false, ◌||◌, Option, none, some,
  List, [], ◌∷◌, ◌++◌, ◌⊎◌, inl, inr, arith, Bool-cases, lt→ltb,
}
use record_node.Dict
use record_node.Dict.{Dict}
use record_node.TextSet
use record_node.TextSet.{has-append, has-cons, has-nil, has-reverse}
use record_node.Entry.{VerifiedEntry, next_of, time_of}
use record_node.Oplog.Causal.{Past, direct, further, search, pushed, IsClocked}

module _ (entries : Dict VerifiedEntry) (a : Text) (floor : ℕ) where
  -- What was seen is not the ancestor, and its parents above the floor were seen or are waiting.
  pub record IsExplored (seen stack : List Text) : Type 0 where
    pub other : (x : Text) → TextSet.has x seen ≡ true → text_eq x a ≡ false
    pub parents :
        (x y : Text) (e : VerifiedEntry)
        → TextSet.has x seen ≡ true
        → Dict.get x entries ≡ some e
        → floor < time_of e
        → TextSet.has y (next_of e) ≡ true
        → (TextSet.has y seen || TextSet.has y stack) ≡ true

  IsExplored-skip :
      (x : Text) (seen stack : List Text)
      → TextSet.has x seen ≡ true
      → IsExplored seen (x ∷ stack)
      → IsExplored seen stack
  IsExplored-skip x seen stack old h = record {
    other = h.other;
    parents = λ z y e s g l m.
        ground (arith, h.parents z y e s g l m, has-cons y x stack, text_eq_iff x y);
  }

  has-pushed :
      (y : Text) (e : VerifiedEntry) (o : Option VerifiedEntry)
      → o ≡ some e
      → floor < time_of e
      → TextSet.has y (next_of e) ≡ true
      → TextSet.has y (pushed floor o) ≡ true
  has-pushed y e none found l m = absurd (cc)
  has-pushed y e (some d) found l m =
      ground (arith, has-reverse y (next_of d), lt→ltb floor (time_of e) l)

  IsExplored-visit :
      (x : Text) (seen stack : List Text)
      → text_eq x a ≡ false
      → IsExplored seen (x ∷ stack)
      → IsExplored (x ∷ seen) (pushed floor (Dict.get x entries) ++ stack)
  IsExplored-visit x seen stack different h = record {
    other = λ z s.
        ground
          (arith, h.other z, has-cons z x seen, text_eq_iff x z, text_eq_iff z a, text_eq_iff x a);
    parents = λ z y e s g l m. elim (Bool-cases (text_eq x z)) [
      | inl same ↦
          let o = Dict.get x entries in
          ground (
            arith,
            has-pushed y e o (rw ((text_eq_iff x z).0 same) g) l m,
            has-append y (pushed floor o) stack,
          )
      | inr apart ↦
          let o = Dict.get x entries in
          ground (
            arith,
            h.parents z y e (ground (arith, has-cons z x seen)) g l m,
            has-cons y x seen,
            has-cons y x stack,
            has-append y (pushed floor o) stack,
          )
    ];
  }

  -- At the end nothing waits, and all that waited was seen.
  record Exhausted (seen stack : List Text) : Type 0 where
    visited : List Text
    explored : IsExplored visited []
    started :
        (x : Text)
        → (TextSet.has x seen || TextSet.has x stack) ≡ true
        → TextSet.has x visited ≡ true

  search_exhausts :
      (fuel : ℕ) (seen stack : List Text)
      → IsExplored seen stack
      → search entries a floor fuel seen stack ≡ some false
      → Exhausted seen stack
  unfolding search
  search_exhausts zero seen stack h e = absurd (cc)
  search_exhausts (suc fuel) seen [] h e = record {
    visited = seen;
    explored = h;
    started = λ x m. ground (arith, has-nil x);
  }
  search_exhausts (suc fuel) seen (x ∷ stack) h e = elim (Bool-cases (text_eq x a)) [
    | inl found ↦ absurd (ground arith)
    | inr different ↦ elim (Bool-cases (TextSet.has x seen)) [
      | inl old ↦
          let r =
            search_exhausts fuel seen stack (IsExplored-skip x seen stack old h)
              (rw (different, old) at e) in
          record {
            visited = r.visited;
            explored = r.explored;
            started = λ y m. r.started y (ground (arith, has-cons y x stack, text_eq_iff x y));
          }
      | inr new ↦
          let o = Dict.get x entries in
          let r =
            search_exhausts fuel (x ∷ seen) (pushed floor o ++ stack)
              (IsExplored-visit x seen stack different h) (rw (different, new) at e) in
          record {
            visited = r.visited;
            explored = r.explored;
            started = λ y m. r.started y (
                ground (
                  arith,
                  has-cons y x stack,
                  has-cons y x seen,
                  has-append y (pushed floor o) stack,
                ));
          }
    ]
  ]

-- A walk from an entry back to `a`, the other way round than `Past`.
data Descends (entries : Dict VerifiedEntry) (a : Text) : Text → Type 0 where
  arrived : {x : Text} → x ≡ a → Descends entries a x
  back :
      {x y : Text} (e : VerifiedEntry)
      → Dict.get x entries ≡ some e
      → TextSet.has y (next_of e) ≡ true
      → Descends entries a y
      → Descends entries a x

Past-Descends :
    {entries : Dict VerifiedEntry} {next : List Text} {a h : Text}
    → Past entries next h
    → Descends entries a h
    → (x : Text) × (TextSet.has x next ≡ true) × Descends entries a x
Past-Descends {h} (direct m) w = (h, m, w)
Past-Descends (further {e} p g m) w = Past-Descends p (back e g m w)

module _ (entries : Dict VerifiedEntry) (clocked : IsClocked entries) (a : Text) (d : VerifiedEntry)
    (held : Dict.get a entries ≡ some d) where
  -- Along a walk the clocks fall, so an entry above the ancestor is above its clock.
  Descends-lt :
      {x : Text}
      → Descends entries a x
      → (x ≡ a) ⊎ ((e : VerifiedEntry) × (Dict.get x entries ≡ some e) × (time_of d < time_of e))
  Descends-lt (arrived e) = inl e
  Descends-lt (back {y} e g m w) =
      let (p, gp, below) = clocked.parent _ y e g m in
      inr (
        e,
        g,
        elim (Descends-lt w) [
          | inl same ↦ ground (arith, below, gp, same, held)
          | inr (f, gf, above) ↦ ground (arith, below, gp, gf)
        ],
      )

  -- No seen entry leads to the ancestor once nothing waits.
  unreached :
      {x : Text} (visited : List Text)
      → Descends entries a x
      → IsExplored entries a (time_of d) visited []
      → TextSet.has x visited ≡ true
      → ⊥
  unreached {x} visited (arrived e) h m = ground (arith, h.other x m, text_eq_iff x a)
  unreached {x} visited (back {y} e g m w) h s = elim (Descends-lt (back e g m w)) [
    | inl same ↦ ground (arith, h.other x s, text_eq_iff x a)
    | inr (f, gf, above) ↦
        unreached visited w h
          (ground (arith, h.parents x y f s gf above (ground (arith, g, gf, m)), has-nil y))
  ]

  pub search_complete :
      (fuel : ℕ) (next : List Text)
      → search entries a (time_of d) fuel [] (reverse next) ≡ some false
      → Past entries next a
      → ⊥
  search_complete fuel next failed p =
      let r =
        search_exhausts entries a (time_of d) fuel [] (reverse next)
          (record {
            other = λ x m. absurd (ground (arith, has-nil x));
            parents = λ x y e m g l k. absurd (ground (arith, has-nil x));
          })
          failed in
      let (x, m, w) = Past-Descends p (arrived refl) in
      unreached r.visited w r.explored
        (r.started x (ground (arith, m, has-reverse x next, has-nil x)))
