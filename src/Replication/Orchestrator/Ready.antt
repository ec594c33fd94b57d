-- ===== src/Replication/Orchestrator/Ready.antt =====
-- A batch is closed: what an entry of it names has landed, or is in the batch.
use record_node.Prelude.{
  ℕ, zero, suc, Text, text_eq, text_eq_iff, ◌≡◌, sym, ap, Bool, true, false, ◌⊎◌, inl, inr, some,
  List, [], ◌∷◌, arith, In, Bool-cases, Option-cases, every, keep, if◌then◌else◌,
}
use mathlib.Core.Logic.{⊎_elim}
use mathlib.Core.Path.{subst}
use record_node.Dict
use record_node.Dict.{Dict, get-set}
use record_node.Dict.Distinct.{IsDistinct, In-values_of_get, get_of_In-values}
use record_node.TextSet
use record_node.Entry.{HashedEntry}
use record_node.Replication.Orchestrator.{
  next_of, is_ready, decided, settled, parents_of, walk, walk_roots, rounds, ready_batch,
}

every-In :
    (p : Text → Bool) (xs : List Text) → every p xs ≡ true → (x : Text) → In x xs → p x ≡ true
every-In p [] h x m = absurd m
every-In p (y ∷ ys) h x (inl e) = ground (arith, ap p e)
every-In p (y ∷ ys) h x (inr m) = ground (arith, every-In p ys (ground arith) x m)

module _ (is_landed : Text → Bool) (fetched : Dict HashedEntry) where
  -- What is decided to be ready has landed, or is fetched and all its parents are decided so.
  abbrev IsClosed : Dict Bool → Type 0
  IsClosed ready =
      (h : Text)
      → is_ready ready h ≡ true
      → (is_landed h ≡ true)
        ⊎ ((Dict.has h fetched ≡ true)
            × ((p : Text) → In p (parents_of is_landed fetched h) → is_ready ready p ≡ true))

  is_ready-set :
      (k h : Text) (b : Bool) (ready : Dict Bool)
      → is_ready (Dict.set k b ready) h ≡ (if text_eq k h then b else is_ready ready h)
  unfolding is_ready
  is_ready-set k h b ready = ground (arith, get-set k h b ready)

  -- A decision is made once.
  still_ready :
      (k h : Text) (b : Bool) (ready : Dict Bool)
      → Dict.has k ready ≡ false
      → is_ready ready h ≡ true
      → is_ready (Dict.set k b ready) h ≡ true
  unfolding is_ready
  still_ready k h b ready new r = ground (arith, get-set k h b ready, text_eq_iff k h)

  decided-IsClosed :
      (k : Text) (ready : Dict Bool) → IsClosed ready → IsClosed (decided is_landed fetched k ready)
  decided-IsClosed k ready c = elim (Bool-cases (Dict.has k ready)) [
    | inl old ↦ rw old c
    | inr new ↦ rw new (λ h r. elim (Bool-cases (text_eq k h)) [
      | inl same ↦ inl (ground (arith, is_ready-set k h (is_landed k) ready, text_eq_iff k h))
      | inr other ↦
          let before : is_ready ready h ≡ true =
            ground (arith, is_ready-set k h (is_landed k) ready) in
          ⊎_elim inl (λ ps. inr (ps.0, λ p m. still_ready k p (is_landed k) ready new (ps.1 p m)))
            (c h before)
    ])
  ]

  leave-IsClosed :
      (k : Text) (ready : Dict Bool)
      → Dict.has k ready ≡ false
      → Dict.has k fetched ≡ true
      → IsClosed ready
      → IsClosed (Dict.set k (every (is_ready ready) (parents_of is_landed fetched k)) ready)
  leave-IsClosed k ready new there c h r = elim (Bool-cases (text_eq k h)) [
    | inl same ↦
        let all = every (is_ready ready) (parents_of is_landed fetched k) in
        let e = (text_eq_iff k h).0 same in
        let yea : all ≡ true = ground (arith, is_ready-set k h all ready) in
        inr (
          rw e at there,
          λ p m.
              still_ready k p all ready new
                (every-In (is_ready ready) (parents_of is_landed fetched k) yea p (rw e m)),
        )
    | inr other ↦
        let all = every (is_ready ready) (parents_of is_landed fetched k) in
        let before : is_ready ready h ≡ true = ground (arith, is_ready-set k h all ready) in
        ⊎_elim inl (λ ps. inr (ps.0, λ p m. still_ready k p all ready new (ps.1 p m))) (c h before)
  ]

  walk-IsClosed :
      (fuel : ℕ) (stack on_path : List Text) (ready : Dict Bool)
      → IsClosed ready
      → IsClosed (walk is_landed fetched fuel stack on_path ready)
  unfolding walk
  walk-IsClosed zero stack on_path ready c = c
  walk-IsClosed (suc fuel) [] on_path ready c = c
  walk-IsClosed (suc fuel) (k ∷ stack) on_path ready c =
      elim (Bool-cases (settled is_landed fetched k ready)) [
        | inl done ↦ rw done (
            walk-IsClosed fuel stack on_path (decided is_landed fetched k ready)
              (decided-IsClosed k ready c))
        | inr open_yet ↦
            let new : Dict.has k ready ≡ false = ground arith in
            elim (Bool-cases (TextSet.has k on_path)) [
              | inl on ↦ rw open_yet (
                  rw on (
                    walk-IsClosed fuel stack (TextSet.delete k on_path) _
                      (leave-IsClosed k ready new (ground arith) c)))
              | inr off ↦
                  rw open_yet (rw off (walk-IsClosed fuel _ (TextSet.add k on_path) ready c))
            ]
      ]

  walk_roots-IsClosed :
      (roots : List Text) (ready : Dict Bool)
      → IsClosed ready
      → IsClosed (walk_roots is_landed fetched roots ready)
  unfolding walk_roots
  walk_roots-IsClosed [] ready c = c
  walk_roots-IsClosed (r ∷ rs) ready c =
      walk_roots-IsClosed rs _ (walk-IsClosed (rounds is_landed fetched) (r ∷ []) [] ready c)

In-keep :
    (p : HashedEntry → Bool) (x : HashedEntry) (xs : List HashedEntry)
    → In x xs
    → p x ≡ true
    → In x (keep p xs)
In-keep p x [] m h = m
In-keep p x (y ∷ ys) (inl e) h = let here : p y ≡ true = rw e at h in rw here (inl e)
In-keep p x (y ∷ ys) (inr m) h = elim (Bool-cases (p y)) [
  | inl kept ↦ rw kept (inr (In-keep p x ys m h))
  | inr left ↦ rw left (In-keep p x ys m h)
]

pub keep-In :
    (p : HashedEntry → Bool) (x : HashedEntry) (xs : List HashedEntry)
    → In x (keep p xs)
    → (In x xs) × (p x ≡ true)
keep-In p x [] m = absurd m
keep-In p x (y ∷ ys) m = elim (Bool-cases (p y)) [
  | inl kept ↦
      let m' : In x (y ∷ keep p ys) = rw kept at m in
      ⊎_elim (λ e. (inl e, rw e kept)) (λ n. let (i, q) = keep-In p x ys n in (inr i, q)) m'
  | inr left ↦
      let m' : In x (keep p ys) = rw left at m in let (i, q) = keep-In p x ys m' in (inr i, q)
]

-- The fetched entries stand under their hashes.
pub record IsKeyed (fetched : Dict HashedEntry) : Type 0 where
  pub distinct : IsDistinct fetched
  pub hashed : (k : Text) (e : HashedEntry) → Dict.get k fetched ≡ some e → e.hash ≡ k

pub In-get :
    (fetched : Dict HashedEntry) (e : HashedEntry)
    → IsKeyed fetched
    → In e (Dict.values fetched)
    → Dict.get e.hash fetched ≡ some e
In-get fetched e k m =
    let (h, g) = get_of_In-values e fetched k.distinct m in
    subst (λ j. Dict.get j fetched ≡ some e) (sym (k.hashed h e g)) g

-- Each parent of an entry in a batch has landed or is in the batch, if the fetched entries stand under
-- their hashes: so a merge of the batch never lacks an ancestor.
pub ready_batch-closed :
    (is_landed : Text → Bool) (fetched : Dict HashedEntry) (e : HashedEntry) (p : Text)
    → IsKeyed fetched
    → In e (ready_batch is_landed fetched)
    → is_landed e.hash ≡ false
    → In p (next_of e)
    → (is_landed p ≡ true)
      ⊎ ((d : HashedEntry) × (d.hash ≡ p) × In d (ready_batch is_landed fetched))
unfolding ready_batch
ready_batch-closed is_landed fetched e p k m new n =
    let ready = walk_roots is_landed fetched (Dict.keys fetched) [] in
    let closed =
      walk_roots-IsClosed is_landed fetched (Dict.keys fetched) []
        (λ h r. absurd (unfold is_ready Dict.get in ground arith)) in
    let test = λ (d : HashedEntry). is_ready ready d.hash in
    let (i, r) = keep-In test e (Dict.values fetched) m in
    let found = In-get fetched e k i in
    elim (closed e.hash r) [
      | inl landed ↦ absurd (ground arith)
      | inr (_, parents) ↦
          let named : parents_of is_landed fetched e.hash ≡ next_of e = ground arith in
          let ready_p = parents p (subst (In p) (sym named) n) in
          elim (closed p ready_p) [
            | inl landed ↦ inl landed
            | inr (there, _) ↦ elim (Option-cases (Dict.get p fetched)) [
              | inl gone ↦ absurd (ground arith)
              | inr (d, g) ↦
                  let hash = k.hashed p d g in
                  inr (
                    d,
                    hash,
                    In-keep test d (Dict.values fetched) (In-values_of_get p d fetched g)
                        (rw hash ready_p),
                  )
            ]
          ]
    ]

pub In-ready_batch :
    (is_landed : Text → Bool) (fetched : Dict HashedEntry) (e : HashedEntry)
    → IsKeyed fetched
    → In e (ready_batch is_landed fetched)
    → Dict.get e.hash fetched ≡ some e
unfolding ready_batch
In-ready_batch is_landed fetched e k m =
    let test =
      λ (d : HashedEntry). is_ready (walk_roots is_landed fetched (Dict.keys fetched) []) d.hash in
    In-get fetched e k (keep-In test e (Dict.values fetched) m).0
