-- ===== src/Replication/Orchestrator/Fuel.antt =====
-- The walk of `ready_batch` ends: each round takes one hash off the stack, or enters an entry for the
-- one time that it is entered.
use record_node.Prelude.{
  ℕ, zero, suc, ◌+◌, ◌≤◌, ◌<◌, Text, text_eq_iff, ◌≡◌, refl, ap, Bool, true, false, ◌||◌, ◌⊎◌, inl,
  inr, List, [], ◌∷◌, arith, In, Bool-cases, Option-cases, every, length, if◌then◌else◌,
}
use record_node.Dict
use record_node.Dict.{Dict, get-set}
use record_node.TextSet
use record_node.TextSet.{has-add, has-delete, has-nil}
use record_node.Entry.{HashedEntry}
use record_node.Replication.Orchestrator.{
  next_of, is_ready, push_parents, decided, settled, parents_of, walk, rounds,
}
use record_node.Replication.Orchestrator.Weight.{
  length-push_parents, open_weight, open_weight-enter, open_weight-le, open_weight-leave,
  open_weight-set,
}

module _ (is_landed : Text → Bool) (fetched : Dict HashedEntry) where
  abbrev budget : List Text → List Text → Dict Bool → ℕ
  budget stack on_path ready = length stack + open_weight fetched on_path ready

  pop_budget :
      (k : Text) (stack on_path : List Text) (ready : Dict Bool)
      → budget stack on_path (decided is_landed fetched k ready) < budget (k ∷ stack) on_path ready
  pop_budget k stack on_path ready =
      ground (arith, open_weight-set fetched on_path ready k (is_landed k))

  leave_budget :
      (k : Text) (stack on_path : List Text) (ready : Dict Bool) (b : Bool)
      → budget stack (TextSet.delete k on_path) (Dict.set k b ready)
        < budget (k ∷ stack) on_path ready
  leave_budget k stack on_path ready b = omega (arith, open_weight-leave fetched on_path ready k b)

  abbrev entered : Text → List Text → List Text → Dict Bool → List Text
  entered k stack on_path ready =
      push_parents (parents_of is_landed fetched k) ready (TextSet.add k on_path) (k ∷ stack)

  enter_budget :
      (k : Text) (stack on_path : List Text) (ready : Dict Bool)
      → settled is_landed fetched k ready ≡ false
      → TextSet.has k on_path ≡ false
      → budget (entered k stack on_path ready) (TextSet.add k on_path) ready
        < budget (k ∷ stack) on_path ready
  enter_budget k stack on_path ready open_yet off = elim (Option-cases (Dict.get k fetched)) [
    | inl gone ↦ absurd (ground arith)
    | inr (e, there) ↦
        let named : parents_of is_landed fetched k ≡ next_of e = ground arith in
        let long : length (parents_of is_landed fetched k) ≡ length (next_of e) =
          ap (length {A = Text}) named in
        let new : Dict.has k ready ≡ false = ground arith in
        omega (
          arith,
          length-push_parents (parents_of is_landed fetched k) ready (TextSet.add k on_path)
              (k ∷ stack),
          open_weight-enter fetched on_path ready k e off new there,
          long,
        )
  ]

  walk-fuel :
      (f g : ℕ) (stack on_path : List Text) (ready : Dict Bool)
      → budget stack on_path ready < f
      → budget stack on_path ready < g
      → walk is_landed fetched f stack on_path ready ≡ walk is_landed fetched g stack on_path ready
  unfolding walk
  walk-fuel zero g stack on_path ready p q = absurd (omega arith)
  walk-fuel (suc f) zero stack on_path ready p q = absurd (omega arith)
  walk-fuel (suc f) (suc g) [] on_path ready p q = refl
  walk-fuel (suc f) (suc g) (k ∷ stack) on_path ready p q =
      elim (Bool-cases (settled is_landed fetched k ready)) [
        | inl done ↦
            let less = pop_budget k stack on_path ready in
            rw done (
              walk-fuel f g stack on_path (decided is_landed fetched k ready) (omega arith)
                (omega arith))
        | inr open_yet ↦ elim (Bool-cases (TextSet.has k on_path)) [
          | inl on ↦
              let b = every (is_ready ready) (parents_of is_landed fetched k) in
              let less = leave_budget k stack on_path ready b in
              rw open_yet (
                rw on (
                  walk-fuel f g stack (TextSet.delete k on_path) (Dict.set k b ready) (omega arith)
                    (omega arith)))
          | inr off ↦
              let less = enter_budget k stack on_path ready open_yet off in
              rw open_yet (
                rw off (
                  walk-fuel f g (entered k stack on_path ready) (TextSet.add k on_path) ready
                    (omega arith) (omega arith)))
        ]
      ]

  has-push_parents :
      (h : Text) (ps : List Text) (ready : Dict Bool) (on_path stack : List Text)
      → In h stack
      → In h (push_parents ps ready on_path stack)
  unfolding push_parents
  has-push_parents h [] ready on_path stack m = m
  has-push_parents h (p ∷ ps) ready on_path stack m =
      has-push_parents h ps ready on_path
        (if Dict.has p ready || TextSet.has p on_path then stack else p ∷ stack)
        (elim (Bool-cases (Dict.has p ready || TextSet.has p on_path)) [
          | inl skipped ↦ rw skipped m
          | inr pushed ↦ rw pushed (inr m)
        ])

  -- What was on the stack is decided when the walk ends.
  walk-decides :
      (f : ℕ) (stack on_path : List Text) (ready : Dict Bool) (h : Text)
      → budget stack on_path ready < f
      → In h stack ⊎ (Dict.has h ready ≡ true)
      → Dict.has h (walk is_landed fetched f stack on_path ready) ≡ true
  unfolding walk
  walk-decides zero stack on_path ready h p m = absurd (omega arith)
  walk-decides (suc f) [] on_path ready h p (inl n) = absurd n
  walk-decides (suc f) [] on_path ready h p (inr d) = d
  walk-decides (suc f) (k ∷ stack) on_path ready h p m =
      elim (Bool-cases (settled is_landed fetched k ready)) [
        | inl done ↦
            let less = pop_budget k stack on_path ready in
            rw done (
              walk-decides f stack on_path (decided is_landed fetched k ready) h (omega arith)
                (popped m))
        | inr open_yet ↦ elim (Bool-cases (TextSet.has k on_path)) [
          | inl on ↦
              let b = every (is_ready ready) (parents_of is_landed fetched k) in
              let less = leave_budget k stack on_path ready b in
              rw open_yet (
                rw on (
                  walk-decides f stack (TextSet.delete k on_path) (Dict.set k b ready) h
                    (omega arith) (left b m)))
          | inr off ↦
              let less = enter_budget k stack on_path ready open_yet off in
              rw open_yet (
                rw off (
                  walk-decides f (entered k stack on_path ready) (TextSet.add k on_path) ready h
                    (omega arith) (kept m)))
        ]
      ]
    where
      left :
          (b : Bool)
          → In h (k ∷ stack) ⊎ (Dict.has h ready ≡ true)
          → In h stack ⊎ (Dict.has h (Dict.set k b ready) ≡ true)
      left b (inl (inl e)) = inr (ground (arith, get-set k h b ready, text_eq_iff k h))
      left b (inl (inr n)) = inl n
      left b (inr d) = inr (ground (arith, get-set k h b ready))

      was_decided :
          Dict.has k ready ≡ true
          → In h (k ∷ stack) ⊎ (Dict.has h ready ≡ true)
          → In h stack ⊎ (Dict.has h ready ≡ true)
      was_decided old (inl (inl e)) = inr (rw e old)
      was_decided old (inl (inr n)) = inl n
      was_decided old (inr d) = inr d

      popped :
          In h (k ∷ stack) ⊎ (Dict.has h ready ≡ true)
          → In h stack ⊎ (Dict.has h (decided is_landed fetched k ready) ≡ true)
      popped m' = elim (Bool-cases (Dict.has k ready)) [
        | inl old ↦ rw old (was_decided old m')
        | inr new ↦ rw new (left (is_landed k) m')
      ]

      kept :
          In h (k ∷ stack) ⊎ (Dict.has h ready ≡ true)
          → In h (entered k stack on_path ready) ⊎ (Dict.has h ready ≡ true)
      kept (inl n) = inl (
          has-push_parents h (parents_of is_landed fetched k) ready (TextSet.add k on_path)
            (k ∷ stack) n)
      kept (inr d) = inr d

-- The rounds that `ready_batch` gives the walk from a root are enough: with them the stack runs empty,
-- so the root is decided, and more rounds never change the outcome.
pub walk-ends :
    (is_landed : Text → Bool) (fetched : Dict HashedEntry) (root : Text) (ready : Dict Bool) (f : ℕ)
    → rounds is_landed fetched ≤ f
    → (walk is_landed fetched f (root ∷ []) [] ready
        ≡ walk is_landed fetched (rounds is_landed fetched) (root ∷ []) [] ready)
      × (Dict.has root (walk is_landed fetched (rounds is_landed fetched) (root ∷ []) [] ready)
          ≡ true)
walk-ends is_landed fetched root ready f h =
    let small = open_weight-le fetched [] ready in
    (
      walk-fuel is_landed fetched f (rounds is_landed fetched) (root ∷ []) [] ready (omega arith)
          (omega arith),
      walk-decides is_landed fetched (rounds is_landed fetched) (root ∷ []) [] ready root
          (omega arith) (inl (inl refl)),
    )
