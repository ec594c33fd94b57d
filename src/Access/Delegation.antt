-- ===== src/Access/Delegation.antt =====
-- access-control/capability.ts: what `capability_chain` returns in an oplog whose entries are granted.
use record_node.Prelude.{
  ℕ, zero, suc, ◌<◌, Text, lit, ◌≡◌, refl, ap, ◌∙◌, Bool-cases, inl, inr, true, false, Option, some,
  List, [], ◌∷◌, arith, if◌then◌else◌,
}
use record_node.Dict
use record_node.Value.{Fields, get_field}
use record_node.Entry.{VerifiedEntry, time_of}
use record_node.Host.{Host}
use record_node.Oplog.{Oplog, is_write_list_key}
use record_node.Oplog.Granted.{IsGranted}
use record_node.Oplog.Authorised.{AllGranted}
use record_node.Oplog.Verified.{Verified, Verified-AllGranted}
use record_node.Access.Filter.Shapes.{fields_of}
use record_node.Access.Records.{grantee_matches}
use record_node.Access.Capability.{
  capability_value, cited_capability, chain_from, chain_rounds, capability_chain, cons_to, clock_of,
  chain_step,
}

-- A stored capability record.
pub record Stored (oplog : Oplog) (h : Text) (e : VerifiedEntry) (value : Fields) : Type 0 where
  pub held : Dict.get h oplog.entries ≡ some e
  pub is_capability : capability_value e.operation ≡ some value

-- A chain from a capability record up to one that the write list signed, each issued by a key that the
-- next one names.
pub data IsDelegation (oplog : Oplog) : Text → List Text → Type 0 where
  root :
      {h : Text} (e : VerifiedEntry) (value : Fields)
      → Stored oplog h e value
      → is_write_list_key oplog e.entry.key ≡ true
      → IsDelegation oplog h (h ∷ [])
  above :
      {h g : Text} {chain : List Text} (e d : VerifiedEntry) (value wider : Fields)
      → Stored oplog h e value
      → cited_capability e.operation ≡ some g
      → Stored oplog g d wider
      → grantee_matches (fields_of (get_field (lit "grantee") wider)) e.entry.key ≡ true
      → IsDelegation oplog g chain
      → IsDelegation oplog h (h ∷ chain)

module _ (host : Host) (oplog : Oplog) (all : AllGranted host oplog) where
  abbrev Returned : ℕ → Text → Type 0
  Returned fuel h =
      (chain : List Text) × (chain_from oplog fuel (some h) ≡ some chain)
      × IsDelegation oplog h chain

  chain_step-Stored :
      (h : Text) (e : VerifiedEntry) (value : Fields) (rest : Option Text → Option (List Text))
      → Stored oplog h e value
      → chain_step oplog h (Dict.get h oplog.entries) rest ≡ (
          if is_write_list_key oplog e.entry.key
          then some (h ∷ [])
          else cons_to h (rest (cited_capability e.operation)))
  chain_step-Stored h e value rest s = rw s.held (rw (s.is_capability, chain_step) refl)

  chain_from-Stored :
      (fuel : ℕ) (h : Text) (e : VerifiedEntry) (value : Fields)
      → Stored oplog h e value
      → chain_from oplog (suc fuel) (some h) ≡ (
          if is_write_list_key oplog e.entry.key
          then some (h ∷ [])
          else cons_to h (chain_from oplog fuel (cited_capability e.operation)))
  unfolding chain_from
  chain_from-Stored fuel h e value s = chain_step-Stored h e value (chain_from oplog fuel) s

  chain_from-write_list :
      (fuel : ℕ) (h : Text) (e : VerifiedEntry) (value : Fields)
      → Stored oplog h e value
      → is_write_list_key oplog e.entry.key ≡ true
      → chain_from oplog (suc fuel) (some h) ≡ some (h ∷ [])
  chain_from-write_list fuel h e value s w = ground (arith, chain_from-Stored fuel h e value s)

  chain_from-cited :
      (fuel : ℕ) (h : Text) (e : VerifiedEntry) (value : Fields) (g : Text)
      → Stored oplog h e value
      → is_write_list_key oplog e.entry.key ≡ false
      → cited_capability e.operation ≡ some g
      → chain_from oplog (suc fuel) (some h) ≡ cons_to h (chain_from oplog fuel (some g))
  chain_from-cited fuel h e value g s w c = chain_from-Stored fuel h e value s ∙ rw w (rw c refl)

  granted :
      (h : Text) (e : VerifiedEntry)
      → Dict.get h oplog.entries ≡ some e
      → IsGranted oplog e.operation e.entry.key (time_of e)
  granted h e g = unfold AllGranted in (all h e g).0

  chain_from-IsDelegation :
      (fuel : ℕ) (h : Text) (e : VerifiedEntry) (value : Fields)
      → Stored oplog h e value
      → time_of e < fuel
      → Returned fuel h
  chain_from-IsDelegation zero h e value s less = absurd (omega arith)
  chain_from-IsDelegation (suc fuel) h e value s less = elim (granted h e s.held) [
    | inl w ↦ (h ∷ [], chain_from-write_list fuel h e value s w, root e value s w)
    | inr (_, g) ↦ elim (Bool-cases (is_write_list_key oplog e.entry.key)) [
      | inl w ↦ (h ∷ [], chain_from-write_list fuel h e value s w, root e value s w)
      | inr f ↦
          let wider : Stored oplog g.id g.issued g.value = record {
            held = g.held;
            is_capability = g.is_capability;
          } in
          let (chain, r, d) =
            chain_from-IsDelegation fuel g.id g.issued g.value wider (omega (arith, g.earlier)) in
          (
            h ∷ chain,
            chain_from-cited fuel h e value g.id s f g.cites ∙ ap (cons_to h) r,
            above e g.issued value g.value s g.cites wider g.names_key d,
          )
    ]
  ]

  chain_rounds-enough :
      (h : Text) (e : VerifiedEntry) (value : Fields)
      → Stored oplog h e value
      → time_of e < chain_rounds oplog (some h)
  chain_rounds-enough h e value s =
      let counted : clock_of oplog h ≡ time_of e = rw (s.held, clock_of) refl in
      omega (arith, counted)

  capability_chain-AllGranted :
      (h : Text) (e : VerifiedEntry) (value : Fields)
      → Stored oplog h e value
      → IsDelegation oplog h (capability_chain oplog (some h))
  unfolding capability_chain
  capability_chain-AllGranted h e value s =
      let (chain, r, d) =
        chain_from-IsDelegation (chain_rounds oplog (some h)) h e value s
          (chain_rounds-enough h e value s) in
      rw r d

-- In an oplog that merges and appends alone made, the chain of a stored capability record ends, at a
-- record that a key of the write list signed; each record of it is signed by a key that the next one
-- names. The clock of the record is fuel enough.
pub capability_chain-IsDelegation :
    (host : Host) (oplog : Oplog)
    → Verified host oplog
    → (h : Text) (e : VerifiedEntry) (value : Fields) → Stored oplog h e value
    → IsDelegation oplog h (capability_chain oplog (some h))
capability_chain-IsDelegation host oplog v h e value s =
    capability_chain-AllGranted host oplog (Verified-AllGranted host oplog v) h e value s
