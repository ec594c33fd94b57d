-- ===== src/Replication/Traversal.antt =====
-- replication/traversal.ts: the fetch traversal as a state machine, one step for each call and for each
-- answer or timeout of a fetch. Waiters and the change callback are not modelled.
pub mod Invariant
pub mod Steps
pub mod Runs
use record_node.Prelude.{
  ℕ, zero, suc, ◌+◌, Text, Bytes, text_eq, Bool, true, false, ◌&&◌, ◌||◌, not, Option, none, some,
  List, [], ◌∷◌, ◌++◌, ◌==◌, if◌then◌else◌, ltb, length, keep,
}
use record_node.Dict
use record_node.Dict.{Dict}
use record_node.TextSet
use record_node.Result.{Result, ok, err, ErrorCode}

-- The pointers of a verified entry.
pub record TraversedEntry : Type 0 where
  pub next : List Text
  pub refs : List Text

-- A fetch in flight is known by the number of its start, since a later fetch of its hash is another.
pub record Traversal : Type 0 where
  pub enqueued : List Text
  pub fetched : List Text
  pub unresolved : List Text
  pub rejected : Dict ErrorCode
  pub in_flight : Dict ℕ
  pub started : ℕ
  pub queue : List Text
  pub paused : Bool

unfoldable pub create_traversal : Traversal
create_traversal = record {
  enqueued = [];
  fetched = [];
  unresolved = [];
  rejected = [];
  in_flight = [];
  started = 0;
  queue = [];
  paused = false;
}

-- `verify`, the hashes that are in the local oplog at this moment, and the bound on fetches in flight.
pub record Setting : Type 0 where
  pub verify : Text → Bytes → Result TraversedEntry
  pub is_landed : Text → Bool
  pub concurrency : ℕ

unfoldable pub start : Text → Traversal → Traversal
start hash t = record t { in_flight = Dict.set hash t.started t.in_flight; started = suc t.started }

module _ (setting : Setting) where
  -- One hash that the traversal is told of.
  unfoldable pub add_one : Text → Traversal → Traversal
  add_one hash t =
      let fresh = record t {
        enqueued = TextSet.add hash t.enqueued;
        queue = t.queue ++ hash ∷ [];
      } in
      let again = record t {
        unresolved = TextSet.delete hash t.unresolved;
        queue = t.queue ++ hash ∷ [];
      } in
      if setting.is_landed hash
      then t
      else if not (TextSet.has hash t.enqueued)
      then fresh
      else if TextSet.has hash t.unresolved && not (Dict.has hash t.in_flight)
      then again
      else t

  unfoldable pub add : List Text → Traversal → Traversal
  add [] t = t
  add (hash ∷ hashes) t = add hashes (add_one hash t)

  abbrev pub wants : Text → Traversal → Bool
  wants hash t =
      not (setting.is_landed hash)
      && not (TextSet.has hash t.fetched)
      && not (Dict.has hash t.in_flight)

  -- The `while` loop over the queue.
  unfoldable pub pump_queue : List Text → Traversal → Traversal
  pump_queue [] t = record t { queue = [] }
  pump_queue (hash ∷ queue) t =
      let started = pump_queue queue (start hash t) in
      let passed = pump_queue queue t in
      if ltb (length t.in_flight) setting.concurrency
      then if wants hash t then started else passed
      else record t { queue = hash ∷ queue }

  unfoldable pub pump : Traversal → Traversal
  pump t = if t.paused then t else pump_queue t.queue t

  unfoldable pub enqueue : List Text → Traversal → Traversal
  enqueue hashes t = pump (add hashes t)

  unfoldable pub land_verified : Text → Result TraversedEntry → Traversal → Traversal
  land_verified hash (err code) t = record t { rejected = Dict.set hash code t.rejected }
  land_verified hash (ok entry) t =
      add (entry.next ++ entry.refs) (record t { fetched = TextSet.add hash t.fetched })

  unfoldable pub land : Text → Bytes → Traversal → Traversal
  land hash bytes t =
      land_verified hash (setting.verify hash bytes)
        (record t { unresolved = TextSet.delete hash t.unresolved })

  abbrev pub settle_current : Text → ℕ → Traversal → Option ℕ → Option Traversal
  settle_current hash attempt t none = none
  settle_current hash attempt t (some current) =
      if current == attempt
      then some (record t { in_flight = Dict.delete hash t.in_flight })
      else none

  -- `none` when the fetch is no longer in flight, or a later one of its hash is.
  unfoldable pub settle : Text → ℕ → Traversal → Option Traversal
  settle hash attempt t = settle_current hash attempt t (Dict.get hash t.in_flight)

  unfoldable pub leave_unresolved : Text → Traversal → Traversal
  leave_unresolved hash t = record t { unresolved = TextSet.add hash t.unresolved }

  unfoldable pub take_answer : Text → Option Bytes → Traversal → Traversal
  take_answer hash none t = leave_unresolved hash t
  take_answer hash (some bytes) t = land hash bytes t

  abbrev pub after_settle : Option Traversal → Traversal → (Traversal → Traversal) → Traversal
  after_settle none t f = t
  after_settle (some settled) t f = f settled

  -- A fetch that answers, with or without the block, or fails.
  unfoldable pub on_answer : Text → ℕ → Option Bytes → Traversal → Traversal
  on_answer hash attempt answer t =
      after_settle (settle hash attempt t) t (λ settled. pump (take_answer hash answer settled))

  unfoldable pub on_timeout : Text → ℕ → Traversal → Traversal
  on_timeout hash attempt t =
      after_settle (settle hash attempt t) t (λ settled. pump (leave_unresolved hash settled))

  unfoldable pub pause : Traversal → Traversal
  pause t = record t {
    paused = true;
    unresolved = TextSet.add_all (Dict.keys t.in_flight) t.unresolved;
  }

  -- The unresolved hashes that have not landed and are not in flight go to the front of the queue.
  unfoldable pub resume : Traversal → Traversal
  resume t =
      let waiting = keep (λ h. not (setting.is_landed h)) t.unresolved in
      let retry = keep (λ h. not (Dict.has h t.in_flight)) waiting in
      pump (record t {
        paused = false;
        unresolved = TextSet.delete_all retry waiting;
        queue = retry ++ keep (λ h. not (TextSet.has h retry)) t.queue;
      })

-- For unlink; a pause outlives it.
unfoldable pub discard : Traversal → Traversal
discard t = record create_traversal { started = t.started; paused = t.paused }

-- The enqueued hashes neither fetched nor abandoned.
unfoldable pub outstanding : Traversal → ℕ
outstanding t = length (TextSet.add_all (t.queue ++ (Dict.keys t.in_flight ++ t.unresolved)) [])
