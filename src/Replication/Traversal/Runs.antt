-- ===== src/Replication/Traversal/Runs.antt =====
-- The runs of a traversal, while the local oplog grows beside it.
use record_node.Prelude.{ℕ, Text, Bytes, ◌≡◌, refl, true, not, Option, List, arith, keep}
use record_node.Dict
use record_node.TextSet
use record_node.TextSet.{has-nil, has-append, has-delete_all}
use record_node.Replication.Traversal.{
  Traversal, create_traversal, Setting, add, enqueue, on_answer, on_timeout, pause, resume, discard,
}
use record_node.Replication.Traversal.Invariant.{IsSound, add-IsSound}
use record_node.Replication.Traversal.Steps.{
  pump-IsSound, take_answer-IsSound, leave_unresolved-IsSound, after_settle-IsSound, pause-IsSound,
  has-keep,
}

create_traversal-IsSound : (setting : Setting) → IsSound setting create_traversal
unfolding create_traversal Dict.get TextSet.has
create_traversal-IsSound setting = record {
  bounded = omega arith;
  once = λ h m. refl;
  placed = λ h m. absurd (cc);
}

discard-IsSound : (setting : Setting) (t : Traversal) → IsSound setting (discard t)
unfolding discard create_traversal Dict.get TextSet.has
discard-IsSound setting t = record {
  bounded = omega arith;
  once = λ h m. refl;
  placed = λ h m. absurd (cc);
}

resume-IsSound :
    (setting : Setting) (t : Traversal) → IsSound setting t → IsSound setting (resume setting t)
unfolding resume
resume-IsSound setting t s =
    let waiting = keep (λ h. not (setting.is_landed h)) t.unresolved in
    let retry = keep (λ h. not (Dict.has h t.in_flight)) waiting in
    let rest = keep (λ h. not (TextSet.has h retry)) t.queue in
    pump-IsSound setting _ (record {
      bounded = s.bounded;
      once = s.once;
      placed = λ h m. ground (
        arith,
        s.placed h m,
        has-keep setting (λ k. not (setting.is_landed k)) h t.unresolved,
        has-keep setting (λ k. not (Dict.has k t.in_flight)) h waiting,
        has-keep setting (λ k. not (TextSet.has k retry)) h t.queue,
        has-append h retry rest,
        has-delete_all retry h waiting,
      );
    })

-- The oplog only grows: what has landed stays, and the rest of the setting does not change.
pub record IsLater (earlier later : Setting) : Type 0 where
  pub kept : (h : Text) → earlier.is_landed h ≡ true → later.is_landed h ≡ true
  pub same_bound : earlier.concurrency ≡ later.concurrency

later-IsSound : (a b : Setting) (t : Traversal) → IsLater a b → IsSound a t → IsSound b t
later-IsSound a b t l s = record {
  bounded = rw⁻¹ l.same_bound s.bounded;
  once = s.once;
  placed = λ h m. ground (arith, s.placed h m, l.kept h);
}

-- What calls, answers and timeouts can make of a new traversal, up to a setting.
pub data Run : Setting → Traversal → Type 0 where
  created : (setting : Setting) → Run setting create_traversal
  grown : (a b : Setting) (t : Traversal) → IsLater a b → Run a t → Run b t
  enqueued :
      (setting : Setting) (t : Traversal) (hashes : List Text)
      → Run setting t
      → Run setting (enqueue setting hashes t)
  answered :
      (setting : Setting) (t : Traversal) (hash : Text) (attempt : ℕ) (answer : Option Bytes)
      → Run setting t
      → Run setting (on_answer setting hash attempt answer t)
  timed_out :
      (setting : Setting) (t : Traversal) (hash : Text) (attempt : ℕ)
      → Run setting t
      → Run setting (on_timeout setting hash attempt t)
  paused : (setting : Setting) (t : Traversal) → Run setting t → Run setting (pause setting t)
  resumed : (setting : Setting) (t : Traversal) → Run setting t → Run setting (resume setting t)
  discarded : (setting : Setting) (t : Traversal) → Run setting t → Run setting (discard t)

-- After any calls, answers and timeouts, in any order, while hashes land in the oplog: at most
-- `concurrency` fetches are in flight, none of a block that was fetched before; and each hash that was
-- enqueued since the last discard has landed, was fetched or rejected, or is queued, in flight or
-- unresolved.
pub Run-IsSound : (setting : Setting) (t : Traversal) → Run setting t → IsSound setting t
unfolding enqueue on_answer on_timeout
Run-IsSound _ _ (created setting) = create_traversal-IsSound setting
Run-IsSound _ _ (grown a b t l r) = later-IsSound a b t l (Run-IsSound a t r)
Run-IsSound _ _ (enqueued setting t hashes r) =
    pump-IsSound setting (add setting hashes t)
      (add-IsSound setting hashes t (Run-IsSound setting t r))
Run-IsSound _ _ (answered setting t hash attempt answer r) =
    after_settle-IsSound setting hash attempt t _ (Run-IsSound setting t r)
      (λ settled b. pump-IsSound setting _ (take_answer-IsSound setting hash answer settled b))
Run-IsSound _ _ (timed_out setting t hash attempt r) =
    after_settle-IsSound setting hash attempt t _ (Run-IsSound setting t r)
      (λ settled b. pump-IsSound setting _ (leave_unresolved-IsSound setting hash settled b))
Run-IsSound _ _ (paused setting t r) = pause-IsSound setting t (Run-IsSound setting t r)
Run-IsSound _ _ (resumed setting t r) = resume-IsSound setting t (Run-IsSound setting t r)
Run-IsSound _ _ (discarded setting t r) = discard-IsSound setting t
