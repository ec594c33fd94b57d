-- ===== src/Fabric/CommitBatch/Sound.antt =====
-- The invariant of the batcher, what a run does to the committed writes, and what a COMMIT that leaves
-- the transaction open makes of it.
use mathlib.Core.List.{append_assoc, append-nil}
use record_node.Prelude.{
  sym, ap, ◌∙◌, ◌<◌, Text, ◌≡◌, refl, true, false, none, List, [], ◌∷◌, ◌++◌, arith, is_some,
}
use record_node.Fabric.CommitBatch.{
  Connection, Outcome, done, busy, rolled_back, CommitPolicy, CommitBatcher, create_commit_batcher,
  pending, exec_commit, commit, Job, run, after_job,
}

-- The flag, the timer and the transaction agree, and an open batch is not empty and not full.
pub record IsSound (policy : CommitPolicy) (b : CommitBatcher) : Type 0 where
  pub transacting : is_some b.db.transaction ≡ b.open_batch
  pub armed : b.timer ≡ b.open_batch
  pub counted : b.open_batch ≡ true → (0 < b.count) × (b.count < policy.max_transactions)
  pub idle : b.open_batch ≡ false → b.count ≡ 0

-- What happens to a batcher: a run, or a flush, a close or the timer.
pub data Event : Type 0 where
  runs : Job → Outcome → Event
  commits : Outcome → Event

abbrev pub step : CommitPolicy → Event → CommitBatcher → CommitBatcher
step policy (runs job outcome) b = (run policy job outcome b).0
step policy (commits outcome) b = commit outcome b

abbrev pub steps : CommitPolicy → List Event → CommitBatcher → CommitBatcher
steps policy [] b = b
steps policy (e ∷ es) b = steps policy es (step policy e b)

abbrev pub outcome_of : Event → Outcome
outcome_of (runs _ outcome) = outcome
outcome_of (commits outcome) = outcome

-- No COMMIT fails and leaves its transaction open.
abbrev pub NeverBusy : List Event → Type 0
NeverBusy [] = Unit
NeverBusy (e ∷ es) = (outcome_of e ≡ busy → ⊥) × NeverBusy es

module _ (policy : CommitPolicy) (some_max : 0 < policy.max_transactions) where
  commit-IsSound :
      (outcome : Outcome) (b : CommitBatcher)
      → (outcome ≡ busy → ⊥)
      → IsSound policy b
      → IsSound policy (commit outcome b)
  unfolding commit exec_commit
  commit-IsSound done b n s = ground arith
  commit-IsSound busy b n s = absurd (n refl)
  commit-IsSound rolled_back b n s = ground arith

  run-IsSound :
      (job : Job) (outcome : Outcome) (b : CommitBatcher)
      → (outcome ≡ busy → ⊥)
      → IsSound policy b
      → IsSound policy (run policy job outcome b).0
  unfolding run after_job commit exec_commit
  run-IsSound job done b n s = ground arith
  run-IsSound job busy b n s = absurd (n refl)
  run-IsSound job rolled_back b n s = ground arith

  step-IsSound :
      (e : Event) (b : CommitBatcher)
      → (outcome_of e ≡ busy → ⊥)
      → IsSound policy b
      → IsSound policy (step policy e b)
  step-IsSound (runs job outcome) b n s = run-IsSound job outcome b n s
  step-IsSound (commits outcome) b n s = commit-IsSound outcome b n s

  steps_from-IsSound :
      (es : List Event) (b : CommitBatcher)
      → NeverBusy es
      → IsSound policy b
      → IsSound policy (steps policy es b)
  steps_from-IsSound [] b n s = s
  steps_from-IsSound (e ∷ es) b n s =
      steps_from-IsSound es (step policy e b) n.1 (step-IsSound e b n.0 s)

create-IsSound :
    (policy : CommitPolicy) (db : Connection)
    → db.transaction ≡ none
    → IsSound policy (create_commit_batcher db)
unfolding create_commit_batcher
create-IsSound policy db h = ground arith

-- After any runs, flushes and firings of the timer on an idle connection, if the policy allows a run and
-- no COMMIT leaves its transaction open: the batcher has a batch open exactly if the connection is in a
-- transaction and exactly if the timer is armed, and an open batch holds at least one run and fewer than
-- the policy's most.
pub steps-IsSound :
    (policy : CommitPolicy) (es : List Event) (db : Connection)
    → 0 < policy.max_transactions
    → NeverBusy es
    → db.transaction ≡ none
    → IsSound policy (steps policy es (create_commit_batcher db))
steps-IsSound policy es db m n h =
    steps_from-IsSound policy m es (create_commit_batcher db) n (create-IsSound policy db h)

-- Every job returns and every COMMIT is done.
abbrev Succeeds : Event → Type 0
Succeeds (runs job outcome) = (job.throws ≡ false) × (outcome ≡ done)
Succeeds (commits outcome) = outcome ≡ done

abbrev pub AllSucceed : List Event → Type 0
AllSucceed [] = Unit
AllSucceed (e ∷ es) = Succeeds e × AllSucceed es

abbrev pub writes_of : List Event → List Text
writes_of [] = []
writes_of (runs job _ ∷ es) = job.writes ++ writes_of es
writes_of (commits _ ∷ es) = writes_of es

-- What a read on the connection sees.
abbrev seen : CommitBatcher → List Text
seen b = b.db.committed ++ pending b.db

-- A transaction is open exactly with a batch.
abbrev Agrees : CommitBatcher → Type 0
Agrees b = is_some b.db.transaction ≡ b.open_batch

run-seen :
    (policy : CommitPolicy) (job : Job) (b : CommitBatcher)
    → job.throws ≡ false
    → Agrees b
    → (Agrees (run policy job done b).0) × (seen (run policy job done b).0 ≡ seen b ++ job.writes)
unfolding run after_job commit exec_commit
run-seen policy job b t a = ground (
  arith,
  append_assoc b.db.committed (pending b.db) job.writes,
  append-nil b.db.committed,
  append-nil (b.db.committed ++ (pending b.db ++ job.writes)),
)

commit-seen :
    (b : CommitBatcher) → Agrees b → (Agrees (commit done b)) × (seen (commit done b) ≡ seen b)
unfolding commit exec_commit
commit-seen b a = ground (arith, append-nil (b.db.committed ++ pending b.db))

steps-seen :
    (policy : CommitPolicy) (es : List Event) (b : CommitBatcher)
    → AllSucceed es
    → Agrees b
    → (Agrees (steps policy es b)) × (seen (steps policy es b) ≡ seen b ++ writes_of es)
steps-seen policy [] b s a = (a, sym (append-nil (seen b)))
steps-seen policy (runs job outcome ∷ es) b s a =
    let (a', e) = run-seen policy job b s.0.0 a in
    let (a'', f) = steps-seen policy es (run policy job done b).0 s.1 a' in
    rw s.0.1
      (a'', f ∙ ap (λ w. w ++ writes_of es) e ∙ append_assoc (seen b) job.writes (writes_of es))
steps-seen policy (commits outcome ∷ es) b s a =
    let (a', e) = commit-seen b a in
    let (a'', f) = steps-seen policy es (commit done b) s.1 a' in
    rw s.0 (a'', f ∙ ap (λ w. w ++ writes_of es) e)

-- If every job returns and every COMMIT is done, a flush after any runs, flushes and firings of the
-- timer on an idle connection leaves the writes of all jobs committed, in order, and no transaction.
pub flush-commits_all :
    (policy : CommitPolicy) (es : List Event) (db : Connection)
    → AllSucceed es
    → db.transaction ≡ none
    → let flushed = commit done (steps policy es (create_commit_batcher db)) in
      (flushed.db.committed ≡ db.committed ++ writes_of es) × (flushed.db.transaction ≡ none)
unfolding commit exec_commit create_commit_batcher
flush-commits_all policy es db s h =
    let (a, e) = steps-seen policy es (create_commit_batcher db) s (ground arith) in
    ground (
      arith,
      append-nil db.committed,
      append-nil (steps policy es (create_commit_batcher db)).db.committed,
    )

-- A batcher whose last COMMIT failed with the transaction left open.
abbrev IsWedged : Connection → CommitBatcher → Type 0
IsWedged db b = (b.open_batch ≡ false) × (b.db ≡ db) × (is_some db.transaction ≡ true)

step-IsWedged :
    (policy : CommitPolicy) (db : Connection) (e : Event) (b : CommitBatcher)
    → IsWedged db b
    → IsWedged db (step policy e b)
unfolding run commit
step-IsWedged policy db (runs job outcome) b w = ground arith
step-IsWedged policy db (commits outcome) b w = ground arith

steps-IsWedged :
    (policy : CommitPolicy) (db : Connection) (es : List Event) (b : CommitBatcher)
    → IsWedged db b
    → IsWedged db (steps policy es b)
steps-IsWedged policy db [] b w = w
steps-IsWedged policy db (e ∷ es) b w =
    steps-IsWedged policy db es (step policy e b) (step-IsWedged policy db e b w)

-- If a COMMIT of an open batch fails and leaves the transaction open, then whatever follows, flushes
-- included, nothing more reaches the connection and every run throws.
pub busy_commit_wedges :
    (policy : CommitPolicy) (b : CommitBatcher) (es : List Event) (job : Job) (outcome : Outcome)
    → b.open_batch ≡ true
    → is_some b.db.transaction ≡ true
    → ((steps policy es (commit busy b)).db ≡ b.db)
      × ((run policy job outcome (steps policy es (commit busy b))).1 ≡ false)
unfolding run commit exec_commit
busy_commit_wedges policy b es job outcome o t =
    let w = steps-IsWedged policy b.db es (commit busy b) (ground arith) in ground (arith, w)
