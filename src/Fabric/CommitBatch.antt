-- ===== src/Fabric/CommitBatch.antt =====
-- fabric/commit-batch.ts: the batcher over one SQLite connection. The connection is the writes that are
-- committed and those of the open transaction; a COMMIT is done, or fails and leaves the transaction
-- open as after SQLITE_BUSY, or fails and has been rolled back. The nudge of the checkpointer is left
-- out.
pub mod Sound
use record_node.Prelude.{
  ℕ, zero, suc, ◌+◌, Text, Bool, true, false, not, Option, none, some, List, [], ◌∷◌, ◌++◌, leb,
  if◌then◌else◌,
}

pub record Connection : Type 0 where
  pub committed : List Text
  pub transaction : Option (List Text)

pub data Outcome : Type 0 where
  done busy rolled_back : Outcome

pub record CommitPolicy : Type 0 where
  pub window_ms : ℕ
  pub max_transactions : ℕ

abbrev pub default_commit_policy : CommitPolicy
default_commit_policy = record { window_ms = 100; max_transactions = 8 }

pub record CommitBatcher : Type 0 where
  pub open_batch : Bool
  pub count : ℕ
  -- Whether the window timer is armed.
  pub timer : Bool
  pub db : Connection

unfoldable pub create_commit_batcher : Connection → CommitBatcher
create_commit_batcher db = record { open_batch = false; count = 0; timer = false; db = db }

abbrev pub pending : Connection → List Text
pending db = elim (db.transaction) [ none ↦ [] | some writes ↦ writes ]

unfoldable pub exec_commit : Outcome → Connection → Connection
exec_commit done db = record { committed = db.committed ++ pending db; transaction = none }
exec_commit busy db = db
exec_commit rolled_back db = record db { transaction = none }

-- Also `flush`, `close` and the timer's firing. The flag and the count are cleared before the COMMIT,
-- and the timer is stopped whether or not it throws.
unfoldable pub commit : Outcome → CommitBatcher → CommitBatcher
unfolding exec_commit
commit outcome b =
    if b.open_batch
    then record { open_batch = false; count = 0; timer = false; db = exec_commit outcome b.db }
    else record b { timer = false }

-- `fn`: the writes that it makes before it returns or throws.
pub record Job : Type 0 where
  pub writes : List Text
  pub throws : Bool

-- BEGIN throws inside a transaction.
abbrev pub exec_begin : Connection → Option Connection
exec_begin db = elim (db.transaction) [
  | none ↦ some (record db { transaction = some [] })
  | some _ ↦ none
]

abbrev began : CommitBatcher → Option Connection
began b = if b.open_batch then some b.db else exec_begin b.db

unfoldable pub after_job :
    CommitPolicy → Job → Outcome → ℕ → Bool → Connection → CommitBatcher × Bool
unfolding commit
after_job policy job outcome count timer db =
    let written : Connection = record db { transaction = some (pending db ++ job.writes) } in
    let counted = suc count in
    let full : CommitBatcher = record {
      open_batch = true;
      count = counted;
      timer = timer;
      db = written;
    } in
    if job.throws
    then (
      record {
        open_batch = false;
        count = 0;
        timer = false;
        db = record written { transaction = none };
      },
      false,
    )
    else if leb policy.max_transactions counted
    then (commit outcome full, elim outcome [ done ↦ true | _ ↦ false ])
    else (record full { timer = true }, true)

-- The batcher after `run`, and whether it returned; the outcome is that of a COMMIT it comes to.
unfoldable pub run : CommitPolicy → Job → Outcome → CommitBatcher → CommitBatcher × Bool
unfolding after_job
run policy job outcome b = elim (began b) [
  | none ↦ (b, false)
  | some db ↦ after_job policy job outcome b.count b.timer db
]
