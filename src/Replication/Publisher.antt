-- ===== src/Replication/Publisher.antt =====
-- replication/heads-exchange.ts, create_heads_publisher: when a library's heads go out. A timer is the
-- time from which it may fire. A flush chains a send, which waits for the sends before it and then
-- publishes the messages of the heads as they are by then, one after the other.
pub mod Limited
pub mod Chained
use record_node.Prelude.{
  ℕ, ◌+◌, Bool, true, false, ◌||◌, Option, none, some, List, [], ◌∷◌, ◌++◌, max, is_some, map,
  if◌then◌else◌, Text,
}
use record_node.Replication.Heads.{Data, network_message_max_bytes, encode_heads_batches}

-- A message, and the time of the flush that it answers.
pub record Answer : Type 0 where
  pub flush_time : ℕ
  pub message : Data

pub record HeadsPublisher : Type 0 where
  -- `none` is -Infinity.
  pub last_sent : Option ℕ
  pub scheduled : Option ℕ
  pub paused : Bool
  -- The times of the flushes, the last first, and of those whose send has begun.
  pub flushed : List ℕ
  pub begun : List ℕ
  -- The flushes whose send waits, the first first.
  pub chained : List ℕ
  -- What the send that has begun has still to publish, and what was published, the last first.
  pub sending : List Answer
  pub published : List Answer

unfoldable pub create_heads_publisher : HeadsPublisher
create_heads_publisher = record {
  last_sent = none;
  scheduled = none;
  paused = false;
  flushed = [];
  begun = [];
  chained = [];
  sending = [];
  published = [];
}

-- `now + Math.max(0, last_sent + interval_ms - now)`.
abbrev pub due_from : ℕ → Option ℕ → ℕ → ℕ
due_from interval_ms none now = now
due_from interval_ms (some last) now = max now (last + interval_ms)

unfoldable pub trigger : ℕ → ℕ → HeadsPublisher → HeadsPublisher
trigger interval_ms now p =
    if p.paused || is_some p.scheduled
    then p
    else record p { scheduled = some (due_from interval_ms p.last_sent now) }

unfoldable pub flush : ℕ → HeadsPublisher → HeadsPublisher
flush now p =
    let idle : HeadsPublisher = record p { scheduled = none } in
    if p.paused then idle else record idle {
      last_sent = some now;
      flushed = now ∷ p.flushed;
      chained = p.chained ++ now ∷ [];
    }

unfoldable pub pause : HeadsPublisher → HeadsPublisher
pause p = record p { paused = true; scheduled = none }

unfoldable pub resume : HeadsPublisher → HeadsPublisher
resume p = record p { paused = false }

abbrev pub answers : ℕ → List Data → List Answer
answers flush_time messages =
    map (λ (m : Data). record { flush_time = flush_time; message = m }) messages

abbrev pub begin_from : List ℕ → List Answer → List Text → HeadsPublisher → HeadsPublisher
begin_from (flush_time ∷ rest) [] heads p = record p {
  begun = flush_time ∷ p.begun;
  chained = rest;
  sending = answers flush_time (encode_heads_batches network_message_max_bytes heads);
}
begin_from _ _ heads p = p

-- The next `send` begins once the one before it has ended.
unfoldable pub begin_send : List Text → HeadsPublisher → HeadsPublisher
begin_send heads p = begin_from p.chained p.sending heads p

abbrev pub publish_from : List Answer → HeadsPublisher → HeadsPublisher
publish_from [] p = p
publish_from (a ∷ rest) p = record p { sending = rest; published = a ∷ p.published }

-- One `publish`, whose failure only warns.
unfoldable pub publish : HeadsPublisher → HeadsPublisher
publish p = publish_from p.sending p
