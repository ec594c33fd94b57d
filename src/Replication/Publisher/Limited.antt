-- ===== src/Replication/Publisher/Limited.antt =====
-- The rate at which sends are chained, and that a trigger is answered in time.
use mathlib.Core.Path.{subst}
use record_node.Prelude.{
  ℕ, ◌+◌, ◌≤◌, ◌≡◌, refl, sym, ◌||◌, inl, inr, Bool-cases, true, false, Option, none, some, List,
  [], ◌∷◌, ◌++◌, arith, is_some, Text,
}
use record_node.Replication.Spacing.{Spaced}
use record_node.Replication.Publisher.{
  Answer, HeadsPublisher, create_heads_publisher, due_from, trigger, flush, pause, resume,
  begin_send, publish, begin_from, publish_from,
}
use record_node.Replication.Publisher.Chained.{
  IsChained, created-IsChained, flush-IsChained, begin-IsChained, publish-IsChained,
}
use record_node.Replication.Heads.{network_message_max_bytes, encode_heads_batches}

abbrev Lasts : Option ℕ → List ℕ → Type 0
Lasts none ts = ts ≡ []
Lasts (some t) ts = (rest : List ℕ) × (ts ≡ t ∷ rest)

abbrev IsDue : ℕ → Option ℕ → Option ℕ → Type 0
IsDue interval last none = Unit
IsDue interval none (some due) = Unit
IsDue interval (some last) (some due) = last + interval ≤ due

abbrev IsPast : ℕ → Option ℕ → Type 0
IsPast now none = Unit
IsPast now (some last) = last ≤ now

abbrev IsSoon : ℕ → Option ℕ → Type 0
IsSoon bound none = Unit
IsSoon bound (some due) = due ≤ bound

pub record IsLimited (interval now : ℕ) (p : HeadsPublisher) : Type 0 where
  pub spaced : Spaced interval p.flushed
  pub lasts : Lasts p.last_sent p.flushed
  pub due : IsDue interval p.last_sent p.scheduled
  pub past : IsPast now p.last_sent
  pub soon : IsSoon (now + interval) p.scheduled
  pub chain : IsChained p.flushed p.begun p.chained p.sending p.published

-- Calls and firings as time goes by; a timer fires no sooner than it is due.
pub data Run (interval : ℕ) : ℕ → HeadsPublisher → Type 0 where
  created : (now : ℕ) → Run interval now create_heads_publisher
  later :
      (now then' : ℕ) (p : HeadsPublisher) → now ≤ then' → Run interval now p → Run interval then' p
  triggered :
      (now : ℕ) (p : HeadsPublisher)
      → Run interval now p
      → Run interval now (trigger interval now p)
  fired :
      (now due : ℕ) (p : HeadsPublisher)
      → p.scheduled ≡ some due
      → due ≤ now
      → Run interval now p
      → Run interval now (flush now p)
  begun :
      (now : ℕ) (heads : List Text) (p : HeadsPublisher)
      → Run interval now p
      → Run interval now (begin_send heads p)
  published : (now : ℕ) (p : HeadsPublisher) → Run interval now p → Run interval now (publish p)
  paused : (now : ℕ) (p : HeadsPublisher) → Run interval now p → Run interval now (pause p)
  resumed : (now : ℕ) (p : HeadsPublisher) → Run interval now p → Run interval now (resume p)

due_from-IsDue :
    (interval now : ℕ) (last : Option ℕ) → IsDue interval last (some (due_from interval last now))
due_from-IsDue interval now none = tt
due_from-IsDue interval now (some last) = omega arith

due_from-IsSoon :
    (interval now : ℕ) (last : Option ℕ)
    → IsPast now last
    → due_from interval last now ≤ now + interval
due_from-IsSoon interval now none p = omega arith
due_from-IsSoon interval now (some last) p = omega arith

trigger-IsLimited :
    (interval now : ℕ) (p : HeadsPublisher)
    → IsLimited interval now p
    → IsLimited interval now (trigger interval now p)
unfolding trigger
trigger-IsLimited interval now p l = elim (Bool-cases (p.paused || is_some p.scheduled)) [
  | inl none_needed ↦ rw none_needed l
  | inr free ↦ rw free (record {
    spaced = l.spaced;
    lasts = l.lasts;
    due = due_from-IsDue interval now p.last_sent;
    past = l.past;
    soon = due_from-IsSoon interval now p.last_sent l.past;
    chain = l.chain;
  })
]

Spaced-cons :
    (interval now due : ℕ) (last : Option ℕ) (ts : List ℕ)
    → Lasts last ts
    → Spaced interval ts
    → IsDue interval last (some due)
    → due ≤ now
    → Spaced interval (now ∷ ts)
Spaced-cons interval now due none ts e s d le = rw e tt
Spaced-cons interval now due (some t) ts (rest, e) s d le = rw e (omega arith, rw e at s)

flush_paused :
    (now : ℕ) (p : HeadsPublisher) → p.paused ≡ true → flush now p ≡ record p { scheduled = none }
unfolding flush
flush_paused now p h = ground arith

flush_sends :
    (now : ℕ) (p : HeadsPublisher)
    → p.paused ≡ false
    → flush now p ≡ record p {
      scheduled = none;
      last_sent = some now;
      flushed = now ∷ p.flushed;
      chained = p.chained ++ now ∷ [];
    }
unfolding flush
flush_sends now p h = ground arith

fired-IsLimited :
    (interval now due : ℕ) (p : HeadsPublisher)
    → p.scheduled ≡ some due
    → due ≤ now
    → IsLimited interval now p
    → IsLimited interval now (flush now p)
unfolding flush
fired-IsLimited interval now due p s d l = elim (Bool-cases p.paused) [
  | inl quiet ↦ subst (IsLimited interval now) (sym (flush_paused now p quiet)) (record {
    spaced = l.spaced;
    lasts = l.lasts;
    due = tt;
    past = l.past;
    soon = tt;
    chain = l.chain;
  })
  | inr on ↦ subst (IsLimited interval now) (sym (flush_sends now p on)) (record {
    spaced =
        Spaced-cons interval now due p.last_sent p.flushed l.lasts l.spaced
          (subst (IsDue interval p.last_sent) s l.due) d;
    lasts = (p.flushed, refl);
    due = tt;
    past = omega arith;
    soon = tt;
    chain = flush-IsChained now p.flushed p.begun p.chained p.sending p.published l.chain;
  })
]

begin_from-IsLimited :
    (interval now : ℕ) (chained : List ℕ) (sending : List Answer) (heads : List Text)
    (p : HeadsPublisher)
    → p.chained ≡ chained
    → p.sending ≡ sending
    → IsLimited interval now p
    → IsLimited interval now (begin_from chained sending heads p)
begin_from-IsLimited interval now [] sending heads p c s l = l
begin_from-IsLimited interval now (t ∷ rest) (a ∷ sending) heads p c s l = l
begin_from-IsLimited interval now (t ∷ rest) [] heads p c s l = record {
  spaced = l.spaced;
  lasts = l.lasts;
  due = l.due;
  past = l.past;
  soon = l.soon;
  chain =
      begin-IsChained t (encode_heads_batches network_message_max_bytes heads) p.flushed p.begun
        rest p.published
        (subst (λ x. IsChained p.flushed p.begun x [] p.published) c
          (subst (λ x. IsChained p.flushed p.begun p.chained x p.published) s l.chain));
}

publish_from-IsLimited :
    (interval now : ℕ) (sending : List Answer) (p : HeadsPublisher)
    → p.sending ≡ sending
    → IsLimited interval now p
    → IsLimited interval now (publish_from sending p)
publish_from-IsLimited interval now [] p s l = l
publish_from-IsLimited interval now (a ∷ rest) p s l = record {
  spaced = l.spaced;
  lasts = l.lasts;
  due = l.due;
  past = l.past;
  soon = l.soon;
  chain =
      publish-IsChained a p.flushed p.begun p.chained rest p.published
        (subst (λ x. IsChained p.flushed p.begun p.chained x p.published) s l.chain);
}

IsPast-mono : (now then' : ℕ) (last : Option ℕ) → now ≤ then' → IsPast now last → IsPast then' last
IsPast-mono now then' none le p = tt
IsPast-mono now then' (some t) le p = omega arith

IsSoon-mono : (now then' : ℕ) (due : Option ℕ) → now ≤ then' → IsSoon now due → IsSoon then' due
IsSoon-mono now then' none le p = tt
IsSoon-mono now then' (some t) le p = omega arith

IsDue-none : (interval : ℕ) (last : Option ℕ) → IsDue interval last none
IsDue-none interval last = tt

-- Whatever is triggered, fired, sent, paused and resumed as time goes by, if a timer fires no sooner
-- than it is due: the flushes that chain a send are at least the interval apart, and one that is
-- scheduled is due within the interval; each send answers one flush, in their order, and each message
-- that is published belongs to a send that has begun.
pub Run-IsLimited :
    (interval now : ℕ) (p : HeadsPublisher) → Run interval now p → IsLimited interval now p
unfolding create_heads_publisher pause resume begin_send publish
Run-IsLimited interval _ _ (created now) = record {
  spaced = tt;
  lasts = refl;
  due = tt;
  past = tt;
  soon = tt;
  chain = created-IsChained;
}
Run-IsLimited interval _ _ (later now then' p le r) =
    let l = Run-IsLimited interval now p r in
    record {
      spaced = l.spaced;
      lasts = l.lasts;
      due = l.due;
      past = IsPast-mono now then' p.last_sent le l.past;
      soon = IsSoon-mono (now + interval) (then' + interval) p.scheduled (omega arith) l.soon;
      chain = l.chain;
    }
Run-IsLimited interval _ _ (triggered now p r) =
    trigger-IsLimited interval now p (Run-IsLimited interval now p r)
Run-IsLimited interval _ _ (fired now due p s d r) =
    fired-IsLimited interval now due p s d (Run-IsLimited interval now p r)
Run-IsLimited interval _ _ (begun now heads p r) =
    begin_from-IsLimited interval now p.chained p.sending heads p refl refl
      (Run-IsLimited interval now p r)
Run-IsLimited interval _ _ (published now p r) =
    publish_from-IsLimited interval now p.sending p refl (Run-IsLimited interval now p r)
Run-IsLimited interval _ _ (paused now p r) =
    let l = Run-IsLimited interval now p r in
    record {
      spaced = l.spaced;
      lasts = l.lasts;
      due = IsDue-none interval p.last_sent;
      past = l.past;
      soon = tt;
      chain = l.chain;
    }
Run-IsLimited interval _ _ (resumed now p r) =
    let l = Run-IsLimited interval now p r in
    record {
      spaced = l.spaced;
      lasts = l.lasts;
      due = l.due;
      past = l.past;
      soon = l.soon;
      chain = l.chain;
    }

-- After any history, a trigger of a publisher that is not paused leaves a flush scheduled that is due
-- within the interval.
pub trigger-answered :
    (interval now : ℕ) (p : HeadsPublisher)
    → Run interval now p
    → p.paused ≡ false
    → (due : ℕ) × ((trigger interval now p).scheduled ≡ some due) × (due ≤ now + interval)
unfolding trigger
trigger-answered interval now p r on =
    let l = Run-IsLimited interval now p r in by_scheduled p.scheduled refl l.soon
  where
    by_scheduled :
        (s : Option ℕ)
        → p.scheduled ≡ s
        → IsSoon (now + interval) s
        → (due : ℕ) × ((trigger interval now p).scheduled ≡ some due) × (due ≤ now + interval)
    by_scheduled (some due) e soon = (due, ground arith, soon)
    by_scheduled none e soon = (
      due_from interval p.last_sent now,
      ground arith,
      due_from-IsSoon interval now p.last_sent ((Run-IsLimited interval now p r).past),
    )
