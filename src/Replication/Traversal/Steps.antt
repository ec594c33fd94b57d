-- ===== src/Replication/Traversal/Steps.antt =====
-- Each step of a traversal keeps it sound; and the runs of a traversal.
use record_node.Prelude.{
  ℕ, ◌≤◌, Text, Bytes, text_eq, text_eq_iff, ◌≡◌, ap, Bool, Bool-cases, inl, inr, true, false, ◌&&◌,
  Option, none, some, List, [], ◌∷◌, ◌++◌, ◌==◌, arith, ltb, ltb→lt, length, keep,
}
use record_node.Dict
use record_node.Dict.{Dict, get-set, get-delete}
use record_node.TextSet
use record_node.TextSet.{
  has-nil, has-cons, has-add, has-delete, has-append, has-add_all, has-delete_all,
}
use record_node.Result.{Result, ok, err}
use record_node.Replication.Traversal.{
  TraversedEntry, Traversal, Setting, start, wants, pump_queue, pump, land_verified, land, settle,
  settle_current, leave_unresolved, take_answer, after_settle, pause,
}
use record_node.Replication.Traversal.Invariant.{
  is_placed, IsSound, length-set-le, length-delete-le, add-IsSound,
}

module _ (setting : Setting) where
  start-IsSound :
      (hash : Text) (q : List Text) (t : Traversal)
      → ltb (length t.in_flight) setting.concurrency ≡ true
      → wants setting hash t ≡ true
      → IsSound setting (record t { queue = hash ∷ q })
      → IsSound setting (record (start hash t) { queue = q })
  unfolding start
  start-IsSound hash q t room wanted s = record {
    bounded = omega (
      arith,
      length-set-le hash t.started t.in_flight,
      ltb→lt (length t.in_flight) setting.concurrency room,
    );
    once = λ h m.
        ground (arith, s.once h, get-set hash h t.started t.in_flight, text_eq_iff hash h, wanted);
    placed = λ h m.
        ground (arith, s.placed h m, get-set hash h t.started t.in_flight, has-cons h hash q);
  }

  pass-IsSound :
      (hash : Text) (q : List Text) (t : Traversal)
      → wants setting hash t ≡ false
      → IsSound setting (record t { queue = hash ∷ q })
      → IsSound setting (record t { queue = q })
  pass-IsSound hash q t unwanted s = record {
    bounded = s.bounded;
    once = s.once;
    placed = λ h m. ground (arith, s.placed h m, has-cons h hash q, text_eq_iff hash h, unwanted);
  }

  pump_queue-IsSound :
      (q : List Text) (t : Traversal)
      → IsSound setting (record t { queue = q })
      → IsSound setting (pump_queue setting q t)
  unfolding pump_queue
  pump_queue-IsSound [] t s = s
  pump_queue-IsSound (hash ∷ q) t s =
      elim (Bool-cases (ltb (length t.in_flight) setting.concurrency)) [
        | inr full ↦ rw full s
        | inl room ↦ elim (Bool-cases (wants setting hash t)) [
          | inl w ↦
              rw room (rw w (pump_queue-IsSound q (start hash t) (start-IsSound hash q t room w s)))
          | inr w ↦ rw room (rw w (pump_queue-IsSound q t (pass-IsSound hash q t w s)))
        ]
      ]

  pub pump-IsSound : (t : Traversal) → IsSound setting t → IsSound setting (pump setting t)
  unfolding pump
  pump-IsSound t s = elim (Bool-cases t.paused) [
    | inl p ↦ simp p s
    | inr p ↦ simp p (pump_queue-IsSound t.queue t s)
  ]

  -- Sound but for one hash, which has just left the fetches in flight.
  pub record IsSoundBut (hash : Text) (t : Traversal) : Type 0 where
    pub bounded : length t.in_flight ≤ setting.concurrency
    pub once : (h : Text) → Dict.has h t.in_flight ≡ true → TextSet.has h t.fetched ≡ false
    pub gone : Dict.has hash t.in_flight ≡ false
    pub placed :
        (h : Text)
        → TextSet.has h t.enqueued ≡ true
        → text_eq hash h ≡ false
        → is_placed setting.is_landed t h ≡ true

  settled-IsSoundBut :
      (hash : Text) (t : Traversal)
      → IsSound setting t
      → IsSoundBut hash (record t { in_flight = Dict.delete hash t.in_flight })
  settled-IsSoundBut hash t s = record {
    bounded = omega (arith, length-delete-le hash t.in_flight, s.bounded);
    once = λ h m. ground (arith, s.once h, get-delete hash h t.in_flight);
    gone = ground (arith, get-delete hash hash t.in_flight, text_eq_iff hash hash);
    placed = λ h m d. ground (arith, s.placed h m, get-delete hash h t.in_flight);
  }

  pub leave_unresolved-IsSound :
      (hash : Text) (t : Traversal)
      → IsSoundBut hash t
      → IsSound setting (leave_unresolved setting hash t)
  unfolding leave_unresolved
  leave_unresolved-IsSound hash t s = record {
    bounded = s.bounded;
    once = s.once;
    placed = λ h m. ground (arith, s.placed h m, has-add hash h t.unresolved);
  }

  land_verified-IsSound :
      (hash : Text) (r : Result TraversedEntry) (t : Traversal)
      → IsSoundBut hash t
      → IsSound setting (land_verified setting hash r t)
  unfolding land_verified
  land_verified-IsSound hash (err code) t s = record {
    bounded = s.bounded;
    once = s.once;
    placed = λ h m. ground (arith, s.placed h m, get-set hash h code t.rejected);
  }
  land_verified-IsSound hash (ok entry) t s =
      add-IsSound setting (entry.next ++ entry.refs)
        (record t { fetched = TextSet.add hash t.fetched })
        (record {
          bounded = s.bounded;
          once = λ h m.
              ground (arith, s.once h m, has-add hash h t.fetched, text_eq_iff hash h, s.gone);
          placed = λ h m. ground (arith, s.placed h m, has-add hash h t.fetched);
        })

  land-IsSound :
      (hash : Text) (bytes : Bytes) (t : Traversal)
      → IsSoundBut hash t
      → IsSound setting (land setting hash bytes t)
  unfolding land
  land-IsSound hash bytes t s =
      land_verified-IsSound hash (setting.verify hash bytes)
        (record t { unresolved = TextSet.delete hash t.unresolved })
        (record {
          bounded = s.bounded;
          once = s.once;
          gone = s.gone;
          placed = λ h m d. ground (arith, s.placed h m d, has-delete hash h t.unresolved);
        })

  pub take_answer-IsSound :
      (hash : Text) (answer : Option Bytes) (t : Traversal)
      → IsSoundBut hash t
      → IsSound setting (take_answer setting hash answer t)
  unfolding take_answer
  take_answer-IsSound hash none t s = leave_unresolved-IsSound hash t s
  take_answer-IsSound hash (some bytes) t s = land-IsSound hash bytes t s

  -- A fetch that is over: nothing happens, or the step goes on without it.
  pub after_settle-IsSound :
      (hash : Text) (attempt : ℕ) (t : Traversal) (f : Traversal → Traversal)
      → IsSound setting t
      → ((settled : Traversal) → IsSoundBut hash settled → IsSound setting (f settled))
      → IsSound setting (after_settle setting (settle setting hash attempt t) t f)
  unfolding settle
  after_settle-IsSound hash attempt t f s next = by_current (Dict.get hash t.in_flight)
    where
      by_current :
          (o : Option ℕ)
          → IsSound setting (after_settle setting (settle_current setting hash attempt t o) t f)
      by_current none = s
      by_current (some current) = elim (Bool-cases (current == attempt)) [
        | inl same ↦ rw same (next _ (settled-IsSoundBut hash t s))
        | inr other ↦ rw other s
      ]

  pub pause-IsSound : (t : Traversal) → IsSound setting t → IsSound setting (pause setting t)
  unfolding pause
  pause-IsSound t s = record {
    bounded = s.bounded;
    once = s.once;
    placed =
        λ h m. ground (arith, s.placed h m, has-add_all (Dict.keys t.in_flight) h t.unresolved);
  }

  pub has-keep :
      (p : Text → Bool) (h : Text) (ks : List Text)
      → TextSet.has h (keep p ks) ≡ (TextSet.has h ks && p h)
  has-keep p h [] = ground (arith, has-nil h)
  has-keep p h (k ∷ ks) = elim (Bool-cases (text_eq k h)) [
    | inl e ↦
        let same : p k ≡ p h = ap p ((text_eq_iff k h).0 e) in
        ground (arith, has-keep p h ks, has-cons h k ks, has-cons h k (keep p ks))
    | inr d ↦ ground (arith, has-keep p h ks, has-cons h k ks, has-cons h k (keep p ks))
  ]
