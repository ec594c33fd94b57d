-- ===== src/Replication/Publisher/Chained.antt =====
-- The sends that flushes chain: each begins after the one before it, and publishes for its own flush.
use mathlib.Core.Path.{subst}
use record_node.Prelude.{ℕ, ◌≡◌, refl, sym, ap, ◌∙◌, inl, inr, List, [], ◌∷◌, ◌++◌, In}
use record_node.Replication.Heads.{Data}
use record_node.Replication.Publisher.{Answer, answers}

abbrev pub rev_onto : List ℕ → List ℕ → List ℕ
rev_onto [] ts = ts
rev_onto (c ∷ cs) ts = rev_onto cs (c ∷ ts)

rev_onto-snoc : (cs ts : List ℕ) (now : ℕ) → rev_onto (cs ++ now ∷ []) ts ≡ now ∷ rev_onto cs ts
rev_onto-snoc [] ts now = refl
rev_onto-snoc (c ∷ cs) ts now = rev_onto-snoc cs (c ∷ ts) now

-- The sends have begun for the flushes in their order, and messages belong to sends that have begun.
pub record IsChained (flushed begun chained : List ℕ) (sending published : List Answer)
    : Type 0 where
  pub ordered : flushed ≡ rev_onto chained begun
  pub of_sending : (a : Answer) → In a sending → In a.flush_time begun
  pub of_published : (a : Answer) → In a published → In a.flush_time begun

pub created-IsChained : IsChained [] [] [] [] []
created-IsChained = record {
  ordered = refl;
  of_sending = λ a m. absurd m;
  of_published = λ a m. absurd m;
}

pub flush-IsChained :
    (now : ℕ) (flushed begun chained : List ℕ) (sending published : List Answer)
    → IsChained flushed begun chained sending published
    → IsChained (now ∷ flushed) begun (chained ++ now ∷ []) sending published
flush-IsChained now flushed begun chained sending published h = record {
  ordered = ap (◌∷◌ now) h.ordered ∙ sym (rev_onto-snoc chained begun now);
  of_sending = h.of_sending;
  of_published = h.of_published;
}

In-answers :
    (flush_time : ℕ) (messages : List Data) (a : Answer)
    → In a (answers flush_time messages)
    → a.flush_time ≡ flush_time
In-answers flush_time [] a m = absurd m
In-answers flush_time (d ∷ messages) a (inl same) = ap (λ (x : Answer). x.flush_time) same
In-answers flush_time (d ∷ messages) a (inr m) = In-answers flush_time messages a m

pub begin-IsChained :
    (flush_time : ℕ) (messages : List Data) (flushed begun rest : List ℕ) (published : List Answer)
    → IsChained flushed begun (flush_time ∷ rest) [] published
    → IsChained flushed (flush_time ∷ begun) rest (answers flush_time messages) published
begin-IsChained flush_time messages flushed begun rest published h = record {
  ordered = h.ordered;
  of_sending = λ a m. inl (In-answers flush_time messages a m);
  of_published = λ a m. inr (h.of_published a m);
}

pub publish-IsChained :
    (first : Answer) (flushed begun chained : List ℕ) (sending published : List Answer)
    → IsChained flushed begun chained (first ∷ sending) published
    → IsChained flushed begun chained sending (first ∷ published)
publish-IsChained first flushed begun chained sending published h = record {
  ordered = h.ordered;
  of_sending = λ a m. h.of_sending a (inr m);
  of_published = λ a m. elim m [
    | inl same ↦
        subst (λ (x : Answer). In x.flush_time begun) (sym same) (h.of_sending first (inl refl))
    | inr old ↦ h.of_published a old
  ];
}
