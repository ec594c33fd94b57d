-- ===== src/Replication/Announcer/Limited.antt =====
-- No peer is announced to more often than the interval allows.
use record_node.Prelude.{
  ℕ, ◌+◌, ◌≤◌, Text, text_eq, text_eq_iff, ◌≡◌, refl, true, false, Option, none, some, List, [],
  ◌∷◌, arith, if◌then◌else◌, inl, inr, Bool-cases,
}
use record_node.Dict
use record_node.Dict.{Dict, get-set}
use record_node.TextSet
use record_node.TextSet.{has-add, has-cons, has-nil}
use record_node.Replication.Spacing.{Spaced}
use record_node.Replication.Announcer.{
  Announced, Announcer, create_announcer, is_recent, peer_joined, announce_at, flush, stop,
}

-- The times of the announcements for a peer.
abbrev pub times_for : Text → List Announced → List ℕ
times_for peer [] = []
times_for peer (x ∷ log) =
    let rest = times_for peer log in if TextSet.has peer x.targets then x.time ∷ rest else rest

abbrev Lasts : Option ℕ → List ℕ → Type 0
Lasts none ts = ts ≡ []
Lasts (some t) ts = (rest : List ℕ) × (ts ≡ t ∷ rest)

abbrev IsPast : ℕ → Option ℕ → Type 0
IsPast now none = Unit
IsPast now (some last) = last ≤ now

abbrev IsOver : ℕ → ℕ → Option ℕ → Type 0
IsOver interval now none = Unit
IsOver interval now (some last) = last + interval ≤ now

pub record IsPaced (interval now : ℕ) (a : Announcer) : Type 0 where
  pub spaced : (peer : Text) → Spaced interval (times_for peer a.log)
  pub lasts : (peer : Text) → Lasts (Dict.get peer a.last_announced) (times_for peer a.log)
  pub past : (peer : Text) → IsPast now (Dict.get peer a.last_announced)
  pub waited :
      (peer : Text)
      → TextSet.has peer a.joined ≡ true
      → IsOver interval now (Dict.get peer a.last_announced)

pub data Run (interval : ℕ) : ℕ → Announcer → Type 0 where
  created : (now : ℕ) → Run interval now create_announcer
  later : (now then' : ℕ) (a : Announcer) → now ≤ then' → Run interval now a → Run interval then' a
  joined :
      (now : ℕ) (peer : Text) (a : Announcer)
      → Run interval now a
      → Run interval now (peer_joined interval now peer a)
  fired : (now : ℕ) (a : Announcer) → Run interval now a → Run interval now (flush now a)
  stopped : (now : ℕ) (a : Announcer) → Run interval now a → Run interval now (stop a)

get-announce_at :
    (now : ℕ) (ps : List Text) (last : Dict ℕ) (peer : Text)
    → Dict.get peer (announce_at now ps last)
      ≡ (if TextSet.has peer ps then some now else Dict.get peer last)
unfolding announce_at
get-announce_at now [] last peer = ground (arith, has-nil peer)
get-announce_at now (p ∷ ps) last peer = ground (
  arith,
  get-announce_at now ps (Dict.set p now last) peer,
  get-set p peer now last,
  has-cons peer p ps,
)

IsPast-mono : (now then' : ℕ) (last : Option ℕ) → now ≤ then' → IsPast now last → IsPast then' last
IsPast-mono now then' none le p = tt
IsPast-mono now then' (some t) le p = omega arith

IsOver-mono :
    (interval now then' : ℕ) (last : Option ℕ)
    → now ≤ then'
    → IsOver interval now last
    → IsOver interval then' last
IsOver-mono interval now then' none le p = tt
IsOver-mono interval now then' (some t) le p = omega arith

not_recent-IsOver :
    (interval now : ℕ) (last : Option ℕ)
    → is_recent interval now last ≡ false
    → IsPast now last
    → IsOver interval now last
not_recent-IsOver interval now none r p = tt
not_recent-IsOver interval now (some t) r p = ground arith

Spaced-cons :
    (interval now : ℕ) (last : Option ℕ) (ts : List ℕ)
    → Lasts last ts
    → Spaced interval ts
    → IsOver interval now last
    → Spaced interval (now ∷ ts)
Spaced-cons interval now none ts e s o = rw e tt
Spaced-cons interval now (some t) ts (rest, e) s o = rw e (o, rw e at s)

flush-IsPaced :
    (interval now : ℕ) (a : Announcer) → IsPaced interval now a → IsPaced interval now (flush now a)
unfolding flush
flush-IsPaced interval now a l = record {
  spaced = λ peer. elim (Bool-cases (TextSet.has peer a.joined)) [
    | inl is_target ↦ rw is_target (
        Spaced-cons interval now (Dict.get peer a.last_announced) (times_for peer a.log)
          (l.lasts peer) (l.spaced peer) (l.waited peer is_target))
    | inr is_other ↦ rw is_other (l.spaced peer)
  ];
  lasts = λ peer. elim (Bool-cases (TextSet.has peer a.joined)) [
    | inl is_target ↦ rw get-announce_at (rw is_target (times_for peer a.log, refl))
    | inr is_other ↦ rw get-announce_at (rw is_other (l.lasts peer))
  ];
  past = λ peer. elim (Bool-cases (TextSet.has peer a.joined)) [
    | inl is_target ↦ rw get-announce_at (rw is_target (omega arith))
    | inr is_other ↦ rw get-announce_at (rw is_other (l.past peer))
  ];
  waited = λ peer h. absurd (unfold TextSet.has in ground arith);
}

joined-IsPaced :
    (interval now : ℕ) (peer : Text) (a : Announcer)
    → IsPaced interval now a
    → IsPaced interval now (peer_joined interval now peer a)
unfolding peer_joined
joined-IsPaced interval now peer a l =
    elim (Bool-cases (is_recent interval now (Dict.get peer a.last_announced))) [
      | inl recent ↦ rw recent l
      | inr over ↦ rw over (record {
        spaced = l.spaced;
        lasts = l.lasts;
        past = l.past;
        waited = λ p h. elim (Bool-cases (text_eq peer p)) [
          | inl same ↦
              rw⁻¹ ((text_eq_iff peer p).0 same)
                (not_recent-IsOver interval now (Dict.get peer a.last_announced) over (l.past peer))
          | inr other ↦ l.waited p (ground (arith, has-add peer p a.joined))
        ];
      })
    ]

-- Whatever peers join, and whenever a flush fires or the announcer stops, as time goes by: two flushes
-- that start an announcement for one peer are at least the interval apart.
pub Run-IsPaced : (interval now : ℕ) (a : Announcer) → Run interval now a → IsPaced interval now a
unfolding create_announcer stop Dict.get TextSet.has
Run-IsPaced interval _ _ (created now) = record {
  spaced = λ p. tt;
  lasts = λ p. refl;
  past = λ p. tt;
  waited = λ p h. tt;
}
Run-IsPaced interval _ _ (later now then' a le r) =
    let l = Run-IsPaced interval now a r in
    record {
      spaced = l.spaced;
      lasts = l.lasts;
      past = λ p. IsPast-mono now then' (Dict.get p a.last_announced) le (l.past p);
      waited =
          λ p h. IsOver-mono interval now then' (Dict.get p a.last_announced) le (l.waited p h);
    }
Run-IsPaced interval _ _ (joined now peer a r) =
    joined-IsPaced interval now peer a (Run-IsPaced interval now a r)
Run-IsPaced interval _ _ (fired now a r) =
    flush-IsPaced interval now a (Run-IsPaced interval now a r)
Run-IsPaced interval _ _ (stopped now a r) =
    let l = Run-IsPaced interval now a r in
    record { spaced = l.spaced; lasts = l.lasts; past = l.past; waited = l.waited }
