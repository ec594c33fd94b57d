-- ===== src/Replication/Spacing.antt =====
-- Times of events, the last first, that stand at least an interval apart: what the rate limits of
-- replication/heads-exchange.ts and replication/announcement.ts promise.
use record_node.Prelude.{ℕ, ◌+◌, ◌≤◌, List, [], ◌∷◌}

abbrev pub Spaced : ℕ → List ℕ → Type 0
Spaced interval [] = Unit
Spaced interval (t ∷ []) = Unit
Spaced interval (t ∷ s ∷ ts) = (s + interval ≤ t) × Spaced interval (s ∷ ts)
