-- ===== src/Replication/AnnouncementMessages/Fitting.antt =====
-- What the encoder of an announcement leaves out to keep a message within the bound.
use record_node.Prelude.{
  ℕ, zero, suc, ◌≤◌, ◌<◌, Text, ◌≡◌, refl, ◌⊎◌, inl, inr, Option, none, some, List, arith,
  Bool-cases, length, leb,
}
use mathlib.Core.Path.{subst}
use record_node.Dict.{Dict}
use record_node.Entry.{SignedEntry}
use record_node.Replication.Heads.{network_message_max_bytes}
use record_node.Replication.AnnouncementMessages.{
  AnnouncedLibrary, Announcement, with_first, fit, encode_announcement,
}

module _ (libraries : List AnnouncedLibrary) (profiles : List SignedEntry) (owners : Dict Text)
    (message_bytes : Announcement → ℕ) (own_count : ℕ) where
  abbrev bytes_of : ℕ → ℕ
  bytes_of n = message_bytes (with_first libraries profiles owners n)

  -- A message that keeps `n` libraries leaves no own library out.
  abbrev MayKeep : ℕ → Type 0
  MayKeep n = (n ≤ length libraries) × (own_count ≤ n ⊎ n ≡ length libraries)

  -- The largest number of libraries that fits.
  pub record IsLargest (n : ℕ) : Type 0 where
    pub kept : MayKeep n
    pub fits : bytes_of n ≤ network_message_max_bytes
    pub largest : (k : ℕ) → n < k → k ≤ length libraries → network_message_max_bytes < bytes_of k

  -- The message keeps as many libraries as fit; `none` is when the own libraries do not fit.
  abbrev pub IsFitting : Option Announcement → Type 0
  IsFitting (some message) =
      (n : ℕ) × (message ≡ with_first libraries profiles owners n) × IsLargest n
  IsFitting none = (k : ℕ) → MayKeep k → network_message_max_bytes < bytes_of k

  abbrev IsLargeAbove : ℕ → Type 0
  IsLargeAbove n = (k : ℕ) → n < k → k ≤ length libraries → network_message_max_bytes < bytes_of k

  IsLargeAbove-at :
      (n k : ℕ)
      → network_message_max_bytes < bytes_of n
      → IsLargeAbove n
      → n ≤ k
      → k ≤ length libraries
      → network_message_max_bytes < bytes_of k
  IsLargeAbove-at n k large above least most = elim (Bool-cases (leb k n)) [
    | inl same ↦
        let eq : n ≡ k = ground arith in
        subst (λ m. network_message_max_bytes < bytes_of m) eq large
    | inr more ↦ above k (ground arith) most
  ]

  fit-IsFitting :
      (n : ℕ)
      → MayKeep n
      → IsLargeAbove n
      → IsFitting (fit libraries profiles owners message_bytes own_count n)
  unfolding fit
  fit-IsFitting zero kept above = elim (Bool-cases (leb (bytes_of 0) network_message_max_bytes)) [
    | inl fits ↦ rw fits (0, refl, record { kept = kept; fits = ground arith; largest = above })
    | inr large ↦ rw large (λ k may. IsLargeAbove-at 0 k (ground arith) above (omega arith) may.0)
  ]
  fit-IsFitting (suc n) kept above =
      let size = bytes_of (suc n) in
      elim (Bool-cases (leb size network_message_max_bytes)) [
        | inl fits ↦
            rw fits (suc n, refl, record { kept = kept; fits = ground arith; largest = above })
        | inr large ↦
            let at_least = λ (k : ℕ). IsLargeAbove-at (suc n) k (ground arith) above in
            elim (Bool-cases (leb (suc n) own_count)) [
              | inl own ↦ rw (large, own) (λ k may. at_least k (ground arith) may.0)
              | inr more ↦
                  rw (large, more)
                    (fit-IsFitting n (omega arith, inl (ground arith))
                      (λ k above_n here. at_least k above_n here))
            ]
      ]

  -- The encoder of an announcement keeps as many of the first libraries as fit the bound on a message and
  -- never leaves one of the first `own_count` out; it makes no message only if no message that keeps
  -- those fits. The profiles are those of the owners of the libraries that it keeps.
  pub encode_announcement-IsFitting :
      IsFitting (encode_announcement libraries profiles owners message_bytes own_count)
  unfolding encode_announcement
  encode_announcement-IsFitting =
      fit-IsFitting (length libraries) (omega arith, inr refl) (λ k above here. omega arith)
