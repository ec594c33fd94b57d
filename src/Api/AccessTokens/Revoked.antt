-- ===== src/Api/AccessTokens/Revoked.antt =====
-- What issuing and revoking a token does to whom the authenticator lets in.
use record_node.Prelude.{
  Text, text_eq, text_eq_iff, ◌≡◌, ◌≢◌, refl, ◌⊎◌, inl, inr, Bool, true, false, not, Option, none,
  some, List, [], ◌∷◌, keep, In, arith, Bool-cases, Option-cases, if◌then◌else◌,
}
use mathlib.Core.Path.{subst}
use record_node.TextSet
use record_node.TextSet.{has-nil, has-cons, has-append}
use record_node.Host.{Host}
use record_node.Identity.{sha256_hex}
use record_node.Api.AccessTokens.{
  AccessToken, AccessTokenSummary, summary_of, ids_of, revoked_from, revoked_once,
  revoke_access_token, is_active, ActiveHash, hash_of, active_hashes, matched, identify,
}
use record_node.Api.AccessTokens.Issued.{AreDistinct, History, History-AreDistinct}

-- `h` matches and no later one does.
matched-In :
    (presented : Text) (hs : List ActiveHash) (found : Option Text) (id : Text)
    → matched presented hs found ≡ some id
    → (found ≡ some id) ⊎ ((h : ActiveHash) × In h hs × (h.hash ≡ presented) × (h.id ≡ id))
unfolding matched
matched-In presented [] found id m = inl m
matched-In presented (h ∷ hs) found id m =
    elim (matched-In presented hs (if text_eq h.hash presented then some h.id else found) id m) [
      | inr (g, here, same, named) ↦ inr (g, inr here, same, named)
      | inl e ↦ elim (Bool-cases (text_eq h.hash presented)) [
        | inl yes_match ↦
            inr (h, inl refl, (text_eq_iff h.hash presented).0 yes_match, ground arith)
        | inr other ↦ inl (ground arith)
      ]
    ]

-- Whether a hash belongs to another token.
abbrev is_other : Text → ActiveHash → Bool
is_other id h = not (text_eq h.id id)

active_hashes-cons :
    (e : AccessToken) (es : List AccessToken)
    → active_hashes (e ∷ es)
      ≡ (if is_active e then hash_of e ∷ active_hashes es else active_hashes es)
unfolding active_hashes
active_hashes-cons e es = ground arith

active_hashes-others :
    (id : Text) (es : List AccessToken)
    → TextSet.has id (ids_of es) ≡ false
    → keep (is_other id) (active_hashes es) ≡ active_hashes es
unfolding active_hashes
active_hashes-others id [] h = refl
active_hashes-others id (e ∷ es) h =
    ground (arith, has-cons id e.id (ids_of es), active_hashes-others id es)

revoked_from-inactive :
    (revoked_at : Option Text) (now : Text) (e : AccessToken)
    → e.revoked_at ≡ revoked_at
    → is_active (revoked_from revoked_at now e) ≡ false
revoked_from-inactive none now e h = refl
revoked_from-inactive (some t) now e h = rw h refl

-- A revocation takes the hash of its token away, and no other.
revoke-active_hashes :
    (id now : Text) (es : List AccessToken) (r : List AccessToken × AccessTokenSummary)
    → AreDistinct (ids_of es)
    → revoke_access_token id now es ≡ some r
    → active_hashes r.0 ≡ keep (is_other id) (active_hashes es)
unfolding revoke_access_token
revoke-active_hashes id now [] r d h = absurd (cc)
revoke-active_hashes id now (e ∷ es) r d h = elim (Bool-cases (text_eq e.id id)) [
  | inl this ↦
      let made : List AccessToken × AccessTokenSummary =
        (revoked_once now e ∷ es, summary_of (revoked_once now e)) in
      let same : made ≡ r = ground arith in
      let named : e.id ≡ id = (text_eq_iff e.id id).0 this in
      let rest = active_hashes-others id es (rw⁻¹ named d.0) in
      let inactive = revoked_from-inactive e.revoked_at now e refl in
      subst
        (λ (x : List AccessToken × AccessTokenSummary).
          active_hashes x.0 ≡ keep (is_other id) (active_hashes (e ∷ es)))
        same
        (rw (active_hashes-cons (revoked_once now e) es, inactive, active_hashes-cons e es)
          (ground arith))
  | inr other ↦ elim (Option-cases (revoke_access_token id now es)) [
    | inl missed ↦ absurd (ground arith)
    | inr ((fs, summary), found) ↦
        let same : (e ∷ fs, summary) ≡ r = ground arith in
        let rest = revoke-active_hashes id now es (fs, summary) d.1 found in
        subst
          (λ (x : List AccessToken × AccessTokenSummary).
            active_hashes x.0 ≡ keep (is_other id) (active_hashes (e ∷ es)))
          same (rw (active_hashes-cons e fs, active_hashes-cons e es) (ground arith))
  ]
]

In-keep :
    (q : ActiveHash → Bool) (h : ActiveHash) (hs : List ActiveHash) → In h (keep q hs) → q h ≡ true
In-keep q h [] m = absurd m
In-keep q h (g ∷ hs) m = ground (arith, In-keep q h hs)

-- The last match stays the last match when the hashes of another token go.
matched-others :
    (presented id : Text) (hs : List ActiveHash) (other : Text) (found found' : Option Text)
    → text_eq other id ≡ false
    → ((found ≡ some id) ⊎ (found' ≡ found))
    → matched presented hs found ≡ some other
    → matched presented (keep (is_other id) hs) found' ≡ some other
unfolding matched
matched-others presented id [] other found found' differs (inl e) m =
    absurd (ground (arith, text_eq_iff other id))
matched-others presented id [] other found found' differs (inr e) m = cc
matched-others presented id (h ∷ hs) other found found' differs e m =
    let next = if text_eq h.hash presented then some h.id else found in
    elim (Bool-cases (text_eq h.id id)) [
      | inl gone ↦
          let named : h.id ≡ id = (text_eq_iff h.id id).0 gone in
          rw gone (matched-others presented id hs other next found' differs (ground arith) m)
      | inr stays ↦ rw stays (
          matched-others presented id hs other next
            (if text_eq h.hash presented then some h.id else found') differs (ground arith) m)
    ]

identify-others :
    (host : Host) (token id : Text) (hs : List ActiveHash)
    → identify host token (keep (is_other id) hs) ≢ some id
unfolding identify
identify-others host token id hs found =
    let others = keep (is_other id) hs in
    let m : matched (sha256_hex host token) others none ≡ some id = ground arith in
    elim (matched-In (sha256_hex host token) others none id m) [
      | inl e ↦ absurd (cc)
      | inr (h, here, _, named) ↦
          let other = In-keep (is_other id) h hs here in
          absurd (ground (arith, text_eq_iff h.id id))
    ]

identify-kept :
    (host : Host) (token id other : Text) (hs : List ActiveHash)
    → other ≢ id
    → identify host token hs ≡ some other
    → identify host token (keep (is_other id) hs) ≡ some other
unfolding identify
identify-kept host token id other hs differs found =
    let unequal : text_eq other id ≡ false = ground (arith, text_eq_iff other id) in
    ground (arith, matched-others (sha256_hex host token) id hs other none none unequal (inr refl))

-- What a revocation of the token `id` does to whom the authenticator identifies.
pub record IsSilenced (host : Host) (id : Text) (before after : List AccessToken) : Type 0 where
  pub silenced : (token : Text) → identify host token (active_hashes after) ≢ some id
  pub kept :
      (token other : Text)
      → other ≢ id
      → identify host token (active_hashes before) ≡ some other
      → identify host token (active_hashes after) ≡ some other

-- In a store that issues and revocations made, after the revocation of a token's id nothing that a caller
-- presents identifies as that id, and whatever identified as another id still does.
pub revoke-IsSilenced :
    (host : Host) (id now : Text) (before after : List AccessToken) (summary : AccessTokenSummary)
    → History host before
    → revoke_access_token id now before ≡ some (after, summary)
    → IsSilenced host id before after
revoke-IsSilenced host id now before after summary history h =
    let distinct = History-AreDistinct host before history in
    let left = revoke-active_hashes id now before (after, summary) distinct h in
    record {
      silenced =
          λ token found. identify-others host token id (active_hashes before) (rw left at found);
      kept = λ token other differs found.
          rw left (identify-kept host token id other (active_hashes before) differs found);
    }
