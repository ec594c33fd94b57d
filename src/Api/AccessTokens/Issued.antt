-- ===== src/Api/AccessTokens/Issued.antt =====
-- The stores that issuing and revoking make, in which no id comes twice.
use record_node.Prelude.{
  Text, text_eq, text_eq_iff, ◌≡◌, refl, inl, inr, false, Option, none, some, List, [], ◌∷◌, ◌++◌,
  arith, Bool-cases, Option-cases,
}
use mathlib.Core.Path.{subst}
use record_node.TextSet
use record_node.TextSet.{has-nil, has-cons, has-append}
use record_node.Host.{Host}
use record_node.Api.AccessTokens.{
  AccessToken, AccessTokenSummary, summary_of, ids_of, fresh_id, issued, issue_access_token,
  revoked_from, revoked_once, revoke_access_token,
}

abbrev pub AreDistinct : List Text → Type 0
AreDistinct [] = Unit
AreDistinct (k ∷ ks) = (TextSet.has k ks ≡ false) × AreDistinct ks

-- The stores that the commands make, from no store.
pub data History (host : Host) : List AccessToken → Type 0 where
  start : History host []
  then_issued :
      {before after : List AccessToken} {summary : AccessTokenSummary} (draws : List Text)
      → (token label now : Text) → History host before
      → issue_access_token host draws token label now before ≡ some (after, summary)
      → History host after
  then_revoked :
      {before after : List AccessToken} {summary : AccessTokenSummary} (id now : Text)
      → History host before
      → revoke_access_token id now before ≡ some (after, summary)
      → History host after

fresh_id-IsNew :
    (ids draws : List Text) (d : Text) → fresh_id ids draws ≡ some d → TextSet.has d ids ≡ false
unfolding fresh_id
fresh_id-IsNew ids [] d h = absurd (cc)
fresh_id-IsNew ids (e ∷ draws) d h = elim (Bool-cases (TextSet.has e ids)) [
  | inl taken ↦ fresh_id-IsNew ids draws d (ground arith)
  | inr free ↦ let same : e ≡ d = ground arith in subst (λ k. TextSet.has k ids ≡ false) same free
]

AreDistinct-append :
    (ks : List Text) (k : Text)
    → AreDistinct ks
    → TextSet.has k ks ≡ false
    → AreDistinct (ks ++ k ∷ [])
AreDistinct-append [] k d new = (has-nil k, tt)
AreDistinct-append (j ∷ ks) k d new = ground (
  arith,
  has-cons k j ks,
  has-append j ks (k ∷ []),
  has-cons j k [],
  has-nil j,
  text_eq_iff j k,
  text_eq_iff k j,
  AreDistinct-append ks k,
)

ids_of-append :
    (es : List AccessToken) (e : AccessToken) → ids_of (es ++ e ∷ []) ≡ ids_of es ++ e.id ∷ []
ids_of-append [] e = refl
ids_of-append (f ∷ es) e = rw (ids_of-append es e) refl

revoked_from-id :
    (revoked_at : Option Text) (now : Text) (e : AccessToken)
    → (revoked_from revoked_at now e).id ≡ e.id
revoked_from-id none now e = refl
revoked_from-id (some _) now e = refl

revoked_once-id : (now : Text) (e : AccessToken) → (revoked_once now e).id ≡ e.id
revoked_once-id now e = revoked_from-id e.revoked_at now e

revoke-ids_of :
    (id now : Text) (es : List AccessToken) (r : List AccessToken × AccessTokenSummary)
    → revoke_access_token id now es ≡ some r
    → ids_of r.0 ≡ ids_of es
unfolding revoke_access_token
revoke-ids_of id now [] r h = absurd (cc)
revoke-ids_of id now (e ∷ es) r h = elim (Bool-cases (text_eq e.id id)) [
  | inl this ↦
      let made : List AccessToken × AccessTokenSummary =
        (revoked_once now e ∷ es, summary_of (revoked_once now e)) in
      let same : made ≡ r = ground arith in
      subst (λ (x : List AccessToken × AccessTokenSummary). ids_of x.0 ≡ ids_of (e ∷ es)) same
        (rw (revoked_once-id now e) refl)
  | inr other ↦ elim (Option-cases (revoke_access_token id now es)) [
    | inl missed ↦ absurd (ground arith)
    | inr ((fs, summary), found) ↦
        let same : (e ∷ fs, summary) ≡ r = ground arith in
        subst (λ (x : List AccessToken × AccessTokenSummary). ids_of x.0 ≡ ids_of (e ∷ es)) same
          (rw (revoke-ids_of id now es (fs, summary) found) refl)
  ]
]

pub History-AreDistinct :
    (host : Host) (es : List AccessToken) → History host es → AreDistinct (ids_of es)
unfolding issue_access_token
History-AreDistinct host _ start = tt
History-AreDistinct host after (then_issued {before} {summary} draws token label now history made) =
    elim (Option-cases (fresh_id (ids_of before) draws)) [
      | inl none_free ↦ absurd (ground arith)
      | inr (id, found) ↦
          let e = issued host id label token now in
          let same : before ++ e ∷ [] ≡ after = ground arith in
          subst (λ (es : List AccessToken). AreDistinct (ids_of es)) same
            (rw (ids_of-append before e) (
              AreDistinct-append (ids_of before) id (History-AreDistinct host before history)
                (fresh_id-IsNew (ids_of before) draws id found)))
    ]
History-AreDistinct host after (then_revoked {before} {summary} id now history made) =
    rw (revoke-ids_of id now before (after, summary) made) (History-AreDistinct host before history)
