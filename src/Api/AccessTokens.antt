-- ===== src/Api/AccessTokens.antt =====
-- api/access-tokens.ts: the store of access tokens, which holds the hash of each token and never the
-- token, the commands that change it, and the authenticator that reads it. The lock file makes a command
-- one step; the file that it rewrites is there whole, before or after.
pub mod Issued
pub mod Revoked
use record_node.Prelude.{
  Text, lit, text_eq, Bool, true, false, not, Option, none, some, List, [], ◌∷◌, ◌++◌, map, keep,
  is_some, if◌then◌else◌,
}
use record_node.TextSet
use record_node.Value.{Value, Fields, null, get_field, as_record, as_text, as_array}
use record_node.Host.{Host}
use record_node.Identity.{sha256_hex, is_track_id}

pub record AccessToken : Type 0 where
  pub id : Text
  pub label : Text
  pub token_sha256 : Text
  pub created_at : Text
  -- `none` while the token is active.
  pub revoked_at : Option Text

pub record AccessTokenSummary : Type 0 where
  pub id : Text
  pub label : Text
  pub created_at : Text
  pub revoked_at : Option Text

unfoldable pub summary_of : AccessToken → AccessTokenSummary
summary_of e = record {
  id = e.id;
  label = e.label;
  created_at = e.created_at;
  revoked_at = e.revoked_at;
}

-- null, or a string.
abbrev pub revocation_in : Option Value → Option (Option Text)
revocation_in none = none
revocation_in (some null) = some none
revocation_in (some (Value.text t)) = some (some t)
revocation_in (some _) = none

abbrev pub token_in :
    Option Text
    → Option Text
    → Option Text
    → Option Text
    → Option (Option Text)
    → Option AccessToken
token_in (some id) (some label) (some hash) (some created) (some revoked) =
    if is_track_id hash
    then some (record {
      id = id;
      label = label;
      token_sha256 = hash;
      created_at = created;
      revoked_at = revoked;
    })
    else none
token_in _ _ _ _ _ = none

abbrev pub entry_in : Option Fields → Option AccessToken
entry_in none = none
entry_in (some fields) =
    token_in (as_text (get_field (lit "id") fields)) (as_text (get_field (lit "label") fields))
      (as_text (get_field (lit "token_sha256") fields))
      (as_text (get_field (lit "created_at") fields))
      (revocation_in (get_field (lit "revoked_at") fields))

-- `is_entry`, with the entry that the value is.
unfoldable pub as_entry : Value → Option AccessToken
as_entry value = entry_in (as_record value)

abbrev pub cons_both : Option AccessToken → Option (List AccessToken) → Option (List AccessToken)
cons_both (some e) (some es) = some (e ∷ es)
cons_both _ _ = none

unfoldable pub entries_in : List Value → Option (List AccessToken)
unfolding as_entry
entries_in [] = some []
entries_in (v ∷ vs) = cons_both (as_entry v) (entries_in vs)

-- What stands at the path: nothing, what cannot be read or parsed, or a JSON value.
pub data StoreFile : Type 0 where
  missing unreadable : StoreFile
  holds : Value → StoreFile

abbrev pub entries_at : Option (List Value) → Option (List AccessToken)
entries_at none = none
entries_at (some vs) = entries_in vs

-- `none` is a throw.
unfoldable pub read_access_tokens : StoreFile → Option (List AccessToken)
unfolding entries_in
read_access_tokens missing = some []
read_access_tokens unreadable = none
read_access_tokens (holds value) = entries_at (as_array (some value))

abbrev pub ids_of : List AccessToken → List Text
ids_of entries = map (λ (e : AccessToken). e.id) entries

-- The first id drawn that no entry has; `none` when every one that is drawn is taken.
unfoldable pub fresh_id : List Text → (draws : List Text) → Option Text
fresh_id ids [] = none
fresh_id ids (d ∷ draws) =
    let rest = fresh_id ids draws in if TextSet.has d ids then rest else some d

abbrev pub issued : Host → Text → Text → Text → Text → AccessToken
issued host id label token now = record {
  id = id;
  label = label;
  token_sha256 = sha256_hex host token;
  created_at = now;
  revoked_at = none;
}

abbrev pub append_issued :
    Host
    → Text
    → Text
    → Text
    → List AccessToken
    → Option Text
    → Option (List AccessToken × AccessTokenSummary)
append_issued host label token now entries none = none
append_issued host label token now entries (some id) =
    some
      (entries ++ issued host id label token now ∷ [], summary_of (issued host id label token now))

-- `issue_access_token`, on the ids and the token that it draws: the store it writes, and its summary.
unfoldable pub issue_access_token :
    Host
    → (draws : List Text) → (token label now : Text) → List AccessToken
    → Option (List AccessToken × AccessTokenSummary)
unfolding fresh_id summary_of
issue_access_token host draws token label now entries =
    append_issued host label token now entries (fresh_id (ids_of entries) draws)

unfoldable pub list_access_tokens : List AccessToken → List AccessTokenSummary
unfolding summary_of
list_access_tokens entries = map summary_of entries

abbrev pub revoked_from : Option Text → Text → AccessToken → AccessToken
revoked_from none now e = record e { revoked_at = some now }
revoked_from (some _) now e = e

abbrev pub revoked_once : Text → AccessToken → AccessToken
revoked_once now e = revoked_from e.revoked_at now e

abbrev pub and_before :
    AccessToken
    → Option (List AccessToken × AccessTokenSummary)
    → Option (List AccessToken × AccessTokenSummary)
and_before e none = none
and_before e (some (es, summary)) = some (e ∷ es, summary)

-- `revoke_access_token`: the first entry with the id is replaced; `none` when there is none. A token that
-- is revoked already stays as it is.
unfoldable pub revoke_access_token :
    (id now : Text) → List AccessToken → Option (List AccessToken × AccessTokenSummary)
unfolding summary_of
revoke_access_token id now [] = none
revoke_access_token id now (e ∷ es) =
    let rest = revoke_access_token id now es in
    if text_eq e.id id
    then some (revoked_once now e ∷ es, summary_of (revoked_once now e))
    else and_before e rest

abbrev pub is_active : AccessToken → Bool
is_active e = not (is_some e.revoked_at)

pub record ActiveHash : Type 0 where
  pub id : Text
  pub hash : Text

abbrev pub hash_of : AccessToken → ActiveHash
hash_of e = record { id = e.id; hash = e.token_sha256 }

-- `active_hashes` on what it reads; a digest is compared as the hex text that it is stored as.
unfoldable pub active_hashes : List AccessToken → List ActiveHash
active_hashes entries = map hash_of (keep is_active entries)

-- The last match of the loop.
unfoldable pub matched : Text → List ActiveHash → (found : Option Text) → Option Text
matched presented [] found = found
matched presented (h ∷ hs) found =
    matched presented hs (if text_eq h.hash presented then some h.id else found)

abbrev pub is_blank : Text → Bool
is_blank [] = true
is_blank (_ ∷ _) = false

unfoldable pub identify : Host → (token : Text) → List ActiveHash → Option Text
unfolding matched
identify host token hashes =
    if is_blank token then none else matched (sha256_hex host token) hashes none

unfoldable pub authenticate : Host → Option Text → List ActiveHash → Bool
unfolding identify
authenticate host none hashes = false
authenticate host (some token) hashes = is_some (identify host token hashes)

-- The hashes that the authenticator read last, under the file's identity, time and size.
pub record Cached : Type 0 where
  pub key : Text
  pub hashes : List ActiveHash

-- The cache after a request, the hashes and whether the listeners are called; `none` answers 503.
pub record Refreshed : Type 0 where
  pub cache : Option Cached
  pub hashes : Option (List ActiveHash)
  pub notified : Bool

abbrev pub reread : Text → Option Cached → Option (List AccessToken) → Refreshed
reread key cached none = record { cache = cached; hashes = none; notified = false }
reread key cached (some entries) = record {
  cache = some (record { key = key; hashes = active_hashes entries });
  hashes = some (active_hashes entries);
  notified = is_some cached;
}

unfoldable pub refresh_hashes : (key : Text) → StoreFile → Option Cached → Refreshed
unfolding read_access_tokens active_hashes
refresh_hashes key file none = reread key none (read_access_tokens file)
refresh_hashes key file (some cached) =
    if text_eq cached.key key
    then record { cache = some cached; hashes = some cached.hashes; notified = false }
    else reread key (some cached) (read_access_tokens file)
