-- ===== src/Result.antt =====
-- types/errors.ts: the codes of a ProtocolError, and code that may throw one as a value. The message
-- of an error is not modelled: callers branch on the code.
use record_node.Prelude.{◌≡◌, refl, Bool, true, false, Option, none, some}

pub data ErrorCode : Type 0 where
  malformed_encoding non_canonical_encoding size_exceeded invalid_shape invalid_cid : ErrorCode
  cid_mismatch content_unavailable invalid_public_key invalid_private_key : ErrorCode
  test_key_refused invalid_fingerprint invalid_library_name invalid_library_address : ErrorCode
  library_rejected library_unopenable unsupported_ac_type invalid_operation : ErrorCode
  invalid_signature unauthorised_writer invalid_clock capability_denied : ErrorCode
  capability_expired capability_revoked duplicate_entry topic_too_long : ErrorCode

-- What a function that may throw comes to.
pub data Result {ℓ} (A : Type ℓ) : Type ℓ where
  err : (code : ErrorCode) → Result A
  ok : A → Result A

module _ {ℓ κ} {A : Type ℓ} {B : Type κ} where
  infixl 5 ◌>>=◌
  -- The next statement runs unless this one throws.
  abbrev pub ◌>>=◌ : (this : Result A) → (next : A → Result B) → Result B
  err code >>= next = err code
  ok value >>= next = next value

module _ {ℓ} {B : Type ℓ} where
  infixl 5 ◌>>◌
  abbrev pub ◌>>◌ : (this : Result (Unit {0})) → (next : Result B) → Result B
  this >> next = this >>= (λ done. next)

-- `if (!test) throw new ProtocolError(code)`.
abbrev pub require : Bool → ErrorCode → Result (Unit {0})
require true c = ok tt
require false c = err c

-- `if (value === undefined) throw new ProtocolError(code)`.
abbrev pub required {ℓ} : {A : Type ℓ} → Option A → ErrorCode → Result A
required none c = err c
required (some a) c = ok a

abbrev pub is_ok {ℓ} : {A : Type ℓ} → Result A → Bool
is_ok (ok _) = true
is_ok (err _) = false

-- What ran before a statement that was reached and returned.
pub >>=-eq-ok {ℓ κ} :
    {A : Type ℓ} {B : Type κ} (this : Result A) (next : A → Result B) {result : B}
    → this >>= next ≡ ok result
    → (value : A) × (this ≡ ok value) × (next value ≡ ok result)
>>=-eq-ok (err code) next h = absurd (cc)
>>=-eq-ok (ok value) next h = (value, refl, h)

pub require-eq-ok : (b : Bool) (c : ErrorCode) {u : Unit {0}} → require b c ≡ ok u → b ≡ true
require-eq-ok true c h = refl
require-eq-ok false c h = absurd (cc)

pub required-eq-ok {ℓ} :
    {A : Type ℓ} (o : Option A) (c : ErrorCode) {a : A} → required o c ≡ ok a → o ≡ some a
required-eq-ok none c h = absurd (cc)
required-eq-ok (some x) c h = cc
