-- ===== src/Http.antt =====
-- The exceptions of the services of src/modules, and requests that end in a value or an exception.
use critiq_be.Prelude.{Bool, true, false, Option, none, some}
pub mod Inversion

-- The messages of the HTTP exceptions that the services throw.
pub data HttpError : Type 0 where
  pull_not_found review_not_found membership_not_found : HttpError
  pull_not_open head_changed already_reviewed body_required : HttpError
  manual_confirmation_required scan_required ai_analysis_required : HttpError
  already_synced sync_in_progress override_requires_admin insufficient_permission : HttpError
  not_mergeable provider_unreachable provider_crashed : HttpError
  blocked_approval blocked_changes blocked_scan blocked_critical : HttpError
  already_member invite_pending invite_used invite_revoked invite_expired : HttpError
  invite_rate_limited invite_not_found member_not_found last_admin : HttpError
  session_user_missing record_gone invalid_parent comment_not_found : HttpError

pub data Result {ℓ} (A : Type ℓ) : Type ℓ where
  err : HttpError → Result A
  ok : A → Result A

abbrev pub guard : (holds : Bool) → HttpError → Result (Unit {0})
guard false message = err message
guard true message = ok tt

infixl 5 ◌>>=◌ ◌>>◌
abbrev pub ◌>>=◌ {κ ℓ} : {B : Type κ} {C : Type ℓ} → Result B → (B → Result C) → Result C
err message >>= next = err message
ok b >>= next = next b

abbrev pub ◌>>◌ {ℓ} : {C : Type ℓ} → Result (Unit {0}) → Result C → Result C
first >> rest = first >>= λ _. rest

abbrev pub or_throw {ℓ} : {A : Type ℓ} → Option A → HttpError → Result A
or_throw none e = err e
or_throw (some a) e = ok a
