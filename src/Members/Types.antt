-- ===== src/Members/Types.antt =====
-- The records of src/modules/members, as its queries load them (prisma/schema.prisma), the link of
-- an invitation (src/modules/members/invitation-token.ts), and the parts of a request that come
-- from outside the database. Times are milliseconds.
use critiq_be.Prelude.{
  ℕ, ◌*◌, Bool, true, false, not, ◌&&◌, ◌||◌, Option, none, some, List, ◌++◌, Text, text_eq, nat_eq,
  leb, length, allb, if◌then◌else◌,
}
use critiq_be.Reviews.Types.{Role, admin}

pub data MembershipStatus : Type 0 where
  active invited : MembershipStatus

pub data InvitationEmailStatus : Type 0 where
  email_pending email_sent email_failed not_configured : InvitationEmailStatus

pub data InviteStatus : Type 0 where
  pending accepted revoked expired : InviteStatus

pub record Member : Type 0 where
  pub id : Text
  pub user_id : Text
  pub organization_id : Text
  pub role : Role
  pub status : MembershipStatus

pub record Invitation : Type 0 where
  pub id : Text
  pub organization_id : Text
  pub email : Text
  pub role : Role
  pub token_hash : Text
  pub invited_by_id : Option Text
  pub expires_at : ℕ
  pub accepted_at : Option ℕ
  pub accepted_by_id : Option Text
  pub revoked_at : Option ℕ
  pub email_status : InvitationEmailStatus
  pub email_error : Option Text

pub record User : Type 0 where
  pub id : Text
  pub email : Text

-- What a request leaves behind outside the tables.
pub data MemberEffect : Type 0 where
  email_job : (invitation_id token : Text) → MemberEffect
  audit_invited audit_invite_resent audit_invite_revoked : (invitation_id : Text) → MemberEffect
  audit_joined : (user_id invitation_id : Text) → MemberEffect
  audit_role_changed : (user_id : Text) → (previous next : Role) → MemberEffect
  audit_removed : (user_id : Text) → Role → MemberEffect
  settings_updated : (organization_id : Text) → MemberEffect

pub record MemberStore : Type 0 where
  pub members : List Member
  pub invitations : List Invitation
  pub users : List User
  pub effects : List MemberEffect

-- What other requests may do to the tables between two statements of one request.
abbrev pub Meanwhile : Type 0
Meanwhile = MemberStore → MemberStore

abbrev pub emit : List MemberEffect → MemberStore → MemberStore
emit es s = record s { effects = s.effects ++ es }

abbrev pub is_active : MembershipStatus → Bool
is_active active = true
is_active invited = false

abbrev pub is_admin : Role → Bool
is_admin admin = true
is_admin _ = false

abbrev pub is_null {ℓ} : {A : Type ℓ} → Option A → Bool
is_null none = true
is_null (some _) = false

-- `userId_organizationId`, the unique key of a membership.
abbrev pub is_membership : (org user : Text) → Member → Bool
is_membership org user m = text_eq m.user_id user && text_eq m.organization_id org

unfoldable pub status_of : Invitation → (now : ℕ) → InviteStatus
status_of i now =
    if not (is_null i.accepted_at)
    then accepted
    else if not (is_null i.revoked_at)
    then revoked
    else if leb i.expires_at now
    then expired
    else pending

-- `INVITATION_TTL_MS`
abbrev pub invitation_ttl_ms : ℕ
invitation_ttl_ms = 7 * 24 * 60 * 60 * 1000

-- `[A-Za-z0-9_-]`
abbrev pub is_token_char : ℕ → Bool
is_token_char c =
    leb 65 c && leb c 90
    || (leb 97 c && leb c 122 || (leb 48 c && leb c 57 || (nat_eq c 95 || nat_eq c 45)))

unfoldable pub is_invitation_token_shape : Text → Bool
unfolding allb
is_invitation_token_shape token = nat_eq (length token) 43 && allb is_token_char token
