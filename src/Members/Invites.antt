-- ===== src/Members/Invites.antt =====
-- `invite` and `enqueueEmail` of src/modules/members/members.service.ts. The hash of a token,
-- the case of a text, what other requests commit between its statements and the answers of the rate limiter and of the email queue are parameters.
use critiq_be.Prelude.{
  ℕ, ◌+◌, Bool, false, not, ◌&&◌, Option, none, some, List, [], ◌∷◌, Text, text_eq, ltb, codes,
  findb, anyb, if◌then◌else◌,
}
use critiq_be.Similarity.{trim}
use critiq_be.Http.{
  Result, ok, err, ◌>>◌, guard, already_member, invite_pending, invite_rate_limited,
}
use critiq_be.Reviews.Types.{Role}
use critiq_be.Members.Types.{
  InvitationEmailStatus, email_pending, email_failed, not_configured, Member, Invitation, User,
  MemberStore, Meanwhile, email_job, audit_invited, settings_updated, emit, is_active, is_null,
  invitation_ttl_ms,
}

-- `mailConfigured`, and whether the queue takes the job.
pub record Mail : Type 0 where
  pub configured : Bool
  pub accepts : Bool

abbrev pub initial_email_status : Mail → InvitationEmailStatus
initial_email_status mail = if mail.configured then email_pending else not_configured

abbrev pub queue_unavailable : Text
queue_unavailable = codes "queue_unavailable"

abbrev pub undelivered : Invitation → Invitation
undelivered i = record i { email_status = email_failed; email_error = some queue_unavailable }

abbrev pub has_invitation_id : Text → Invitation → Bool
has_invitation_id id i = text_eq i.id id

-- `invitation.update({ where: { id }, data })`
unfoldable pub update_invitation :
    Text → (Invitation → Invitation) → List Invitation → List Invitation
update_invitation id f [] = []
update_invitation id f (i ∷ rest) =
    let rest' = update_invitation id f rest in
    if has_invitation_id id i then f i ∷ rest' else i ∷ rest'

-- `invitation.updateMany({ where: { id, ... }, data })`, and how many rows it changed.
unfoldable pub update_invitations :
    (Invitation → Bool) → (Invitation → Invitation) → List Invitation → List Invitation × ℕ
update_invitations test f [] = ([], 0)
update_invitations test f (i ∷ rest) =
    let (rest', n) = update_invitations test f rest in
    if test i then (f i ∷ rest', n + 1) else (i ∷ rest', n)

-- `{ id, acceptedAt: null, revokedAt: null }`
abbrev pub is_unused : Text → Invitation → Bool
is_unused id i = text_eq i.id id && (is_null i.accepted_at && is_null i.revoked_at)

unfoldable pub enqueue_email : Mail → MemberStore → Invitation → Text → MemberStore × Invitation
unfolding update_invitation
enqueue_email mail s i token =
    if not mail.configured
    then (s, i)
    else if mail.accepts
    then (emit (email_job i.id token ∷ []) s, i)
    else (
      record s { invitations = update_invitation i.id undelivered s.invitations },
      undelivered i,
    )

-- `{ organizationId, email, acceptedAt: null, revokedAt: null, expiresAt: { gt: now } }`
abbrev pub is_pending_for : (org email : Text) → (now : ℕ) → Invitation → Bool
is_pending_for org email now i =
    text_eq i.organization_id org
    && (text_eq i.email email
        && (is_null i.accepted_at && (is_null i.revoked_at && ltb now i.expires_at)))

module _ (same_email : Text → Text → Bool) where
  abbrev pub user_has_email : Text → Option User → Bool
  user_has_email email none = false
  user_has_email email (some u) = same_email u.email email

  -- An active member of the organization whose user has the address.
  abbrev pub is_member_at : List User → (org email : Text) → Member → Bool
  is_member_at users org email m =
      text_eq m.organization_id org
      && (is_active m.status && user_has_email email (findb (λ u. text_eq u.id m.user_id) users))

  -- The members are read from `s`, the invitations then from `s1`.
  unfoldable pub checked_invite :
      (allowed : Bool) → (now : ℕ) → (s s1 : MemberStore) → (org email : Text) → Result (Unit {0})
  unfolding anyb findb
  checked_invite allowed now s s1 org email = do
    guard allowed invite_rate_limited
    guard (not (anyb (is_member_at s.users org email) s.members)) already_member
    guard (not (anyb (is_pending_for org email now) s1.invitations)) invite_pending

abbrev pub new_invitation :
    Mail → (now : ℕ) → (id org actor email token_hash : Text) → Role → Invitation
new_invitation mail now id org actor email token_hash role = record {
  id = id;
  organization_id = org;
  email = email;
  role = role;
  token_hash = token_hash;
  invited_by_id = some actor;
  expires_at = now + invitation_ttl_ms;
  accepted_at = none;
  accepted_by_id = none;
  revoked_at = none;
  email_status = initial_email_status mail;
  email_error = none;
}

abbrev pub created : Mail → MemberStore → Text → Invitation → MemberStore × Result Invitation
created mail s token i =
    let (s', sent) = enqueue_email mail (record s { invitations = i ∷ s.invitations }) i token in
    (emit (audit_invited i.id ∷ settings_updated i.organization_id ∷ []) s', ok sent)

abbrev pub invite_write :
    Mail → MemberStore → Text → Invitation → Result (Unit {0}) → MemberStore × Result Invitation
invite_write mail s token i (err e) = (s, err e)
invite_write mail s token i (ok u) = created mail s token i

-- `dto.email.trim().toLowerCase()`
abbrev pub invited_address : (is_space : ℕ → Bool) → (lower : Text → Text) → Text → Text
invited_address is_space lower email = lower (trim is_space email)

-- `in_checks` and `before_create` are what other requests commit between the two reads, and between
-- the second and the create: the statements are in no transaction.
unfoldable pub invite :
    (is_space : ℕ → Bool)
    → (lower hash : Text → Text) → (same_email : Text → Text → Bool) → Mail
    → (allowed : Bool) → (now : ℕ) → (in_checks before_create : Meanwhile) → (new_id token : Text)
    → MemberStore
    → (org actor email : Text) → Role
    → MemberStore × Result Invitation
invite is_space lower hash same_email mail allowed now in_checks before_create new_id token s org
      actor email role =
    let address = invited_address is_space lower email in
    invite_write mail (before_create (in_checks s)) token
      (new_invitation mail now new_id org actor address (hash token) role)
      (checked_invite same_email allowed now s (in_checks s) org address)
