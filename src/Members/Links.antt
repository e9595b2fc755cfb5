-- ===== src/Members/Links.antt =====
-- `resend`, `revoke` and `accept` of src/modules/members/members.service.ts. `meanwhile` is what
-- other requests commit between the read of the invitation and the write.
use critiq_be.Prelude.{
  ℕ, ◌+◌, Bool, false, ◌&&◌, Option, none, some, List, [], ◌∷◌, Text, text_eq, leb, ltb, findb,
  if◌then◌else◌,
}
use critiq_be.Http.{
  Result, ok, err, ◌>>=◌, ◌>>◌, guard, or_throw, already_member, invite_used, invite_revoked,
  invite_expired, invite_rate_limited, invite_not_found, session_user_missing, record_gone,
}
use critiq_be.Reviews.Types.{Role}
use critiq_be.Members.Types.{
  active, InviteStatus, pending, accepted, revoked, expired, Member, Invitation, MemberStore,
  Meanwhile, audit_invite_resent, audit_invite_revoked, audit_joined, settings_updated, emit,
  is_active, is_null, is_membership, status_of, invitation_ttl_ms, is_invitation_token_shape,
}
use critiq_be.Members.Invites.{
  Mail, initial_email_status, has_invitation_id, update_invitations, is_unused, enqueue_email,
}

unfoldable pub find_invitation_or_throw :
    List Invitation → (org invitation_id : Text) → Result Invitation
unfolding findb
find_invitation_or_throw rows org invitation_id = do
  i ← or_throw (findb (has_invitation_id invitation_id) rows) invite_not_found
  guard (text_eq i.organization_id org) invite_not_found
  ok i

abbrev pub assert_open : Invitation → Result (Unit {0})
assert_open i = do
  guard (is_null i.accepted_at) invite_used
  guard (is_null i.revoked_at) invite_revoked

unfoldable pub checked_resend :
    (allowed : Bool) → List Invitation → (org invitation_id : Text) → Result Invitation
unfolding find_invitation_or_throw
checked_resend allowed rows org invitation_id = do
  guard allowed invite_rate_limited
  i ← find_invitation_or_throw rows org invitation_id
  assert_open i
  ok i

abbrev pub renewed : Mail → (now : ℕ) → (token_hash : Text) → Invitation → Invitation
renewed mail now token_hash i = record i {
  token_hash = token_hash;
  expires_at = now + invitation_ttl_ms;
  email_status = initial_email_status mail;
  email_error = none;
}

abbrev pub resent :
    Mail → MemberStore → (org id token : Text) → Option Invitation → MemberStore × Result Invitation
resent mail s org id token none = (s, err record_gone)
resent mail s org id token (some i) =
    let (s', sent) = enqueue_email mail s i token in
    (emit (audit_invite_resent id ∷ settings_updated org ∷ []) s', ok sent)

abbrev pub resend_write :
    Mail
    → (now : ℕ) → (token_hash token : Text) → MemberStore
    → (org id : Text) → Result Invitation
    → MemberStore × Result Invitation
resend_write mail now token_hash token s org id (err e) = (s, err e)
resend_write mail now token_hash token s org id (ok existing) =
    let (rows, n) = update_invitations (is_unused id) (renewed mail now token_hash) s.invitations in
    if leb n 0
    then (s, err invite_used)
    else resent mail (record s { invitations = rows }) org id token
        (findb (has_invitation_id id) rows)

unfoldable pub resend :
    (hash : Text → Text)
    → Mail
    → (allowed : Bool) → (now : ℕ) → (token : Text) → Meanwhile
    → MemberStore
    → (org id : Text) → MemberStore × Result Invitation
unfolding update_invitations findb
resend hash mail allowed now token meanwhile s org id =
    resend_write mail now (hash token) token (meanwhile s) org id
      (checked_resend allowed s.invitations org id)

abbrev pub mark_revoked : (now : ℕ) → Invitation → Invitation
mark_revoked now i = record i { revoked_at = some now }

unfoldable pub revoke_open : (now : ℕ) → MemberStore → (org id : Text) → MemberStore
unfolding update_invitations
revoke_open now s org id =
    let (rows, n) = update_invitations (is_unused id) (mark_revoked now) s.invitations in
    if leb n 0
    then record s { invitations = rows }
    else emit (audit_invite_revoked id ∷ settings_updated org ∷ [])
        (record s { invitations = rows })

unfoldable pub checked_revoke : List Invitation → (org id : Text) → Result Invitation
unfolding find_invitation_or_throw
checked_revoke rows org id = do
  existing ← find_invitation_or_throw rows org id
  guard (is_null existing.accepted_at) invite_used
  ok existing

abbrev pub revoke_write :
    (now : ℕ) → MemberStore → (org id : Text) → Result Invitation → MemberStore × Result Text
revoke_write now s org id (err e) = (s, err e)
revoke_write now s org id (ok existing) =
    (if is_null existing.revoked_at then revoke_open now s org id else s, ok id)

unfoldable pub revoke :
    (now : ℕ) → Meanwhile → MemberStore → (org id : Text) → MemberStore × Result Text
revoke now meanwhile s org id =
    revoke_write now (meanwhile s) org id (checked_revoke s.invitations org id)

-- `accept`

abbrev pub has_token_hash : Text → Invitation → Bool
has_token_hash token_hash i = text_eq i.token_hash token_hash

unfoldable pub find_by_token :
    (hash : Text → Text) → List Invitation → (token : Text) → Result Invitation
unfolding findb is_invitation_token_shape
find_by_token hash rows token =
    or_throw
      (if is_invitation_token_shape token then findb (has_token_hash (hash token)) rows else none)
      invite_not_found

abbrev pub assert_pending : InviteStatus → Result (Unit {0})
assert_pending pending = ok tt
assert_pending accepted = err invite_used
assert_pending revoked = err invite_revoked
assert_pending expired = err invite_expired

unfoldable pub checked_accept :
    (hash : Text → Text) → (now : ℕ) → MemberStore → (token user : Text) → Result Invitation
unfolding find_by_token findb status_of
checked_accept hash now s token user = do
  i ← find_by_token hash s.invitations token
  assert_pending (status_of i now)
  found ← or_throw (findb (λ u. text_eq u.id user) s.users) session_user_missing
  ok i

-- The invitation as it was read, still open: what `accept` claims.
abbrev pub is_claimable : Invitation → (now : ℕ) → Invitation → Bool
is_claimable read now i =
    text_eq i.id read.id
    && (text_eq i.token_hash read.token_hash
        && (is_null i.accepted_at && (is_null i.revoked_at && ltb now i.expires_at)))

abbrev pub mark_accepted : (now : ℕ) → (user : Text) → Invitation → Invitation
mark_accepted now user i = record i { accepted_at = some now; accepted_by_id = some user }

abbrev pub is_active_member : Option Member → Bool
is_active_member none = false
is_active_member (some m) = is_active m.status

abbrev pub joined_as : Role → Member → Member
joined_as role m = record m { role = role; status = active }

unfoldable pub upsert_member : (new_id org user : Text) → Role → List Member → List Member
upsert_member new_id org user role [] =
    record { id = new_id; user_id = user; organization_id = org; role = role; status = active } ∷ []
upsert_member new_id org user role (m ∷ ms) =
    let rest = upsert_member new_id org user role ms in
    if is_membership org user m then joined_as role m ∷ ms else m ∷ rest

unfoldable pub joined :
    (new_id user : Text) → MemberStore → Invitation → List Invitation → MemberStore
unfolding upsert_member
joined new_id user s i rows =
    emit (audit_joined user i.id ∷ settings_updated i.organization_id ∷ []) (record s {
      invitations = rows;
      members = upsert_member new_id i.organization_id user i.role s.members;
    })

-- The transaction: a member's own link stays open; otherwise the claim, then the membership.
unfoldable pub join :
    (now : ℕ) → (new_id user : Text) → MemberStore → Invitation → MemberStore × Result Role
unfolding findb update_invitations joined
join now new_id user s i =
    let (rows, n) =
      update_invitations (is_claimable i now) (mark_accepted now user) s.invitations in
    if is_active_member (findb (is_membership i.organization_id user) s.members)
    then (s, err already_member)
    else if leb n 0
    then (s, err invite_used)
    else (joined new_id user s i rows, ok i.role)

abbrev pub accept_found :
    (now : ℕ) → (new_id user : Text) → MemberStore → Result Invitation → MemberStore × Result Role
accept_found now new_id user s (err e) = (s, err e)
accept_found now new_id user s (ok i) = join now new_id user s i

unfoldable pub accept :
    (hash : Text → Text)
    → (now : ℕ) → Meanwhile
    → (new_id : Text) → MemberStore
    → (token user : Text) → MemberStore × Result Role
accept hash now meanwhile new_id s token user =
    accept_found now new_id user (meanwhile s) (checked_accept hash now s token user)
