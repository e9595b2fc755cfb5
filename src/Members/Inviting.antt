-- ===== src/Members/Inviting.antt =====
-- `invite` of src/modules/members/members.service.ts as a whole request.
use critiq_be.Prelude.{
  ℕ, ◌+◌, ◌≡◌, refl, ◌∙◌, arith, Bool, true, false, not, inl, inr, ◌⊎◌, List, [], ◌∷◌, Text, lt→ltb,
  anyb, countb, Bool-cases,
}
use critiq_be.Http.{
  HttpError, Result, ok, err, ◌>>◌, guard, already_member, invite_pending, invite_rate_limited,
}
use critiq_be.Http.Inversion.{guard-ok, not-true, text_eq_refl}
use critiq_be.Reviews.Types.{Role}
use critiq_be.Members.Types.{Invitation, MemberStore, Meanwhile, invitation_ttl_ms}
use critiq_be.Members.Invites.{
  Mail, undelivered, has_invitation_id, update_invitation, enqueue_email, is_pending_for,
  is_member_at, checked_invite, new_invitation, created, invite_write, invited_address, invite,
}

guard-last : (c : Bool) (h : HttpError) → guard c h ≡ ok tt → c ≡ true
guard-last true h e = refl
guard-last false h e = cc

checked_invite-ok :
    (same_email : Text → Text → Bool) (allowed : Bool) (now : ℕ) (s s1 : MemberStore)
    (org email : Text)
    → checked_invite same_email allowed now s s1 org email ≡ ok tt
    → (allowed ≡ true)
      × (anyb (is_member_at same_email s.users org email) s.members ≡ false)
      × (anyb (is_pending_for org email now) s1.invitations ≡ false)
unfolding checked_invite
checked_invite-ok same_email allowed now s s1 org email h =
    let members = anyb (is_member_at same_email s.users org email) s.members in
    let pending = anyb (is_pending_for org email now) s1.invitations in
    let (within, h1) =
      guard-ok allowed invite_rate_limited
        (guard (not members) already_member >> guard (not pending) invite_pending) tt h in
    let (outside, h2) =
      guard-ok (not members) already_member (guard (not pending) invite_pending) tt h1 in
    (
      within,
      not-true members outside,
      not-true pending (guard-last (not pending) invite_pending h2),
    )

-- The state of the email says nothing of whether the invitation is open.
undelivered-countb :
    (org email : Text) (now : ℕ) (id : Text) (rows : List Invitation)
    → countb (is_pending_for org email now) (update_invitation id undelivered rows)
      ≡ countb (is_pending_for org email now) rows
unfolding update_invitation countb
undelivered-countb org email now id [] = refl
undelivered-countb org email now id (i ∷ rest) = elim (Bool-cases (has_invitation_id id i)) [
  | inl e ↦ rw (e, undelivered-countb org email now id rest) refl
  | inr e ↦ rw (e, undelivered-countb org email now id rest) refl
]

enqueue_email-countb :
    (mail : Mail) (s : MemberStore) (i : Invitation) (token org email : Text) (now : ℕ)
    → countb (is_pending_for org email now) (enqueue_email mail s i token).0.invitations
      ≡ countb (is_pending_for org email now) s.invitations
unfolding enqueue_email
enqueue_email-countb mail s i token org email now = elim (Bool-cases mail.configured) [
  | inl e ↦ elim (Bool-cases mail.accepts) [
    | inl f ↦ rw (e, f) refl
    | inr f ↦ rw (e, f) (undelivered-countb org email now i.id s.invitations)
  ]
  | inr e ↦ rw e refl
]

new_invitation-pending :
    (mail : Mail) (now : ℕ) (id org actor email h : Text) (role : Role)
    → is_pending_for org email now (new_invitation mail now id org actor email h role) ≡ true
new_invitation-pending mail now id org actor email h role =
    rw (text_eq_refl org, text_eq_refl email, lt→ltb now (now + invitation_ttl_ms) (omega arith))
      refl

created-countb :
    (mail : Mail) (now : ℕ) (id org actor email h : Text) (role : Role) (s : MemberStore)
    (token : Text)
    → countb
        (is_pending_for org email now)
        (created mail s token (new_invitation mail now id org actor email h role)).0.invitations
      ≡ 1 + countb (is_pending_for org email now) s.invitations
created-countb mail now id org actor email h role s token =
    let i = new_invitation mail now id org actor email h role in
    let s' = record s { invitations = i ∷ s.invitations } in
    enqueue_email-countb mail s' i token org email now
    ∙ unfold countb in rw (new_invitation-pending mail now id org actor email h role) refl

-- What `invite` answers, in terms of the stores that it reads, of the one that it writes to, and of
-- the one that it leaves.
abbrev pub InviteOutcome :
    (same_email : Text → Text → Bool)
    → (allowed : Bool) → (now : ℕ) → (org address : Text) → (s s1 s2 : MemberStore)
    → MemberStore × Result Invitation
    → Type 0
InviteOutcome same_email allowed now org address s s1 s2 done =
    ((h : HttpError) × (done ≡ (s2, err h)))
    ⊎ ((allowed ≡ true)
        × (anyb (is_member_at same_email s.users org address) s.members ≡ false)
        × (anyb (is_pending_for org address now) s1.invitations ≡ false)
        × (countb (is_pending_for org address now) done.0.invitations
            ≡ 1 + countb (is_pending_for org address now) s2.invitations))

written-outcome :
    (same_email : Text → Text → Bool) (mail : Mail) (allowed : Bool) (now : ℕ)
    (id token org actor address h : Text) (role : Role) (s s1 s2 : MemberStore)
    (r : Result (Unit {0}))
    → checked_invite same_email allowed now s s1 org address ≡ r
    → InviteOutcome same_email allowed now org address s s1 s2
        (invite_write mail s2 token (new_invitation mail now id org actor address h role) r)
written-outcome same_email mail allowed now id token org actor address h role s s1 s2 (err x) e =
    inl (x, refl)
written-outcome same_email mail allowed now id token org actor address h role s s1 s2 (ok u) e =
    let (within, outside, free) = checked_invite-ok same_email allowed now s s1 org address e in
    inr (within, outside, free, created-countb mail now id org actor address h role s2 token)

-- An invitation, whatever the queue and the mail server do and whatever other requests commit
-- between its statements, either answers an error and writes nothing, or the organization was
-- within its rate limit, the trimmed and lowered address belonged to no active member of it at the
-- first read and had no open invitation of it at the second; afterwards the address has exactly one
-- open invitation more than it had at the create.
pub invite_outcome :
    (is_space : ℕ → Bool) (lower hash : Text → Text) (same_email : Text → Text → Bool) (mail : Mail)
    (allowed : Bool) (now : ℕ) (in_checks before_create : Meanwhile) (new_id token : Text)
    (s : MemberStore) (org actor email : Text) (role : Role)
    → InviteOutcome same_email allowed now org
        (invited_address is_space lower email)
        s
        (in_checks s)
        (before_create (in_checks s))
        (invite is_space lower hash same_email mail allowed now in_checks before_create new_id token
          s org actor email role)
unfolding invite
invite_outcome is_space lower hash same_email mail allowed now in_checks before_create new_id token
      s org actor email role =
    let address = invited_address is_space lower email in
    written-outcome same_email mail allowed now new_id token org actor address (hash token) role s
      (in_checks s) (before_create (in_checks s))
      (checked_invite same_email allowed now s (in_checks s) org address) refl
