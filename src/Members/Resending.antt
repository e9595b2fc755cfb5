-- ===== src/Members/Resending.antt =====
-- `resend` of src/modules/members/members.service.ts: the old link stops working.
use critiq_be.Prelude.{
  ℕ, ◌≡◌, refl, sym, ap, ◌∙◌, Bool, true, false, inl, inr, Option, none, some, List, [], ◌∷◌, Text,
  text_eq, text_eq_iff, leb, findb, findb-true, findb-All, findb_absent, anyb, map, if◌then◌else◌,
  Bool-cases, All, IsKeyed, IsOnly, findb-IsOnly, true-not-false,
}
use mathlib.Core.Path.{subst}
use critiq_be.Http.{
  Result, ok, err, ◌>>=◌, ◌>>◌, guard, invite_not_found, invite_used, invite_revoked,
  invite_rate_limited,
}
use critiq_be.Http.Inversion.{
  bind-ok, guard-ok, or_throw-ok, ok-injective, err-not-ok, text_eq_refl,
}
use critiq_be.Members.Types.{Invitation, MemberStore, Meanwhile, is_null, is_invitation_token_shape}
use critiq_be.Members.Invites.{
  Mail, undelivered, has_invitation_id, update_invitation, update_invitations, is_unused,
  enqueue_email,
}
use critiq_be.Members.Links.{
  find_invitation_or_throw, assert_open, checked_resend, renewed, resent, resend_write, resend,
  has_token_hash, find_by_token, checked_accept, accept,
}
use critiq_be.Members.Claims.{token_hash_of, update_invitations-map}
use critiq_be.Members.Runs.{at_once}

abbrev pub invitation_id : Invitation → Text
invitation_id i = i.id

abbrev pub renew : Mail → (now : ℕ) → (token_hash id : Text) → Invitation → Invitation
renew mail now token_hash id i = if is_unused id i then renewed mail now token_hash i else i

-- The only row with the old link has the new one.
renewed-none :
    (mail : Mail) (now : ℕ) (token_hash h : Text) (i : Invitation) (rows : List Invitation)
    → All (IsOnly token_hash_of i) rows
    → is_unused i.id i ≡ true
    → i.token_hash ≡ h
    → text_eq token_hash h ≡ false
    → anyb (has_token_hash h) (map (renew mail now token_hash i.id) rows) ≡ false
unfolding anyb
renewed-none mail now token_hash h i [] only unused old new = refl
renewed-none mail now token_hash h i (x ∷ rows) (o, only) unused old new =
    let rest = renewed-none mail now token_hash h i rows only unused old new in
    elim (Bool-cases (is_unused i.id x)) [
      | inl e ↦ rw (e, new) rest
      | inr e ↦ rw (e, kept_apart x o e) rest
    ]
  where
    kept_apart :
        (x : Invitation)
        → IsOnly token_hash_of i x
        → is_unused i.id x ≡ false
        → has_token_hash h x ≡ false
    kept_apart x o e = elim (Bool-cases (has_token_hash h x)) [
      | inl linked ↦ absurd (
          true-not-false (is_unused i.id i) unused
            (subst (λ y. is_unused i.id y ≡ false) (o (rw old linked)) e))
      | inr apart ↦ apart
    ]

undelivered-has_token_hash :
    (h id : Text) (rows : List Invitation)
    → anyb (has_token_hash h) (update_invitation id undelivered rows) ≡ anyb (has_token_hash h) rows
unfolding anyb update_invitation
undelivered-has_token_hash h id [] = refl
undelivered-has_token_hash h id (i ∷ rows) = elim (Bool-cases (has_invitation_id id i)) [
  | inl e ↦ rw (e, undelivered-has_token_hash h id rows) refl
  | inr e ↦ rw (e, undelivered-has_token_hash h id rows) refl
]

enqueue_email-has_token_hash :
    (mail : Mail) (s : MemberStore) (i : Invitation) (token h : Text)
    → anyb (has_token_hash h) (enqueue_email mail s i token).0.invitations
      ≡ anyb (has_token_hash h) s.invitations
unfolding enqueue_email
enqueue_email-has_token_hash mail s i token h = elim (Bool-cases mail.configured) [
  | inl e ↦ elim (Bool-cases mail.accepts) [
    | inl f ↦ rw (e, f) refl
    | inr f ↦ rw (e, f) (undelivered-has_token_hash h i.id s.invitations)
  ]
  | inr e ↦ rw e refl
]

resent-has_token_hash :
    (mail : Mail) (s : MemberStore) (org id token h : Text) (o : Option Invitation)
    → anyb (has_token_hash h) (resent mail s org id token o).0.invitations
      ≡ anyb (has_token_hash h) s.invitations
resent-has_token_hash mail s org id token h none = refl
resent-has_token_hash mail s org id token h (some i) = enqueue_email-has_token_hash mail s i token h

abbrev answer : MemberStore × Result Invitation → Result Invitation
answer r = r.1

resend_lost :
    (mail : Mail) (now : ℕ) (token_hash token : Text) (s : MemberStore) (org id : Text)
    (existing : Invitation)
    → leb (update_invitations (is_unused id) (renewed mail now token_hash) s.invitations).1 0 ≡ true
    → resend_write mail now token_hash token s org id (ok existing) ≡ (s, err invite_used)
resend_lost mail now token_hash token s org id existing e = rw e refl

resend_write-has_token_hash :
    (mail : Mail) (now : ℕ) (token_hash token : Text) (s : MemberStore) (org id h : Text)
    (existing r : Invitation)
    → (resend_write mail now token_hash token s org id (ok existing)).1 ≡ ok r
    → anyb
        (has_token_hash h)
        (resend_write mail now token_hash token s org id (ok existing)).0.invitations
      ≡ anyb (has_token_hash h) (map (renew mail now token_hash id) s.invitations)
resend_write-has_token_hash mail now token_hash token s org id h existing r done =
    let (rows, n) = update_invitations (is_unused id) (renewed mail now token_hash) s.invitations in
    elim (Bool-cases (leb n 0)) [
      | inl e ↦ absurd (
          err-not-ok invite_used r
            (ap answer (sym (resend_lost mail now token_hash token s org id existing e)) ∙ done))
      | inr e ↦ rw e (
          resent-has_token_hash mail (record s { invitations = rows }) org id token h
            (findb (has_invitation_id id) rows)
          ∙ ap (anyb (has_token_hash h))
              (update_invitations-map (is_unused id) (renewed mail now token_hash) s.invitations))
    ]

-- The invitation that a new link was asked for: found by its identifier, and open.
checked_resend-ok :
    (allowed : Bool) (rows : List Invitation) (org id : Text) (i : Invitation)
    → checked_resend allowed rows org id ≡ ok i
    → (findb (has_invitation_id id) rows ≡ some i) × (assert_open i ≡ ok tt)
unfolding checked_resend
checked_resend-ok allowed rows org id i h =
    let (within, h1) =
      guard-ok allowed invite_rate_limited
        (find_invitation_or_throw rows org id >>= λ i. assert_open i >> ok i) i h in
    let (a, found, h2) =
      bind-ok (find_invitation_or_throw rows org id) (λ i. assert_open i >> ok i) i h1 in
    let (u, opened, h3) = bind-ok (assert_open a) (λ _. ok a) i h2 in
    let (b, at, h4) =
      or_throw-ok (findb (has_invitation_id id) rows) invite_not_found
        (λ i. guard (text_eq i.organization_id org) invite_not_found >> ok i) a found in
    let (own, h5) = guard-ok (text_eq b.organization_id org) invite_not_found (ok b) a h4 in
    subst (λ i. (findb (has_invitation_id id) rows ≡ some i) × (assert_open i ≡ ok tt))
      (ok-injective a i h3) (at ∙ ap some (ok-injective b a h5), opened)

open-unused : (i : Invitation) → assert_open i ≡ ok tt → is_unused i.id i ≡ true
open-unused i h =
    let (fresh, h1) =
      guard-ok (is_null i.accepted_at) invite_used (guard (is_null i.revoked_at) invite_revoked) tt
        h in
    rw (text_eq_refl i.id, fresh) (unrevoked (is_null i.revoked_at) h1)
  where
    unrevoked : (b : Bool) → guard b invite_revoked ≡ ok tt → b ≡ true
    unrevoked true e = refl
    unrevoked false e = cc

-- No row with the hash: the link finds nothing.
unlinked-accept :
    (hash : Text → Text) (now : ℕ) (meanwhile : Meanwhile) (new_id : Text) (s : MemberStore)
    (token user : Text)
    → findb (has_token_hash (hash token)) s.invitations ≡ none
    → accept hash now meanwhile new_id s token user ≡ (meanwhile s, err invite_not_found)
unfolding accept checked_accept find_by_token
unlinked-accept hash now meanwhile new_id s token user e =
    elim (Bool-cases (is_invitation_token_shape token)) [
      | inl f ↦ rw (f, e) refl
      | inr f ↦ rw f refl
    ]

found_open :
    (mail : Mail) (now : ℕ) (token_hash token : Text) (s : MemberStore) (org id : Text)
    (c : Result Invitation) (r : Invitation)
    → (resend_write mail now token_hash token s org id c).1 ≡ ok r
    → (existing : Invitation) × (c ≡ ok existing)
found_open mail now token_hash token s org id (err h) r done = absurd (err-not-ok h r done)
found_open mail now token_hash token s org id (ok existing) r done = (existing, refl)

-- After a new link was made for an invitation, the old one stops working. In tables where the
-- identifiers and the links of the invitations are unique, when the new link's hash is not the old
-- one's, and no other request ran in between, any later request with the old link answers that
-- there is no such invitation, and changes nothing.
pub resend_retires :
    (hash : Text → Text) (mail : Mail) (allowed : Bool) (now : ℕ) (token : Text) (s : MemberStore)
    (org old : Text) (i r : Invitation) (now' : ℕ) (meanwhile : Meanwhile) (new_id user : Text)
    → IsKeyed invitation_id s.invitations
    → IsKeyed token_hash_of s.invitations
    → findb (has_token_hash (hash old)) s.invitations ≡ some i
    → text_eq (hash token) (hash old) ≡ false
    → (resend hash mail allowed now token at_once s org i.id).1 ≡ ok r
    → accept hash now' meanwhile new_id
        (resend hash mail allowed now token at_once s org i.id).0
        old
        user
      ≡ (meanwhile (resend hash mail allowed now token at_once s org i.id).0, err invite_not_found)
unfolding resend
resend_retires hash mail allowed now token s org old i r now' meanwhile new_id user ids links found
      new done =
    let (existing, c) =
      found_open mail now (hash token) token s org i.id
        (checked_resend allowed s.invitations org i.id) r done in
    let (at, opened) = checked_resend-ok allowed s.invitations org i.id existing c in
    let linked =
      (text_eq_iff i.token_hash (hash old)).0
        (findb-true (has_token_hash (hash old)) s.invitations i found) in
    let named =
      (text_eq_iff existing.id i.id).0
        (findb-true (has_invitation_id i.id) s.invitations existing at) in
    let same =
      findb-All (IsOnly invitation_id existing) (has_token_hash (hash old)) s.invitations i
        (findb-IsOnly invitation_id (has_invitation_id i.id) s.invitations existing ids at) found
        ((text_eq_iff i.id existing.id).1 (sym named)) in
    let unused = open-unused i (subst (λ i. assert_open i ≡ ok tt) (sym same) opened) in
    unlinked-accept hash now' meanwhile new_id
      (resend_write mail now (hash token) token s org i.id
        (checked_resend allowed s.invitations org i.id)).0
      old user
      (findb_absent (has_token_hash (hash old))
        (resend_write mail now (hash token) token s org i.id
          (checked_resend allowed s.invitations org i.id)).0.invitations
        (rw c (
          resend_write-has_token_hash mail now (hash token) token s org i.id (hash old) existing r
            (ap (λ c. (resend_write mail now (hash token) token s org i.id c).1) (sym c) ∙ done)
          ∙ renewed-none mail now (hash token) (hash old) i s.invitations
              (findb-IsOnly token_hash_of (has_token_hash (hash old)) s.invitations i links found)
              unused linked new)))
