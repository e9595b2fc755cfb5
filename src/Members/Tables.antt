-- ===== src/Members/Tables.antt =====
-- The table of memberships under each operation of src/modules/members: its identifiers stay
-- distinct, and the operations on links leave it or add to it.
use critiq_be.Prelude.{
  ℕ, ◌≡◌, refl, sym, ap, ◌∙◌, arith, false, inl, inr, Option, none, some, List, [], ◌∷◌, Text,
  text_eq, leb, findb, findb_hit, findb_skip, anyb, Bool-cases, IsKeyed, has_key, ◌⊎◌, neither_true,
  text_eq_sym,
}
use critiq_be.Http.{Result, ok, err}
use critiq_be.Reviews.Types.{Role}
use critiq_be.Members.Types.{Member, Invitation, MemberStore, is_membership}
use critiq_be.Members.Roles.{id_of, has_id, update_role}
use critiq_be.Members.Invites.{
  Mail, enqueue_email, invite_write, has_invitation_id, update_invitations, is_unused,
}
use critiq_be.Members.Links.{
  resent, resend_write, renewed, revoke_open, mark_revoked, revoke_write, upsert_member,
  is_active_member, join, joined, is_claimable, mark_accepted,
}
use critiq_be.Members.Admins.{HasAdmin}

pub update_role-has_key :
    (k id : Text) (role : Role) (rows : List Member)
    → anyb (has_key id_of k) (update_role id role rows) ≡ anyb (has_key id_of k) rows
unfolding anyb update_role
update_role-has_key k id role [] = refl
update_role-has_key k id role (m ∷ ms) = elim (Bool-cases (has_id id m)) [
  | inl e ↦ rw (e, update_role-has_key k id role ms) refl
  | inr e ↦ rw (e, update_role-has_key k id role ms) refl
]

pub update_role-IsKeyed :
    (id : Text) (role : Role) (rows : List Member)
    → IsKeyed id_of rows
    → IsKeyed id_of (update_role id role rows)
unfolding update_role
update_role-IsKeyed id role [] k = tt
update_role-IsKeyed id role (m ∷ ms) (u, k) = elim (Bool-cases (has_id id m)) [
  | inl e ↦ rw e (update_role-has_key m.id id role ms ∙ u, update_role-IsKeyed id role ms k)
  | inr e ↦ rw e (update_role-has_key m.id id role ms ∙ u, update_role-IsKeyed id role ms k)
]

-- A new row has the new identifier, and an old one keeps its own.
upsert_member-has_key :
    (k new_id org user : Text) (role : Role) (rows : List Member)
    → text_eq new_id k ≡ false
    → anyb (has_key id_of k) (upsert_member new_id org user role rows) ≡ anyb (has_key id_of k) rows
unfolding anyb upsert_member
upsert_member-has_key k new_id org user role [] d = rw d refl
upsert_member-has_key k new_id org user role (m ∷ ms) d =
    elim (Bool-cases (is_membership org user m)) [
      | inl e ↦ rw e refl
      | inr e ↦ rw (e, upsert_member-has_key k new_id org user role ms d) refl
    ]

pub upsert_member-IsKeyed :
    (new_id org user : Text) (role : Role) (rows : List Member)
    → anyb (has_key id_of new_id) rows ≡ false
    → IsKeyed id_of rows
    → IsKeyed id_of (upsert_member new_id org user role rows)
unfolding anyb upsert_member
upsert_member-IsKeyed new_id org user role [] fresh k = (refl, tt)
upsert_member-IsKeyed new_id org user role (m ∷ ms) fresh (u, k) =
    elim (Bool-cases (is_membership org user m)) [
      | inl e ↦ rw e (u, k)
      | inr e ↦
          let (apart, fresh') =
            neither_true (text_eq m.id new_id) (anyb (has_key id_of new_id) ms) fresh in
          rw e (
            upsert_member-has_key m.id new_id org user role ms (text_eq_sym new_id m.id ∙ apart)
                ∙ u,
            upsert_member-IsKeyed new_id org user role ms fresh' k,
          )
    ]

-- A membership that was not active was no Admin's.
pub upsert_member-HasAdmin :
    (new_id org user held : Text) (role : Role) (rows : List Member)
    → is_active_member (findb (is_membership org user) rows) ≡ false
    → HasAdmin held rows
    → HasAdmin held (upsert_member new_id org user role rows)
unfolding anyb upsert_member
upsert_member-HasAdmin new_id org user held role [] idle has = cc
upsert_member-HasAdmin new_id org user held role (m ∷ ms) idle has =
    elim (Bool-cases (is_membership org user m)) [
      | inl e ↦
          let asleep =
            ap is_active_member (sym (findb_hit (is_membership org user) m ms e)) ∙ idle in
          rw e (ground (arith, asleep, has))
      | inr e ↦ rw e (
          ground (
            arith,
            has,
            upsert_member-HasAdmin new_id org user held role ms
                (ap is_active_member (sym (findb_skip (is_membership org user) m ms e)) ∙ idle),
          ))
    ]

pub join-members :
    (now : ℕ) (new_id user : Text) (s : MemberStore) (i : Invitation)
    → ((join now new_id user s i).0.members ≡ s.members)
      ⊎ ((is_active_member (findb (is_membership i.organization_id user) s.members) ≡ false)
          × ((join now new_id user s i).0.members
              ≡ upsert_member new_id i.organization_id user i.role s.members))
unfolding join joined
join-members now new_id user s i =
    let n = (update_invitations (is_claimable i now) (mark_accepted now user) s.invitations).1 in
    elim (Bool-cases (is_active_member (findb (is_membership i.organization_id user) s.members))) [
      | inl e ↦ inl (rw e refl)
      | inr e ↦ elim (Bool-cases (leb n 0)) [
        | inl f ↦ inl (rw (e, f) refl)
        | inr f ↦ inr (e, rw (e, f) refl)
      ]
    ]

-- An email for an invitation leaves the memberships alone.
enqueue_email-members :
    (mail : Mail) (s : MemberStore) (i : Invitation) (token : Text)
    → (enqueue_email mail s i token).0.members ≡ s.members
unfolding enqueue_email
enqueue_email-members mail s i token = elim (Bool-cases mail.configured) [
  | inl e ↦ elim (Bool-cases mail.accepts) [ inl f ↦ rw (e, f) refl | inr f ↦ rw (e, f) refl ]
  | inr e ↦ rw e refl
]

pub invite_write-members :
    (mail : Mail) (s : MemberStore) (token : Text) (i : Invitation) (r : Result (Unit {0}))
    → (invite_write mail s token i r).0.members ≡ s.members
invite_write-members mail s token i (err e) = refl
invite_write-members mail s token i (ok u) =
    enqueue_email-members mail (record s { invitations = i ∷ s.invitations }) i token

pub resend_write-members :
    (mail : Mail) (now : ℕ) (h token : Text) (s : MemberStore) (org id : Text)
    (r : Result Invitation)
    → (resend_write mail now h token s org id r).0.members ≡ s.members
resend_write-members mail now h token s org id (err e) = refl
resend_write-members mail now h token s org id (ok existing) =
    let (rows, n) = update_invitations (is_unused id) (renewed mail now h) s.invitations in
    elim (Bool-cases (leb n 0)) [
      | inl e ↦ rw e refl
      | inr e ↦ rw e (found rows (findb (has_invitation_id id) rows))
    ]
  where
    found :
        (rows : List Invitation) (o : Option Invitation)
        → (resent mail (record s { invitations = rows }) org id token o).0.members ≡ s.members
    found rows none = refl
    found rows (some i) = enqueue_email-members mail (record s { invitations = rows }) i token

pub revoke_write-members :
    (now : ℕ) (s : MemberStore) (org id : Text) (r : Result Invitation)
    → (revoke_write now s org id r).0.members ≡ s.members
unfolding revoke_open
revoke_write-members now s org id (err e) = refl
revoke_write-members now s org id (ok existing) =
    let n = (update_invitations (is_unused id) (mark_revoked now) s.invitations).1 in ground arith
