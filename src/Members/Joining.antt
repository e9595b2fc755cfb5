-- ===== src/Members/Joining.antt =====
-- `accept` of src/modules/members/members.service.ts: what it answers, and what it leaves.
use critiq_be.Prelude.{
  ℕ, ◌≡◌, refl, true, false, ◌⊎◌, inl, inr, some, List, [], ◌∷◌, Text, findb, anyb, Bool-cases, map,
}
use critiq_be.Http.{HttpError, Result, ok, err}
use critiq_be.Http.Inversion.{text_eq_refl}
use critiq_be.Reviews.Types.{Role}
use critiq_be.Members.Types.{
  active, Member, Invitation, Meanwhile, MemberStore, status_of, is_invitation_token_shape,
  is_membership,
}
use critiq_be.Members.Links.{
  is_claimable, has_token_hash, checked_accept, assert_pending, join, joined, is_active_member,
  joined_as, upsert_member, accept_found, accept,
}
use critiq_be.Members.Claims.{claim}
use critiq_be.Members.Accepting.{checked_accept-ok, join-cases}

-- The membership that an acceptance leaves.
upsert_member-findb :
    (new_id org user : Text) (role : Role) (rows : List Member)
    → (m : Member) × (findb (is_membership org user) (upsert_member new_id org user role rows)
        ≡ some m)
      × (m.role ≡ role)
      × (m.status ≡ active)
unfolding upsert_member findb
upsert_member-findb new_id org user role [] = (
  record { id = new_id; user_id = user; organization_id = org; role = role; status = active },
  rw (text_eq_refl user, text_eq_refl org) refl,
  refl,
  refl,
)
upsert_member-findb new_id org user role (m ∷ ms) = elim (Bool-cases (is_membership org user m)) [
  | inl e ↦ (joined_as role m, rw (e, e) refl, refl, refl)
  | inr e ↦
      let (n, found, r, a) = upsert_member-findb new_id org user role ms in
      (n, rw (e, e) found, r, a)
]

-- The rows read were of the link, and open.
abbrev pub Read :
    (hash : Text → Text) → (now : ℕ) → MemberStore → (token : Text) → Invitation → Type 0
Read hash now s token i =
    (findb (has_token_hash (hash token)) s.invitations ≡ some i)
    × (assert_pending (status_of i now) ≡ ok tt)

-- The claim by the user, as what the tables hold after it.
abbrev pub Joined : (now : ℕ) → (user : Text) → (before after : MemberStore) → Invitation → Type 0
Joined now user before after i =
    (is_active_member (findb (is_membership i.organization_id user) before.members) ≡ false)
    × (anyb (is_claimable i now) before.invitations ≡ true)
    × (after.invitations ≡ map (claim i now user) before.invitations)
    × ((m : Member) × (findb (is_membership i.organization_id user) after.members ≡ some m)
        × (m.role ≡ i.role)
        × (m.status ≡ active))

joined-Joined :
    (now : ℕ) (new_id user : Text) (s : MemberStore) (i : Invitation)
    → is_active_member (findb (is_membership i.organization_id user) s.members) ≡ false
    → anyb (is_claimable i now) s.invitations ≡ true
    → Joined now user s (joined new_id user s i (map (claim i now user) s.invitations)) i
unfolding joined
joined-Joined now new_id user s i idle claimed =
    (idle, claimed, refl, upsert_member-findb new_id i.organization_id user i.role s.members)

pub accept_found-ok :
    (now : ℕ) (new_id user : Text) (s : MemberStore) (r : Result Invitation) (role : Role)
    → (accept_found now new_id user s r).1 ≡ ok role
    → (i : Invitation) × (r ≡ ok i) × ((join now new_id user s i).1 ≡ ok role)
accept_found-ok now new_id user s (err e) role h = cc
accept_found-ok now new_id user s (ok i) role h = (i, refl, h)

-- A request to accept a link, with any requests of others between its read and its transaction,
-- either answers an error and leaves the tables as the others left them, or answers the role of an
-- invitation that it read by the link's hash as pending. Then the user was no active member, the
-- claim found the invitation with the same link, unused, unrevoked and unexpired, exactly the rows
-- it found are now accepted by the user, and the user's membership of the organization is active
-- with the invitation's role.
pub accept_outcome :
    (hash : Text → Text) (now : ℕ) (meanwhile : Meanwhile) (new_id : Text) (s : MemberStore)
    (token user : Text)
    → ((h : HttpError) × (accept hash now meanwhile new_id s token user ≡ (meanwhile s, err h)))
      ⊎ ((i : Invitation) × Read hash now s token i
          × Joined now user (meanwhile s) (accept hash now meanwhile new_id s token user).0 i
          × ((accept hash now meanwhile new_id s token user).1 ≡ ok i.role))
unfolding accept
accept_outcome hash now meanwhile new_id s token user =
    found (checked_accept hash now s token user) (checked_accept-ok hash now s token user)
  where
    found :
        (r : Result Invitation)
        → ((i : Invitation)
            → r ≡ ok i
            → (is_invitation_token_shape token ≡ true)
              × (findb (has_token_hash (hash token)) s.invitations ≡ some i)
              × (assert_pending (status_of i now) ≡ ok tt))
        → ((h : HttpError) × (accept_found now new_id user (meanwhile s) r ≡ (meanwhile s, err h)))
          ⊎ ((i : Invitation) × Read hash now s token i
              × Joined now user (meanwhile s) (accept_found now new_id user (meanwhile s) r).0 i
              × ((accept_found now new_id user (meanwhile s) r).1 ≡ ok i.role))
    found (err e) f = inl (e, refl)
    found (ok i) f = elim (join-cases now new_id user (meanwhile s) i) [
      | inl (h, e) ↦ inl (h, e)
      | inr (idle, claimed, e) ↦ inr (
        i,
        ((f i refl).1, (f i refl).2),
        rw e (joined-Joined now new_id user (meanwhile s) i idle claimed),
        rw e refl,
      )
    ]
