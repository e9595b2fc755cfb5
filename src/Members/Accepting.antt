-- ===== src/Members/Accepting.antt =====
-- `accept` of src/modules/members/members.service.ts as a whole request.
use critiq_be.Prelude.{
  ℕ, ◌≡◌, refl, sym, ap, ◌∙◌, Bool, true, false, inl, inr, ◌⊎◌, none, some, List, Text, text_eq,
  findb, anyb, if◌then◌else◌, Bool-cases, map,
}
use critiq_be.Http.{
  Result, ok, err, ◌>>=◌, ◌>>◌, or_throw, invite_used, invite_not_found, session_user_missing,
  already_member, HttpError,
}
use mathlib.Core.Path.{subst}
use critiq_be.Http.Inversion.{or_throw-ok, bind-ok, ok-injective, err-not-ok, or_throw-some}
use critiq_be.Reviews.Types.{Role}
use critiq_be.Members.Types.{
  Invitation, MemberStore, is_invitation_token_shape, status_of, is_membership,
}
use critiq_be.Members.Links.{
  is_claimable, mark_accepted, has_token_hash, find_by_token, checked_accept, assert_pending, join,
  is_active_member, joined,
}
use critiq_be.Members.Claims.{update_invitations-map, update_invitations-anyb, claim}

abbrev pub answer : MemberStore × Result Role → Result Role
answer r = r.1

find_by_token-ok :
    (hash : Text → Text) (rows : List Invitation) (token : Text) (i : Invitation)
    → find_by_token hash rows token ≡ ok i
    → (is_invitation_token_shape token ≡ true) × (findb (has_token_hash (hash token)) rows ≡ some i)
unfolding find_by_token
find_by_token-ok hash rows token i h = elim (Bool-cases (is_invitation_token_shape token)) [
  | inl e ↦ (
    e,
    or_throw-some (findb (has_token_hash (hash token)) rows) invite_not_found i (
        ap
          (λ b.
            or_throw (if b then findb (has_token_hash (hash token)) rows else none)
              invite_not_found)
          (sym e)
        ∙ h),
  )
  | inr e ↦ absurd (
      err-not-ok invite_not_found i (
        ap
          (λ b.
            or_throw (if b then findb (has_token_hash (hash token)) rows else none)
              invite_not_found)
          (sym e)
        ∙ h))
]

-- What a request that may accept a link has read.
pub checked_accept-ok :
    (hash : Text → Text) (now : ℕ) (s : MemberStore) (token user : Text) (i : Invitation)
    → checked_accept hash now s token user ≡ ok i
    → (is_invitation_token_shape token ≡ true)
      × (findb (has_token_hash (hash token)) s.invitations ≡ some i)
      × (assert_pending (status_of i now) ≡ ok tt)
unfolding checked_accept
checked_accept-ok hash now s token user i h =
    let (a, read, h1) =
      bind-ok (find_by_token hash s.invitations token)
        (λ i.
          assert_pending (status_of i now)
          >> (or_throw (findb (λ u. text_eq u.id user) s.users) session_user_missing >>= λ _. ok i))
        i h in
    let (u, open_, h2) =
      bind-ok (assert_pending (status_of a now))
        (λ _. or_throw (findb (λ u. text_eq u.id user) s.users) session_user_missing >>= λ _. ok a)
        i h1 in
    let (w, found, h3) =
      or_throw-ok (findb (λ u. text_eq u.id user) s.users) session_user_missing (λ _. ok a) i h2 in
    let same = ok-injective a i h3 in
    let (shaped, at) = find_by_token-ok hash s.invitations token a read in
    (shaped, at ∙ ap some same, subst (λ i. assert_pending (status_of i now) ≡ ok tt) same open_)

module _ (now : ℕ) (new_id user : Text) (s : MemberStore) (i : Invitation) where
  abbrev is_in : Bool
  is_in = is_active_member (findb (is_membership i.organization_id user) s.members)

  join_active : is_in ≡ true → join now new_id user s i ≡ (s, err already_member)
  unfolding join
  join_active e = rw e refl

  join_lost :
      is_in ≡ false
      → anyb (is_claimable i now) s.invitations ≡ false
      → join now new_id user s i ≡ (s, err invite_used)
  unfolding join
  join_lost e c =
      rw (e, update_invitations-anyb (is_claimable i now) (mark_accepted now user) s.invitations, c)
        refl

  join-joined :
      is_in ≡ false
      → anyb (is_claimable i now) s.invitations ≡ true
      → join now new_id user s i
        ≡ (joined new_id user s i (map (claim i now user) s.invitations), ok i.role)
  unfolding join
  join-joined e c =
      rw
        (
          e,
          update_invitations-anyb (is_claimable i now) (mark_accepted now user) s.invitations,
          c,
          update_invitations-map (is_claimable i now) (mark_accepted now user) s.invitations,
        )
        refl

  abbrev pub IsJoin : MemberStore × Result Role → Type 0
  IsJoin r =
      (is_in ≡ false)
      × (anyb (is_claimable i now) s.invitations ≡ true)
      × (r ≡ (joined new_id user s i (map (claim i now user) s.invitations), ok i.role))

  -- The transaction joins, or leaves the tables.
  pub join-cases :
      ((h : HttpError) × (join now new_id user s i ≡ (s, err h)))
      ⊎ IsJoin (join now new_id user s i)
  join-cases = elim (Bool-cases is_in) [
    | inl e ↦ inl (already_member, join_active e)
    | inr e ↦ elim (Bool-cases (anyb (is_claimable i now) s.invitations)) [
      | inl c ↦ inr (e, c, join-joined e c)
      | inr c ↦ inl (invite_used, join_lost e c)
    ]
  ]

  -- A claim that is answered with a role took hold.
  pub join-ok :
      (role : Role) → (join now new_id user s i).1 ≡ ok role → IsJoin (join now new_id user s i)
  join-ok role h = elim join-cases [
    | inl (e, left) ↦ absurd (err-not-ok e role (ap answer (sym left) ∙ h))
    | inr done ↦ done
  ]
