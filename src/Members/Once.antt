-- ===== src/Members/Once.antt =====
-- `accept` of src/modules/members/members.service.ts: a link works once.
use critiq_be.Prelude.{
  ℕ, ◌≡◌, refl, ◌∙◌, true, false, inl, inr, some, List, [], ◌∷◌, Text, text_eq_iff, findb, anyb,
  Bool-cases, All, IsKeyed, true-not-false, map, or_skip, findb-true,
}
use critiq_be.Http.{HttpError, ok, err, invite_used}
use critiq_be.Reviews.Types.{Role}
use critiq_be.Members.Types.{Invitation, Meanwhile, MemberStore, is_null, is_invitation_token_shape}
use critiq_be.Members.Links.{is_claimable, has_token_hash, checked_accept, joined, accept}
use critiq_be.Members.Claims.{
  token_hash_of, IsSpent, claim, IsSpent-claimable, AreSpent, claim-AreSpent,
}
use critiq_be.Members.Accepting.{checked_accept-ok, join-ok}
use critiq_be.Members.Joining.{accept_found-ok}

spent-findb :
    (h : Text) (rows : List Invitation)
    → anyb (has_token_hash h) rows ≡ true
    → All (IsSpent h) rows
    → (i : Invitation) × (findb (has_token_hash h) rows ≡ some i) × (is_null i.accepted_at ≡ false)
unfolding anyb findb
spent-findb h [] there spent = cc
spent-findb h (i ∷ rest) there (s, spent) = elim (Bool-cases (has_token_hash h i)) [
  | inl e ↦ (i, rw e refl, s e)
  | inr e ↦
      let later = or_skip (has_token_hash h i) (anyb (has_token_hash h) rest) e there in
      let (j, found, used) = spent-findb h rest later spent in (j, rw e found, used)
]

-- A row that was accepted answers that its link is used.
spent-accept :
    (hash : Text → Text) (now : ℕ) (s : MemberStore) (token user : Text) (i : Invitation)
    → is_invitation_token_shape token ≡ true
    → findb (has_token_hash (hash token)) s.invitations ≡ some i
    → is_null i.accepted_at ≡ false
    → checked_accept hash now s token user ≡ err invite_used
unfolding checked_accept
spent-accept hash now s token user i shaped found used = rw (shaped, found, used) refl

accept_refused :
    (hash : Text → Text) (now : ℕ) (meanwhile : Meanwhile) (new_id : Text) (s : MemberStore)
    (token user : Text) (h : HttpError)
    → checked_accept hash now s token user ≡ err h
    → accept hash now meanwhile new_id s token user ≡ (meanwhile s, err h)
unfolding accept
accept_refused hash now meanwhile new_id s token user h e = rw e refl

-- A request that joins claimed a row that still had the link it was given.
accept-claims :
    (hash : Text → Text) (now : ℕ) (meanwhile : Meanwhile) (new_id : Text) (s : MemberStore)
    (token user : Text) (role : Role)
    → (accept hash now meanwhile new_id s token user).1 ≡ ok role
    → (i : Invitation) × (i.token_hash ≡ hash token)
      × (anyb (is_claimable i now) (meanwhile s).invitations ≡ true)
unfolding accept
accept-claims hash now meanwhile new_id s token user role h =
    let (i, read, h') =
      accept_found-ok now new_id user (meanwhile s) (checked_accept hash now s token user) role h in
    let (shaped, found, open_) = checked_accept-ok hash now s token user i read in
    let (idle, claimed, e) = join-ok now new_id user (meanwhile s) i role h' in
    (
      i,
      (text_eq_iff i.token_hash (hash token)).0
          (findb-true (has_token_hash (hash token)) s.invitations i found),
      claimed,
    )

joined-AreSpent :
    (new_id user h : Text) (s : MemberStore) (i : Invitation) (rows : List Invitation)
    → AreSpent h rows
    → AreSpent h (joined new_id user s i rows).invitations
unfolding joined
joined-AreSpent new_id user h s i rows spent = spent

-- What an acceptance leaves of its link.
accept-AreSpent :
    (hash : Text → Text) (now : ℕ) (meanwhile : Meanwhile) (new_id : Text) (s : MemberStore)
    (token user : Text) (role : Role)
    → IsKeyed token_hash_of (meanwhile s).invitations
    → (accept hash now meanwhile new_id s token user).1 ≡ ok role
    → (is_invitation_token_shape token ≡ true)
      × AreSpent (hash token) (accept hash now meanwhile new_id s token user).0.invitations
unfolding accept
accept-AreSpent hash now meanwhile new_id s token user role keyed h =
    let (i, read, h') =
      accept_found-ok now new_id user (meanwhile s) (checked_accept hash now s token user) role h in
    let (shaped, found, open_) = checked_accept-ok hash now s token user i read in
    let (idle, claimed, e) = join-ok now new_id user (meanwhile s) i role h' in
    let linked =
      (text_eq_iff i.token_hash (hash token)).0
        (findb-true (has_token_hash (hash token)) s.invitations i found) in
    let rows = map (claim i now user) (meanwhile s).invitations in
    (
      shaped,
      rw (read, e)
          (joined-AreSpent new_id user (hash token) (meanwhile s) i rows (
            claim-AreSpent i now user (hash token) (meanwhile s).invitations linked keyed claimed)),
    )

-- One link makes one member. After a request has joined by a link, where the links of the
-- invitations are unique, a later request with the link, by any user, answers that the link is used
-- and changes nothing, whatever else was committed in between and is committed meanwhile, as long
-- as the later request finds the same row under the link as the first request left there.
pub accept_once :
    (hash : Text → Text) (now : ℕ) (meanwhile : Meanwhile) (new_id : Text) (s : MemberStore)
    (token user : Text) (role : Role) (now' : ℕ) (meanwhile' : Meanwhile) (new_id' : Text)
    (s' : MemberStore) (user' : Text)
    → IsKeyed token_hash_of (meanwhile s).invitations
    → (accept hash now meanwhile new_id s token user).1 ≡ ok role
    → findb (has_token_hash (hash token)) s'.invitations
      ≡ findb
          (has_token_hash (hash token))
          (accept hash now meanwhile new_id s token user).0.invitations
    → accept hash now' meanwhile' new_id' s' token user' ≡ (meanwhile' s', err invite_used)
accept_once hash now meanwhile new_id s token user role now' meanwhile' new_id' s' user' keyed h
      kept =
    let (shaped, (there, spent)) =
      accept-AreSpent hash now meanwhile new_id s token user role keyed h in
    let (i, found, used) =
      spent-findb (hash token) (accept hash now meanwhile new_id s token user).0.invitations there
        spent in
    accept_refused hash now' meanwhile' new_id' s' token user' invite_used
      (spent-accept hash now' s' token user' i shaped (kept ∙ found) used)

-- Two requests with the same link do not both join. A request that read the invitations before a
-- first one joined by the same link, and that comes to its transaction right after it, does not
-- answer a role, whatever it had read, where the links of the invitations are unique.
pub accept_race :
    (hash : Text → Text) (now : ℕ) (meanwhile : Meanwhile) (new_id : Text) (s : MemberStore)
    (token user : Text) (role : Role) (now' : ℕ) (new_id' : Text) (s' : MemberStore) (user' : Text)
    (role' : Role)
    → IsKeyed token_hash_of (meanwhile s).invitations
    → (accept hash now meanwhile new_id s token user).1 ≡ ok role
    → ¬ (
        (accept hash now'
          (λ _. (accept hash now meanwhile new_id s token user).0)
          new_id'
          s'
          token
          user').1
        ≡ ok role')
accept_race hash now meanwhile new_id s token user role now' new_id' s' user' role' keyed h second =
    let after = (accept hash now meanwhile new_id s token user).0 in
    let (shaped, (there, spent)) =
      accept-AreSpent hash now meanwhile new_id s token user role keyed h in
    let (i, read, claimed) =
      accept-claims hash now' (λ _. after) new_id' s' token user' role' second in
    true-not-false (anyb (is_claimable i now') after.invitations) claimed
      (IsSpent-claimable (hash token) i now' after.invitations read spent)
