-- ===== src/Members/Claims.antt =====
-- The conditional writes of src/modules/members on the table of invitations, and what a claim of a
-- link leaves of it.
use critiq_be.Prelude.{
  ℕ, ◌≡◌, refl, sym, ◌∙◌, arith, Bool, true, false, not, inl, inr, List, [], ◌∷◌, Text, text_eq_iff,
  leb, anyb, if◌then◌else◌, Bool-cases, All, IsKeyed, true-not-false, or_skip, neither_true, map,
}
use mathlib.Core.Path.{subst}
use critiq_be.Members.Types.{Invitation, is_null}
use critiq_be.Members.Invites.{update_invitations}
use critiq_be.Members.Links.{is_claimable, mark_accepted, has_token_hash}

-- A conditional write changes the rows that pass its test, and counts some when there is one.
pub update_invitations-map :
    (t : Invitation → Bool) (f : Invitation → Invitation) (rows : List Invitation)
    → (update_invitations t f rows).0 ≡ map (λ i. if t i then f i else i) rows
unfolding update_invitations
update_invitations-map t f [] = refl
update_invitations-map t f (i ∷ rest) = elim (Bool-cases (t i)) [
  | inl e ↦ rw (e, update_invitations-map t f rest) refl
  | inr e ↦ rw (e, update_invitations-map t f rest) refl
]

pub update_invitations-anyb :
    (t : Invitation → Bool) (f : Invitation → Invitation) (rows : List Invitation)
    → leb (update_invitations t f rows).1 0 ≡ not (anyb t rows)
unfolding update_invitations anyb
update_invitations-anyb t f [] = refl
update_invitations-anyb t f (i ∷ rest) = elim (Bool-cases (t i)) [
  | inl e ↦ rw e (ground arith)
  | inr e ↦ rw e (update_invitations-anyb t f rest)
]

abbrev pub token_hash_of : Invitation → Text
token_hash_of i = i.token_hash

-- Every link with the hash has been used.
abbrev pub IsSpent : Text → Invitation → Type 0
IsSpent h i = has_token_hash h i ≡ true → is_null i.accepted_at ≡ false

claimable-has_token_hash :
    (read i : Invitation) (now : ℕ)
    → is_claimable read now i ≡ true
    → has_token_hash read.token_hash i ≡ true
claimable-has_token_hash read i now h = ground (arith, h)

claimable-unaccepted :
    (read i : Invitation) (now : ℕ) → is_claimable read now i ≡ true → is_null i.accepted_at ≡ true
claimable-unaccepted read i now h = ground (arith, h)

pub anyb-claimable :
    (read : Invitation) (now : ℕ) (rows : List Invitation)
    → anyb (is_claimable read now) rows ≡ true
    → anyb (has_token_hash read.token_hash) rows ≡ true
unfolding anyb
anyb-claimable read now [] h = cc
anyb-claimable read now (i ∷ rest) h = elim (Bool-cases (is_claimable read now i)) [
  | inl e ↦ rw (claimable-has_token_hash read i now e) refl
  | inr e ↦ ground (
    arith,
    anyb-claimable read now rest
        (or_skip (is_claimable read now i) (anyb (is_claimable read now) rest) e h),
  )
]

abbrev pub claim : Invitation → (now : ℕ) → (user : Text) → Invitation → Invitation
claim read now user i = if is_claimable read now i then mark_accepted now user i else i

unlinked :
    (read : Invitation) (now : ℕ) (user h : Text) (rows : List Invitation)
    → anyb (has_token_hash h) rows ≡ false
    → All (IsSpent h) (map (claim read now user) rows)
unfolding anyb
unlinked read now user h [] e = tt
unlinked read now user h (i ∷ rest) e =
    let (apart, others) = neither_true (has_token_hash h i) (anyb (has_token_hash h) rest) e in
    (
      elim (Bool-cases (is_claimable read now i)) [
        | inl c ↦ rw c (λ _. refl)
        | inr c ↦ rw c (λ linked. absurd (true-not-false (has_token_hash h i) linked apart))
      ],
      unlinked read now user h rest others,
    )

-- Where links are unique, a claim that took hold leaves every row with its link used.
pub claim-IsSpent :
    (read : Invitation) (now : ℕ) (user : Text) (rows : List Invitation)
    → IsKeyed token_hash_of rows
    → anyb (is_claimable read now) rows ≡ true
    → All (IsSpent read.token_hash) (map (claim read now user) rows)
unfolding anyb
claim-IsSpent read now user [] k h = tt
claim-IsSpent read now user (i ∷ rest) (u, k) h = elim (Bool-cases (is_claimable read now i)) [
  | inl c ↦
      let linked =
        (text_eq_iff i.token_hash read.token_hash).0 (claimable-has_token_hash read i now c) in
      (rw c (λ _. refl), unlinked read now user read.token_hash rest (rw (sym linked) u))
  | inr c ↦
      let later = or_skip (is_claimable read now i) (anyb (is_claimable read now) rest) c h in
      (
        rw c (λ linked. absurd (
            true-not-false (anyb (has_token_hash read.token_hash) rest)
              (anyb-claimable read now rest later)
              (rw (sym ((text_eq_iff i.token_hash read.token_hash).0 linked)) u))),
        claim-IsSpent read now user rest k later,
      )
]

-- What is spent is not claimed again.
pub IsSpent-claimable :
    (h : Text) (read : Invitation) (now : ℕ) (rows : List Invitation)
    → read.token_hash ≡ h
    → All (IsSpent h) rows
    → anyb (is_claimable read now) rows ≡ false
unfolding anyb
IsSpent-claimable h read now [] e spent = refl
IsSpent-claimable h read now (i ∷ rest) e (s, spent) = elim (Bool-cases (is_claimable read now i)) [
  | inl c ↦ absurd (
      true-not-false (is_null i.accepted_at) (claimable-unaccepted read i now c)
        (s (rw (sym e) (claimable-has_token_hash read i now c))))
  | inr c ↦ rw c (IsSpent-claimable h read now rest e spent)
]

-- A claim changes no link.
pub anyb-claim :
    (read : Invitation) (now : ℕ) (user h : Text) (rows : List Invitation)
    → anyb (has_token_hash h) (map (claim read now user) rows) ≡ anyb (has_token_hash h) rows
unfolding anyb
anyb-claim read now user h [] = refl
anyb-claim read now user h (i ∷ rest) = elim (Bool-cases (is_claimable read now i)) [
  | inl c ↦ rw (c, anyb-claim read now user h rest) refl
  | inr c ↦ rw (c, anyb-claim read now user h rest) refl
]

-- Some row has the link, and every row with it is used.
abbrev pub AreSpent : Text → List Invitation → Type 0
AreSpent h rows = (anyb (has_token_hash h) rows ≡ true) × All (IsSpent h) rows

pub claim-AreSpent :
    (read : Invitation) (now : ℕ) (user h : Text) (rows : List Invitation)
    → read.token_hash ≡ h
    → IsKeyed token_hash_of rows
    → anyb (is_claimable read now) rows ≡ true
    → AreSpent h (map (claim read now user) rows)
claim-AreSpent read now user h rows linked keyed claimed =
    subst (λ h. AreSpent h (map (claim read now user) rows)) linked
      (
        anyb-claim read now user read.token_hash rows ∙ anyb-claimable read now rows claimed,
        claim-IsSpent read now user rows keyed claimed,
      )
