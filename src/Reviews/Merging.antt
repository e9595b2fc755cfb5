-- ===== src/Reviews/Merging.antt =====
-- What `merge` of src/modules/reviews/merge.service.ts lets through, and what it leaves behind.
use mathlib.Core.Path.{subst}
use critiq_be.Prelude.{
  ◌≡◌, refl, sym, ap, ◌∙◌, ◌⊎◌, Bool, true, false, not, ◌&&◌, ◌||◌, Option, none, some, List, [],
  ◌∷◌, Text, text_eq, text_eq_iff, All, findb, filterb, Bool-cases, inl, inr,
}
use critiq_be.Http.{
  HttpError, pull_not_open, head_changed, override_requires_admin, insufficient_permission, Result,
  ok, err,
}
use critiq_be.Reviews.Types.{merged_pull, Pull, Membership, Store, truthy, is_open}
use critiq_be.Reviews.Submit.{find_pull_or_throw, find_role}
use critiq_be.Reviews.Retry.{is_unusable}
use critiq_be.Reviews.Blockers.{MergeBlocker}
use critiq_be.Reviews.Merge.{
  MergePullDto, OverrideCritical, not_sent, sent_null, given, is_given, is_sent, is_admin,
  is_critical_findings, overrides, remaining_blockers, refuse_first, blockers_of, checked_merge,
  MergeAnswer, merge_error, close_merged, mark_merged, after_merge, merge_answered, merge,
}
use critiq_be.Http.Inversion.{not-true, bind-ok, guard-ok, or_throw-ok, ok-injective}

-- An administrator gave a reason to override, or the override is sent as null by anyone.
abbrev pub IsOverridden : Store → (org actor : Text) → MergePullDto → Type 0
IsOverridden s org actor dto =
    (dto.override_critical ≡ sent_null)
    ⊎ ((reason : Text) × (dto.override_critical ≡ given reason)
        × ((m : Membership) × (find_role s actor org ≡ ok m) × (is_admin m.role ≡ true)))

-- Nothing blocks the merge, or the findings that alone block it are overridden.
abbrev pub IsUnblocked : Store → Text → Text → MergePullDto → Pull → Type 0
IsUnblocked s org actor dto pull =
    (blockers_of s pull ≡ [])
    ⊎ (IsOverridden s org actor dto × All (λ b. is_critical_findings b ≡ true) (blockers_of s pull))

abbrev pub MayMerge : Store → Text → Text → Text → Text → MergePullDto → Pull → Text → Type 0
MayMerge s org repo pull_id actor dto pull head =
    (find_pull_or_throw s org repo pull_id ≡ ok pull)
    × (is_open pull.state ≡ true)
    × (truthy pull.head_sha ≡ some head)
    × (dto.head_sha ≡ head)
    × IsUnblocked s org actor dto pull
    × (is_unusable pull.integration_state ≡ false)

refuse_first-ok : (bs : List MergeBlocker) → refuse_first bs ≡ ok tt → bs ≡ []
refuse_first-ok [] e = refl
refuse_first-ok (b ∷ bs) e = cc

cons-nil : (x : MergeBlocker) (xs : List MergeBlocker) → x ∷ xs ≡ [] → ⊥
cons-nil x xs h = cc

-- What a filter with a constant drops.
filter-none :
    (q : MergeBlocker → Bool) (bs : List MergeBlocker) → filterb (λ b. not (false && q b)) bs ≡ bs
unfolding filterb
filter-none q [] = refl
filter-none q (b ∷ bs) = ap (λ r. b ∷ r) (filter-none q bs)

filter-All :
    (q : MergeBlocker → Bool) (bs : List MergeBlocker)
    → filterb (λ b. not (true && q b)) bs ≡ []
    → All (λ b. q b ≡ true) bs
unfolding filterb
filter-All q [] e = tt
filter-All q (b ∷ bs) e = elim (Bool-cases (q b)) [
  | inl t ↦ (t, filter-All q bs (sym (rw t refl) ∙ e))
  | inr f ↦ absurd (cons-nil b (filterb (λ x. not (true && q x)) bs) (sym (rw f refl) ∙ e))
]

overrides-sent :
    (o : OverrideCritical) (bs : List MergeBlocker) → overrides o bs ≡ true → is_sent o ≡ true
unfolding overrides
overrides-sent not_sent bs h = cc
overrides-sent sent_null bs h = refl
overrides-sent (given reason) bs h = refl

remaining_blockers-nil :
    (override : OverrideCritical) (bs : List MergeBlocker)
    → remaining_blockers override bs ≡ []
    → (bs ≡ []) ⊎ ((is_sent override ≡ true) × All (λ b. is_critical_findings b ≡ true) bs)
unfolding remaining_blockers
remaining_blockers-nil override bs e = elim (Bool-cases (overrides override bs)) [
  | inr f ↦ inl (sym (filter-none is_critical_findings bs) ∙ sym (rw f refl) ∙ e)
  | inl t ↦
      inr (overrides-sent override bs t, filter-All is_critical_findings bs (sym (rw t refl) ∙ e))
]

overridden :
    (s : Store) (org actor : Text) (o : OverrideCritical) (m : Membership)
    → find_role s actor org ≡ ok m
    → (not (is_given o) || is_admin m.role) ≡ true
    → is_sent o ≡ true
    → (o ≡ sent_null)
      ⊎ ((reason : Text) × (o ≡ given reason)
          × ((m : Membership) × (find_role s actor org ≡ ok m) × (is_admin m.role ≡ true)))
overridden s org actor not_sent m member allowed sent = cc
overridden s org actor sent_null m member allowed sent = inl refl
overridden s org actor (given reason) m member allowed sent =
    inr (reason, refl, (m, member, allowed))

unblocked :
    (s : Store) (org actor : Text) (dto : MergePullDto) (pull : Pull) (m : Membership)
    → find_role s actor org ≡ ok m
    → (not (is_given dto.override_critical) || is_admin m.role) ≡ true
    → (blockers_of s pull ≡ [])
      ⊎ ((is_sent dto.override_critical ≡ true)
          × All (λ b. is_critical_findings b ≡ true) (blockers_of s pull))
    → IsUnblocked s org actor dto pull
unblocked s org actor dto pull m member allowed (inl e) = inl e
unblocked s org actor dto pull m member allowed (inr (sent, all)) =
    inr (overridden s org actor dto.override_critical m member allowed sent, all)

checked_merge-ok :
    (s : Store) (org repo pull_id actor : Text) (dto : MergePullDto) (pull : Pull) (head : Text)
    → checked_merge s org repo pull_id actor dto ≡ ok (pull, head)
    → MayMerge s org repo pull_id actor dto pull head
unfolding checked_merge
checked_merge-ok s org repo pull_id actor dto pull head e =
    let (p, found, e1) = bind-ok (find_pull_or_throw s org repo pull_id) _ _ e in
    let (opened, e2) = guard-ok (is_open p.state) pull_not_open _ _ e1 in
    let (h, headed, e3) = or_throw-ok (truthy p.head_sha) head_changed _ _ e2 in
    let (current, e4) = guard-ok (text_eq dto.head_sha h) head_changed _ _ e3 in
    let (m, member, e5) = bind-ok (find_role s actor org) _ _ e4 in
    let (allowed, e6) =
      guard-ok (not (is_given dto.override_critical) || is_admin m.role) override_requires_admin _ _
        e5 in
    let (u, clear, e7) =
      bind-ok (refuse_first (remaining_blockers dto.override_critical (blockers_of s p))) _ _ e6 in
    let (usable, e8) =
      guard-ok (not (is_unusable p.integration_state)) insufficient_permission _ _ e7 in
    let cases =
      remaining_blockers-nil dto.override_critical (blockers_of s p) (refuse_first-ok _ clear) in
    let same = ok-injective (p, h) (pull, head) e8 in
    subst (λ x. MayMerge s org repo pull_id actor dto x.0 x.1) same
      (
        found,
        opened,
        headed,
        (text_eq_iff dto.head_sha h).0 current,
        unblocked s org actor dto p m member allowed cases,
        not-true _ usable,
      )

abbrev pub as_merged : Pull → Pull
as_merged p = record p { state = merged_pull }

close_merged-open : (p : Pull) → is_open p.state ≡ true → close_merged p ≡ as_merged p
close_merged-open p h = rw (h) refl

abbrev pull_or : Pull → Option Pull → Pull
pull_or p none = p
pull_or p (some x) = x

pull_of-some : (x p : Pull) → some x ≡ some p → x ≡ p
pull_of-some x p e = ap (pull_or p) e

-- The pull request of the identifier is merged.
findb-mark_merged :
    (id : Text) (ps : List Pull) (p : Pull)
    → is_open p.state ≡ true
    → findb (λ x. text_eq x.id id) ps ≡ some p
    → findb (λ x. text_eq x.id id) (mark_merged id ps) ≡ some (as_merged p)
unfolding mark_merged findb
findb-mark_merged id [] p h e = cc
findb-mark_merged id (x ∷ ps) p h e = elim (Bool-cases (text_eq x.id id)) [
  | inl t ↦
      let same : x ≡ p = pull_of-some x p (sym (rw t refl) ∙ e) in
      let opened : is_open x.state ≡ true = ap (λ y. is_open y.state) same ∙ h in
      rw (t, close_merged-open x opened, t) (ap (λ y. some (as_merged y)) same)
  | inr f ↦ rw (f, f) (findb-mark_merged id ps p h (sym (rw f refl) ∙ e))
]

find_pull-findb :
    (s : Store) (org repo pull_id : Text) (pull : Pull)
    → find_pull_or_throw s org repo pull_id ≡ ok pull
    → findb (λ p. text_eq p.id pull_id) s.pulls ≡ some pull
unfolding find_pull_or_throw
find_pull-findb s org repo pull_id pull e =
    let (p, found, e1) =
      or_throw-ok (findb (λ x. text_eq x.id pull_id) s.pulls) HttpError.pull_not_found _ _ e in
    let (mine, e2) =
      guard-ok (text_eq p.organization_id org && text_eq p.repository_id repo)
        HttpError.pull_not_found _ _ e1 in
    found ∙ ap some (ok-injective p pull e2)

-- A merge changes the pull request's state and the record of what was done, nothing else.
abbrev pub MergeOutcome :
    MergeAnswer → Store → Text → Text → Text → Text → MergePullDto → Store × Result Text → Type 0
MergeOutcome answer s org repo pull_id actor dto (s', err e) = s' ≡ s
MergeOutcome answer s org repo pull_id actor dto (s', ok head) =
    (merge_error answer ≡ ok tt)
    × ((pull : Pull) × MayMerge s org repo pull_id actor dto pull head
        × (findb (λ p. text_eq p.id pull_id) s'.pulls ≡ some (as_merged pull)))
    × (s'.reviews ≡ s.reviews)
    × (s'.memberships ≡ s.memberships)

merge_answered-outcome :
    (answer : MergeAnswer) (s : Store) (org repo pull_id actor : Text) (dto : MergePullDto)
    (c : Result (Pull × Text))
    → checked_merge s org repo pull_id actor dto ≡ c
    → MergeOutcome answer s org repo pull_id actor dto (merge_answered s pull_id answer c)
merge_answered-outcome answer s org repo pull_id actor dto (err x) e = refl
merge_answered-outcome answer s org repo pull_id actor dto (ok (pull, head)) e =
    let may = checked_merge-ok s org repo pull_id actor dto pull head e in
    by_answer (merge_error answer) refl may
  where
    by_answer :
        (r : Result (Unit {0}))
        → merge_error answer ≡ r
        → MayMerge s org repo pull_id actor dto pull head
        → MergeOutcome answer s org repo pull_id actor dto
            (elim r [ ok _ ↦ (after_merge s pull_id head, ok head) | err x ↦ (s, err x) ])
    by_answer (err x) q may = refl
    by_answer (ok tt) q may = (
      q,
      (
        pull,
        may,
        findb-mark_merged pull_id s.pulls pull may.1
            (find_pull-findb s org repo pull_id pull may.0),
      ),
      refl,
      refl,
    )

-- Merging either fails and leaves the store as it was, or the provider has merged, nothing blocked
-- the merge (or critical findings alone did, and an administrator gave a reason to override them or
-- the request of any member sent the override as null), the pull request was open at the very head that the request names, its credential was
-- usable, and the pull request is then stored as merged; reviews and memberships stay.
pub merge_outcome :
    (answer : MergeAnswer) (s : Store) (org repo pull_id actor : Text) (dto : MergePullDto)
    → MergeOutcome answer s org repo pull_id actor dto (merge answer s org repo pull_id actor dto)
unfolding merge
merge_outcome answer s org repo pull_id actor dto =
    merge_answered-outcome answer s org repo pull_id actor dto
      (checked_merge s org repo pull_id actor dto) refl
