-- ===== src/Lifecycle/Reopening.antt =====
-- `assignNewOrReopened` of src/queue/lifecycle/status-matcher.ts re-opens no resolved finding twice.
use mathlib.Core.List.{map}
use critiq_be.Prelude.{
  ◌+◌, ◌≡◌, refl, inl, inr, Bool, true, none, some, List, [], ◌∷◌, text_eq, text_eq_iff, sym, ap,
  ◌≤◌, arith, countb, countb-cons, All, Option-cases, Bool-cases,
}
use critiq_be.Findings.{CandidateFinding}
use critiq_be.Similarity.{Unicode}
use critiq_be.Lifecycle.Matcher.{
  MatchableFinding, ResolvedFinding, extract, matchable_of, Assigned, is_same_finding,
  find_reopened, assign_from, assign_new_or_reopened,
}

module _ {ℓ} {A : Type ℓ} (p q : A → Bool) where
  -- What is taken out passes the test, and is gone from the list once.
  pub extract_lem :
      (xs : List A) {y : A} {ys : List A}
      → extract p xs ≡ some (y, ys)
      → (p y ≡ true) × (countb q xs ≡ countb q (y ∷ []) + countb q ys)
  unfolding extract countb
  extract_lem [] e = cc
  extract_lem (x ∷ xs) {y} {ys} e = elim (Bool-cases (p x)) [
    | inl h ↦ ground arith
    | inr h ↦ elim (Option-cases (extract p xs)) [
      | inl gone ↦ ground arith
      | inr ((z, zs), found) ↦ ground (arith, extract_lem xs found)
    ]
  ]

-- The resolved findings that are re-opened, in the order of the candidates.
abbrev pub reopened_by : List Assigned → List ResolvedFinding
reopened_by [] = []
reopened_by (a ∷ as') = elim a.reopens [ none ↦ reopened_by as' | some r ↦ r ∷ reopened_by as' ]

module _ (u : Unicode) where
  is_same_finding_of_eq :
      (a b : MatchableFinding)
      → text_eq b.fingerprint a.fingerprint ≡ true
      → is_same_finding u a b ≡ true
  unfolding is_same_finding
  is_same_finding_of_eq a b e =
      let same =
        (text_eq_iff a.fingerprint b.fingerprint).1
          (sym ((text_eq_iff b.fingerprint a.fingerprint).0 e)) in
      rw same

  find_reopened_lem :
      (q : ResolvedFinding → Bool) (c : MatchableFinding) (pool : List ResolvedFinding)
      {r : ResolvedFinding} {left : List ResolvedFinding}
      → find_reopened u c pool ≡ some (r, left)
      → (is_same_finding u c r.matchable ≡ true)
        × (countb q pool ≡ countb q (r ∷ []) + countb q left)
  unfolding find_reopened
  find_reopened_lem q c pool {r} {left} e =
      elim (Option-cases (extract (λ r. text_eq r.matchable.fingerprint c.fingerprint) pool)) [
        | inl gone ↦ extract_lem (λ r. is_same_finding u c r.matchable) q pool (rw gone at e)
        | inr ((r', left'), h) ↦
            let same : some (r', left') ≡ some (r, left) = rw h at e in
            let (exact, counts) =
              extract_lem (λ r. text_eq r.matchable.fingerprint c.fingerprint) q pool h in
            ground (arith, is_same_finding_of_eq c r'.matchable exact)
      ]

  assign_from-none :
      (c : CandidateFinding) (cs : List CandidateFinding) (pool : List ResolvedFinding)
      → find_reopened u (matchable_of c) pool ≡ none
      → assign_from u (c ∷ cs) pool ≡ (
        record { candidate = c; reopens = none } ∷ (assign_from u cs pool).0,
        (assign_from u cs pool).1,
      )
  unfolding assign_from
  assign_from-none c cs pool e = rw (e, assign_from)

  assign_from-some :
      (c : CandidateFinding) (cs : List CandidateFinding) (pool : List ResolvedFinding)
      (r : ResolvedFinding) (left : List ResolvedFinding)
      → find_reopened u (matchable_of c) pool ≡ some (r, left)
      → assign_from u (c ∷ cs) pool ≡ (
        record { candidate = c; reopens = some r } ∷ (assign_from u cs left).0,
        (assign_from u cs left).1,
      )
  unfolding assign_from
  assign_from-some c cs pool r left e = rw (e, assign_from)

  assign_from-countb :
      (q : ResolvedFinding → Bool) (cs : List CandidateFinding) (pool : List ResolvedFinding)
      → countb q (reopened_by (assign_from u cs pool).0) + countb q (assign_from u cs pool).1
        ≡ countb q pool
  assign_from-countb q [] pool = unfold assign_from countb in omega arith
  assign_from-countb q (c ∷ cs) pool = elim (Option-cases (find_reopened u (matchable_of c) pool)) [
    | inl e ↦ rw (assign_from-none c cs pool e) (assign_from-countb q cs pool)
    | inr ((r, left), e) ↦ rw (assign_from-some c cs pool r left e) (
        omega (
          arith,
          assign_from-countb q cs left,
          find_reopened_lem q (matchable_of c) pool e,
          countb-cons q r (reopened_by (assign_from u cs left).0),
        ))
  ]

  -- Every candidate is kept, in order, and one that re-opens a finding is the same finding.
  assign_from-candidates :
      (cs : List CandidateFinding) (pool : List ResolvedFinding)
      → map (λ a. a.candidate) (assign_from u cs pool).0 ≡ cs
  assign_from-candidates [] pool = unfold assign_from in refl
  assign_from-candidates (c ∷ cs) pool =
      elim (Option-cases (find_reopened u (matchable_of c) pool)) [
        | inl e ↦
            rw (assign_from-none c cs pool e) (ap (λ t. c ∷ t) (assign_from-candidates cs pool))
        | inr ((r, left), e) ↦
            rw (assign_from-some c cs pool r left e)
              (ap (λ t. c ∷ t) (assign_from-candidates cs left))
      ]

  abbrev pub IsRightly : Assigned → Type 0
  IsRightly a = elim a.reopens [
    | none ↦ Unit
    | some r ↦ is_same_finding u (matchable_of a.candidate) r.matchable ≡ true
  ]

  assign_from-IsRightly :
      (cs : List CandidateFinding) (pool : List ResolvedFinding)
      → All IsRightly (assign_from u cs pool).0
  assign_from-IsRightly [] pool = unfold assign_from in tt
  assign_from-IsRightly (c ∷ cs) pool =
      elim (Option-cases (find_reopened u (matchable_of c) pool)) [
        | inl e ↦ rw (assign_from-none c cs pool e) (tt, assign_from-IsRightly cs pool)
        | inr ((r, left), e) ↦ rw (assign_from-some c cs pool r left e) (
          (find_reopened_lem (λ _. true) (matchable_of c) pool e).0,
          assign_from-IsRightly cs left,
        )
      ]

  -- `assignNewOrReopened` keeps every candidate, in order. A candidate re-opens only a resolved
  -- finding that it is the same finding as, and together the candidates re-open each resolved
  -- finding at most as often as it is listed: of those that pass a test `q`, no more than there are.
  pub assign_new_or_reopened_lem :
      (q : ResolvedFinding → Bool) (cs : List CandidateFinding) (pool : List ResolvedFinding)
      → (map (λ a. a.candidate) (assign_new_or_reopened u cs pool) ≡ cs)
        × All IsRightly (assign_new_or_reopened u cs pool)
        × (countb q (reopened_by (assign_new_or_reopened u cs pool)) ≤ countb q pool)
  unfolding assign_new_or_reopened
  assign_new_or_reopened_lem q cs pool = (
    assign_from-candidates cs pool,
    assign_from-IsRightly cs pool,
    omega (arith, assign_from-countb q cs pool),
  )
