-- ===== src/Queue/Pending.antt =====
-- `enqueue` and `cancelPending` of src/queue/scan-queue.service.ts: the scans in flight that they leave.
use critiq_be.Prelude.{
  ℕ, ◌≤◌, ◌<◌, ◌≡◌, refl, sym, ◌∙◌, arith, Bool, true, false, ◌&&◌, inl, inr, Option, none, some,
  List, [], ◌∷◌, Text, text_eq, nat_eq, ltb, map, filterb, anyb, if◌then◌else◌, Bool-cases, All,
  true-not-false, both_true, All-map, filterb_hit, filterb_skip,
}
use mathlib.Core.Path.{subst}
use mathlib.Core.Bool.{or-true, and-false}
use critiq_be.Http.Inversion.{text_eq_refl}
use critiq_be.Queue.Scans.{ScanRow, ScanStore, EnqueueScanInput, is_in_flight}
use critiq_be.Queue.Enqueue.{
  is_for_sha, later_attempt, latest_attempt, pending_of, ids_of, is_among, supersede_among,
  cancel_among, cancel_pending, next_attempt, is_same_attempt,
}

later_attempt-next :
    (r : ScanRow) (o : Option ScanRow)
    → (r.attempt < next_attempt (some (later_attempt r o)))
      × (next_attempt o ≤ next_attempt (some (later_attempt r o)))
later_attempt-next r none = (omega arith, omega arith)
later_attempt-next r (some best) = elim (Bool-cases (ltb r.attempt best.attempt)) [
  | inl e ↦ rw e (ground (arith, e), omega arith)
  | inr e ↦ rw e (omega arith, ground (arith, e))
]

abbrev pub at_attempt : (ScanRow → Bool) → ℕ → ScanRow → Bool
at_attempt test n r = test r && nat_eq r.attempt n

-- The latest attempt is at least every other one, so the next one is new.
next_attempt-new :
    (test : ScanRow → Bool) (rows : List ScanRow) (n : ℕ)
    → next_attempt (latest_attempt test rows) ≤ n
    → anyb (at_attempt test n) rows ≡ false
unfolding latest_attempt anyb
next_attempt-new test [] n h = refl
next_attempt-new test (r ∷ rest) n h = elim (Bool-cases (test r)) [
  | inl e ↦
      let (own, others) = later_attempt-next r (latest_attempt test rest) in
      let h' =
        subst
          (λ b.
            next_attempt (
              if b
              then some (later_attempt r (latest_attempt test rest))
              else latest_attempt test rest)
            ≤ n)
          e h in
      rw (e, next_attempt-new test rest n (omega arith)) (ground arith)
  | inr e ↦
      let h' =
        subst
          (λ b.
            next_attempt (
              if b
              then some (later_attempt r (latest_attempt test rest))
              else latest_attempt test rest)
            ≤ n)
          e h in
      rw (e, next_attempt-new test rest n h') refl
]

abbrev pub IsListed : (ScanRow → Bool) → List Text → ScanRow → Type 0
IsListed test ids r = test r ≡ true → is_among ids r.id ≡ true

ids_of-IsListed :
    (test : ScanRow → Bool) (rows : List ScanRow)
    → All (IsListed test (ids_of (filterb test rows))) rows
unfolding anyb
ids_of-IsListed test [] = tt
ids_of-IsListed test (r ∷ rest) = elim (Bool-cases (test r)) [
  | inl e ↦
      subst (λ l. All (IsListed test (ids_of l)) (r ∷ rest)) (sym (filterb_hit test r rest e))
        (
          (λ _. rw (text_eq_refl r.id) refl),
          All-map (IsListed test (ids_of (filterb test rest)))
              (IsListed test (r.id ∷ ids_of (filterb test rest))) rest
              (λ x f t. rw (f t) (or-true (text_eq r.id x.id))) (ids_of-IsListed test rest),
        )
  | inr e ↦
      subst (λ l. All (IsListed test (ids_of l)) (r ∷ rest)) (sym (filterb_skip test r rest e))
        ((λ t. absurd (true-not-false (test r) t e)), ids_of-IsListed test rest)
]

-- A listed row is in flight no more, and a row that was not is not.
supersede_among-done :
    (pull : Text) (ids : List Text) (r : ScanRow)
    → IsListed (pending_of pull) ids r
    → pending_of pull (supersede_among ids r) ≡ false
supersede_among-done pull ids r listed =
    elim (Bool-cases (is_among ids r.id && is_in_flight r.status)) [
      | inl e ↦ rw e (and-false (text_eq r.pull_id pull))
      | inr e ↦ rw e (elim (Bool-cases (pending_of pull r)) [
        | inl p ↦ absurd (
            true-not-false (is_among ids r.id && is_in_flight r.status)
              (rw (listed p, (both_true (text_eq r.pull_id pull) (is_in_flight r.status) p).1) refl)
              e)
        | inr p ↦ p
      ])
    ]

superseded-none :
    (pull : Text) (ids : List Text) (rows : List ScanRow)
    → All (IsListed (pending_of pull) ids) rows
    → anyb (pending_of pull) (map (supersede_among ids) rows) ≡ false
unfolding anyb
superseded-none pull ids [] a = refl
superseded-none pull ids (r ∷ rest) (l, a) =
    rw (supersede_among-done pull ids r l) (superseded-none pull ids rest a)

-- Superseding keeps the shas and the attempts.
superseded-same_attempt :
    (input : EnqueueScanInput) (n : ℕ) (ids : List Text) (rows : List ScanRow)
    → anyb (is_same_attempt input n) (map (supersede_among ids) rows)
      ≡ anyb (is_same_attempt input n) rows
unfolding anyb
superseded-same_attempt input n ids [] = refl
superseded-same_attempt input n ids (r ∷ rest) =
    elim (Bool-cases (is_among ids r.id && is_in_flight r.status)) [
      | inl e ↦ rw (e, superseded-same_attempt input n ids rest) refl
      | inr e ↦ rw (e, superseded-same_attempt input n ids rest) refl
    ]

nothing_listed :
    (pull : Text) (rows : List ScanRow)
    → All (IsListed (pending_of pull) []) rows
    → anyb (pending_of pull) rows ≡ false
unfolding anyb
nothing_listed pull [] a = refl
nothing_listed pull (r ∷ rest) (l, a) = elim (Bool-cases (pending_of pull r)) [
  | inl e ↦ absurd (true-not-false false (l e) refl)
  | inr e ↦ rw e (nothing_listed pull rest a)
]

cancel_among-none :
    (pull : Text) (ids : List Text) (s : ScanStore)
    → All (IsListed (pending_of pull) ids) s.scans
    → anyb (pending_of pull) (cancel_among ids s).scans ≡ false
cancel_among-none pull [] s a = nothing_listed pull s.scans a
cancel_among-none pull (i ∷ ids) s a = superseded-none pull (i ∷ ids) s.scans a

cancel_among-same_attempt :
    (input : EnqueueScanInput) (n : ℕ) (ids : List Text) (s : ScanStore)
    → anyb (is_same_attempt input n) (cancel_among ids s).scans
      ≡ anyb (is_same_attempt input n) s.scans
cancel_among-same_attempt input n [] s = refl
cancel_among-same_attempt input n (i ∷ ids) s = superseded-same_attempt input n (i ∷ ids) s.scans

abbrev pub at_once : ScanStore → ScanStore
at_once s = s

-- Cancelling leaves no scan of the pull request in flight.
pub cancel_pending-none :
    (s : ScanStore) (pull : Text)
    → anyb (pending_of pull) (cancel_pending at_once s pull).scans ≡ false
unfolding cancel_pending
cancel_pending-none s pull =
    cancel_among-none pull (ids_of (filterb (pending_of pull) s.scans)) s
      (ids_of-IsListed (pending_of pull) s.scans)

pub cancel_pending-new :
    (s : ScanStore) (input : EnqueueScanInput)
    → anyb
        (is_same_attempt input (next_attempt (latest_attempt (is_for_sha input) s.scans)))
        (cancel_pending at_once s input.pull_id).scans
      ≡ false
unfolding cancel_pending
cancel_pending-new s input =
    let n = next_attempt (latest_attempt (is_for_sha input) s.scans) in
    cancel_among-same_attempt input n (ids_of (filterb (pending_of input.pull_id) s.scans)) s
    ∙ next_attempt-new (is_for_sha input) s.scans n (omega arith)
