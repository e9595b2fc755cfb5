-- ===== src/Reviews/Syncing.antt =====
-- What the job of src/queue/review-sync.processor.ts and `retrySync` of
-- src/modules/reviews/reviews.service.ts do to the stored reviews.
use mathlib.Core.Path.{subst}
use critiq_be.Prelude.{
  ℕ, ◌+◌, ◌≡◌, ◌⊎◌, refl, sym, ap, ◌∙◌, Bool, true, false, not, ◌&&◌, Option, none, some, List, [],
  ◌∷◌, Text, text_eq, text_eq_iff, findb, leb, Bool-cases, Option-cases, inl, inr, both_true,
  none-not-some,
}
use critiq_be.Reviews.Types.{ReviewSyncStatus, IntegrationState, Review, Store, is_pending}
use critiq_be.Reviews.Retry.{
  update_where, Sent, sent, refused, finished, mark_synced, mark_refused, settle, sync_answer, send,
  load_pending, process,
}

-- A stored review is untouched, or it is the review `id` and its pending copy is settled; the
-- decision itself stays.
abbrev pub RowSettles : (id : Text) → Review → Review → Type 0
RowSettles id r r' =
    (r' ≡ r)
    ⊎ ((r.id ≡ id)
        × (is_pending r.sync_status ≡ true)
        × (is_pending r'.sync_status ≡ false)
        × (r'.id ≡ r.id)
        × (r'.decision ≡ r.decision)
        × (r'.head_sha ≡ r.head_sha))

abbrev pub Settles : (id : Text) → List Review → List Review → Type 0
Settles id [] [] = Unit
Settles id (r ∷ rs) (r' ∷ rs') = RowSettles id r r' × Settles id rs rs'
Settles _ _ _ = ⊥

Settles-refl : (id : Text) (rs : List Review) → Settles id rs rs
Settles-refl id [] = tt
Settles-refl id (r ∷ rs) = (inl refl, Settles-refl id rs)

module _ (id : Text) (from : ReviewSyncStatus → Bool) (f : Review → Review) (r : Review)
    (rs : List Review) where
  update_where_hit :
      (text_eq r.id id && from r.sync_status) ≡ true
      → (update_where id from f (r ∷ rs)).0 ≡ f r ∷ (update_where id from f rs).0
  unfolding update_where
  update_where_hit e = rw (e) refl

  update_where_miss :
      (text_eq r.id id && from r.sync_status) ≡ false
      → (update_where id from f (r ∷ rs)).0 ≡ r ∷ (update_where id from f rs).0
  unfolding update_where
  update_where_miss e = rw (e) refl

-- What settling writes.
abbrev pub settled_by : Sent → Review → Review
settled_by sent r = mark_synced r
settled_by (refused code retryable) r = mark_refused code r

settled_by-pending :
    (id : Text) (answer : Sent) (r : Review)
    → r.id ≡ id
    → is_pending r.sync_status ≡ true
    → RowSettles id r (settled_by answer r)
settled_by-pending id sent r own waits = inr (own, waits, refl, refl, refl, refl)
settled_by-pending id (refused code retryable) r own waits =
    inr (own, waits, refl, refl, refl, refl)

settled_by-RowSettles :
    (id : Text) (answer : Sent) (r : Review)
    → (text_eq r.id id && is_pending r.sync_status) ≡ true
    → RowSettles id r (settled_by answer r)
settled_by-RowSettles id answer r e =
    let (named, waits) = both_true (text_eq r.id id) (is_pending r.sync_status) e in
    settled_by-pending id answer r ((text_eq_iff r.id id).0 named) waits

update_where-Settles :
    (id : Text) (answer : Sent) (rs : List Review)
    → Settles id rs (update_where id is_pending (settled_by answer) rs).0
update_where-Settles id answer [] = unfold update_where in tt
update_where-Settles id answer (r ∷ rs) =
    elim (Bool-cases (text_eq r.id id && is_pending r.sync_status)) [
      | inl e ↦
          rw (update_where_hit id is_pending (settled_by answer) r rs e)
            (settled_by-RowSettles id answer r e, update_where-Settles id answer rs)
      | inr e ↦
          rw (update_where_miss id is_pending (settled_by answer) r rs e)
            (inl refl, update_where-Settles id answer rs)
    ]

settle-reviews :
    (s : Store) (id : Text) (f : Review → Review)
    → (settle s id f).reviews ≡ (update_where id is_pending f s.reviews).0
unfolding settle
settle-reviews s id f = refl

sync_answer-Settles :
    (last : Bool) (s : Store) (id : Text) (answer : Sent)
    → Settles id s.reviews (sync_answer last s id answer).0.reviews
unfolding sync_answer
sync_answer-Settles last s id sent =
    rw (settle-reviews s id mark_synced) (update_where-Settles id sent s.reviews)
sync_answer-Settles last s id (refused code retryable) = elim (Bool-cases (retryable && not last)) [
  | inl e ↦ rw (e) (Settles-refl id s.reviews)
  | inr e ↦
      rw (e, settle-reviews s id (mark_refused code))
        (update_where-Settles id (refused code retryable) s.reviews)
]

findb-miss :
    (p : Review → Bool) (r : Review) (rs : List Review)
    → p r ≡ false
    → findb p (r ∷ rs) ≡ findb p rs
unfolding findb
findb-miss p r rs e = rw (e) refl

findb-hit :
    (p : Review → Bool) (r : Review) (rs : List Review) → p r ≡ true → findb p (r ∷ rs) ≡ some r
unfolding findb
findb-hit p r rs e = rw (e) refl

abbrev review_or : Review → Option Review → Review
review_or r none = r
review_or r (some x) = x

settled_by-id : (answer : Sent) (r : Review) → (settled_by answer r).id ≡ r.id
settled_by-id sent r = refl
settled_by-id (refused code retryable) r = refl

findb-update_where :
    (id : Text) (answer : Sent) (rs : List Review) (r : Review)
    → findb (λ x. text_eq x.id id) rs ≡ some r
    → is_pending r.sync_status ≡ true
    → findb (λ x. text_eq x.id id) (update_where id is_pending (settled_by answer) rs).0
      ≡ some (settled_by answer r)
findb-update_where id answer [] r e h = unfold findb in cc
findb-update_where id answer (x ∷ rs) r e h =
    let p = λ (y : Review). text_eq y.id id in
    elim (Bool-cases (text_eq x.id id)) [
      | inl t ↦
          let same : x ≡ r = ap (review_or x) (sym (findb-hit p x rs t) ∙ e) in
          let waits : is_pending x.sync_status ≡ true =
            ap (λ y. is_pending y.sync_status) same ∙ h in
          rw (update_where_hit id is_pending (settled_by answer) x rs (rw (t, waits) refl)) (
            findb-hit p (settled_by answer x) (update_where id is_pending (settled_by answer) rs).0
              (ap (λ i. text_eq i id) (settled_by-id answer x) ∙ t)
            ∙ ap (λ y. some (settled_by answer y)) same)
      | inr f ↦ rw (update_where_miss id is_pending (settled_by answer) x rs (rw (f) refl)) (
          findb-miss p x (update_where id is_pending (settled_by answer) rs).0 f
          ∙ findb-update_where id answer rs r (sym (findb-miss p x rs f) ∙ e) h)
    ]

sync_answer-last :
    (s : Store) (id : Text) (answer : Sent)
    → ((sync_answer true s id answer).1 ≡ finished)
      × ((sync_answer true s id answer).0.reviews
          ≡ (update_where id is_pending (settled_by answer) s.reviews).0)
unfolding sync_answer
sync_answer-last s id sent = (refl, settle-reviews s id mark_synced)
sync_answer-last s id (refused code true) = (refl, settle-reviews s id (mark_refused code))
sync_answer-last s id (refused code false) = (refl, settle-reviews s id (mark_refused code))

find-id :
    (id : Text) (rs : List Review) (r : Review)
    → findb (λ x. text_eq x.id id) rs ≡ some r
    → r.id ≡ id
find-id id [] r e = unfold findb in cc
find-id id (x ∷ rs) r e = elim (Bool-cases (text_eq x.id id)) [
  | inl t ↦
      let same : x ≡ r = ap (review_or x) (sym (findb-hit (λ y. text_eq y.id id) x rs t) ∙ e) in
      ap (λ y. y.id) (sym same) ∙ (text_eq_iff x.id id).0 t
  | inr f ↦ find-id id rs r (sym (findb-miss (λ y. text_eq y.id id) x rs f) ∙ e)
]

load_pending-some : (o : Option Review) (r : Review) → load_pending o ≡ some r → o ≡ some r
load_pending-some none r e = e
load_pending-some (some x) r e = elim (Bool-cases (is_pending x.sync_status)) [
  | inl w ↦ sym (rw (w) refl) ∙ e
  | inr w ↦ absurd (none-not-some r (sym (rw (w) refl) ∙ e))
]

-- A run of the job touches no review but the one that it is for, and that one only while its copy
-- is pending, which it may settle as SYNCED or FAILED; no decision, head or identifier changes, and
-- no review is added or lost.
pub process-Settles :
    (s : Store) (review_id : Text) (state : IntegrationState) (attempts_made attempts : ℕ)
    (answer : Sent)
    → Settles review_id s.reviews
        (process s review_id state attempts_made attempts answer).0.reviews
unfolding process
process-Settles s review_id state attempts_made attempts answer =
    elim (Option-cases (load_pending (findb (λ r. text_eq r.id review_id) s.reviews))) [
      | inl e ↦ rw (process, e) (Settles-refl review_id s.reviews)
      | inr (r, e) ↦
          let found = load_pending-some (findb (λ x. text_eq x.id review_id) s.reviews) r e in
          rw (process, e)
            (subst
              (λ id.
                Settles id s.reviews
                  (sync_answer (leb attempts (attempts_made + 1)) s r.id
                    (send state answer)).0.reviews)
              (find-id review_id s.reviews r found)
              (sync_answer-Settles (leb attempts (attempts_made + 1)) s r.id (send state answer)))
    ]

-- The last attempt leaves no copy pending: where the review is found and pending, the job finishes
-- without an error and the review is then SYNCED where the provider took the copy, and FAILED with
-- the error's code where it did not or the credential is unusable.
pub process_last_attempt :
    (s : Store) (review_id : Text) (state : IntegrationState) (attempts_made attempts : ℕ)
    (answer : Sent) (r : Review)
    → leb attempts (attempts_made + 1) ≡ true
    → findb (λ x. text_eq x.id review_id) s.reviews ≡ some r
    → is_pending r.sync_status ≡ true
    → let after = process s review_id state attempts_made attempts answer in
      (after.1 ≡ finished)
      × (findb (λ x. text_eq x.id review_id) after.0.reviews
          ≡ some (settled_by (send state answer) r))
unfolding process
process_last_attempt s id state made attempts answer r last found waits =
    let loaded : load_pending (findb (λ x. text_eq x.id id) s.reviews) ≡ some r =
      rw (found) (rw (waits) refl) in
    let done' = sync_answer-last s r.id (send state answer) in
    let same = find-id id s.reviews r found in
    rw (process, loaded, last)
      (
        done'.0,
        ap (findb (λ x. text_eq x.id id)) done'.1
            ∙ ap
                (λ i.
                  findb (λ x. text_eq x.id id)
                    (update_where i is_pending (settled_by (send state answer)) s.reviews).0)
                same
            ∙ findb-update_where id (send state answer) s.reviews r found waits,
      )
