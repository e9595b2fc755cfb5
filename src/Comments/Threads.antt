-- ===== src/Comments/Threads.antt =====
-- Threads of src/modules/comments: a reply stands under the first comment of its thread.
use critiq_be.Prelude.{
  ◌≡◌, refl, sym, ap, ◌∙◌, arith, Bool, true, false, ◌&&◌, inl, inr, Option, none, some, List, [],
  ◌∷◌, Text, text_eq, text_eq_iff, findb, findb_hit, findb_skip, findb-true, findb-All, anyb,
  Bool-cases, All, Option-cases, IsKeyed, true-not-false, both_true, or_skip,
}
use mathlib.Core.Option
use mathlib.Core.Path.{subst}
use critiq_be.Http.{ok, or_throw, record_gone}
use critiq_be.Http.Inversion.{or_throw-some, ok-injective, text_eq_refl}
use critiq_be.Comments.Types.{Comment, has_comment_id}
use critiq_be.Comments.Create.{find_root}

abbrev pub id_of : Comment → Text
id_of c = c.id

abbrev pub is_null : Option Text → Bool
is_null none = true
is_null (some t) = false

-- The first comment of a thread of the pull request, which is no reply itself.
abbrev pub is_root : (id pull_id : Text) → Comment → Bool
is_root id pull_id r = text_eq r.id id && (text_eq r.pull_id pull_id && is_null r.place.parent_id)

-- A comment with this pull request and parent is no reply, or replies to a thread's first comment.
abbrev pub stands : List Comment → (pull_id : Text) → (parent : Option Text) → Bool
stands rows pull_id none = true
stands rows pull_id (some id) = anyb (is_root id pull_id) rows

abbrev pub IsThreaded : List Comment → Comment → Type 0
IsThreaded rows c = stands rows c.pull_id c.place.parent_id ≡ true

anyb-left :
    (p q : Comment → Bool) (rows : List Comment)
    → anyb (λ r. p r && q r) rows ≡ true
    → anyb p rows ≡ true
unfolding anyb
anyb-left p q [] h = cc
anyb-left p q (r ∷ rows) h = ground (arith, anyb-left p q rows)

findb-anyb :
    (p q : Comment → Bool) (rows : List Comment) (c : Comment)
    → findb p rows ≡ some c
    → q c ≡ true
    → anyb q rows ≡ true
unfolding findb anyb
findb-anyb p q [] c h t = cc
findb-anyb p q (r ∷ rows) c h t = elim (Bool-cases (p r)) [
  | inl e ↦ rw (Option.some-injective r c (sym (findb_hit p r rows e) ∙ h), t) refl
  | inr e ↦ ground (arith, findb-anyb p q rows c (sym (findb_skip p r rows e) ∙ h) t)
]

-- The row that a search by the key finds has what some row with the key has.
keyed-anyb :
    (k : Text) (q : Comment → Bool) (rows : List Comment) (c : Comment)
    → IsKeyed id_of rows
    → findb (has_comment_id k) rows ≡ some c
    → anyb (λ r. has_comment_id k r && q r) rows ≡ true
    → q c ≡ true
unfolding anyb
keyed-anyb k q [] c keyed found h = cc
keyed-anyb k q (r ∷ rows) c (u, keyed) found h = elim (Bool-cases (has_comment_id k r)) [
  | inl e ↦
      let same = Option.some-injective r c (sym (findb_hit (has_comment_id k) r rows e) ∙ found) in
      elim (Bool-cases (q r)) [
        | inl t ↦ subst (λ c. q c ≡ true) same t
        | inr f ↦ absurd (
            true-not-false (anyb (has_comment_id k) rows)
              (anyb-left (has_comment_id k) q rows (
                or_skip (has_comment_id k r && q r) (anyb (λ r. has_comment_id k r && q r) rows)
                  (rw (e, f) refl) h))
              (subst (λ k. anyb (has_comment_id k) rows ≡ false) ((text_eq_iff r.id k).0 e) u))
      ]
  | inr e ↦ keyed-anyb k q rows c keyed (sym (findb_skip (has_comment_id k) r rows e) ∙ found) (
      or_skip (has_comment_id k r && q r) (anyb (λ r. has_comment_id k r && q r) rows) (rw e refl)
        h)
]

module _ (rows : List Comment) (parent : Comment) where
  find_root-none : parent.place.parent_id ≡ none → find_root rows parent ≡ ok parent
  unfolding find_root
  find_root-none e = rw (e, text_eq_refl parent.id) refl

  find_root_other :
      (id : Text)
      → parent.place.parent_id ≡ some id
      → text_eq id parent.id ≡ false
      → find_root rows parent ≡ or_throw (findb (has_comment_id id) rows) record_gone
  unfolding find_root
  find_root_other id e f = rw (e, f) refl

  -- The root of a reply to a comment of the table stands there as the first of its thread.
  pub find_root-is_root :
      (parent_id : Text) (root : Comment)
      → IsKeyed id_of rows
      → All (IsThreaded rows) rows
      → findb (has_comment_id parent_id) rows ≡ some parent
      → find_root rows parent ≡ ok root
      → anyb (is_root root.id parent.pull_id) rows ≡ true
  find_root-is_root parent_id root keyed threaded found h =
      elim (Option-cases parent.place.parent_id) [
        | inl e ↦
            let same = ok-injective parent root (sym (find_root-none e) ∙ h) in
            subst (λ r. anyb (is_root r.id parent.pull_id) rows ≡ true) same
              (findb-anyb (has_comment_id parent_id) (is_root parent.id parent.pull_id) rows parent
                found (rw (text_eq_refl parent.id, text_eq_refl parent.pull_id, e) refl))
        | inr (id, e) ↦
            let own =
              findb-All (IsThreaded rows) (has_comment_id parent_id) rows parent threaded found in
            let first = ap (stands rows parent.pull_id) (sym e) ∙ own in
            elim (Bool-cases (text_eq id parent.id)) [
              | inl s ↦
                  let named =
                    (text_eq_iff parent.id parent_id).0
                      (findb-true (has_comment_id parent_id) rows parent found) in
                  let k = sym named ∙ sym ((text_eq_iff id parent.id).0 s) in
                  let q =
                    keyed-anyb id
                      (λ r. text_eq r.pull_id parent.pull_id && is_null r.place.parent_id) rows
                      parent keyed
                      (subst (λ k. findb (has_comment_id k) rows ≡ some parent) k found) first in
                  let bare =
                    (both_true (text_eq parent.pull_id parent.pull_id)
                      (is_null parent.place.parent_id) q).1 in
                  absurd (true-not-false (is_null parent.place.parent_id) bare (rw e refl))
              | inr o ↦
                  let seen =
                    or_throw-some (findb (has_comment_id id) rows) record_gone root
                      (sym (find_root_other id e o) ∙ h) in
                  let q =
                    keyed-anyb id
                      (λ r. text_eq r.pull_id parent.pull_id && is_null r.place.parent_id) rows root
                      keyed seen first in
                  findb-anyb (has_comment_id id) (is_root root.id parent.pull_id) rows root seen
                    (rw (text_eq_refl root.id, q) refl)
            ]
      ]
