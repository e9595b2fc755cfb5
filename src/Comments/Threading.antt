-- ===== src/Comments/Threading.antt =====
-- `create` of src/modules/comments/comments.service.ts as a whole request.
use critiq_be.Prelude.{
  ℕ, ◌≡◌, refl, ◌∙◌, Bool, true, false, not, inl, inr, Option, none, some, List, [], ◌∷◌, Text,
  text_eq, text_eq_iff, map, findb, anyb, Bool-cases, All, All-map, IsKeyed,
}
use mathlib.Core.Path.{subst}
use mathlib.Core.Bool.{or-true}
use critiq_be.Similarity.{trim}
use critiq_be.Http.{
  Result, ok, err, ◌>>=◌, ◌>>◌, guard, body_required, invalid_parent, head_changed,
}
use critiq_be.Http.Inversion.{
  bind-ok, guard-ok, or_throw-ok, or_throw-some, ok-injective, err-not-ok,
}
use critiq_be.Reviews.Types.{truthy}
use critiq_be.Comments.Types.{
  Comment, Placement, CommentedPull, CommentEffect, InlineDto, CommentStore, CreateCommentDto,
  has_comment_id, critiq, pending, inline, created,
}
use critiq_be.Comments.Create.{
  find_root, find_parent, place_reply, place_inline, place_comment, reply_place, is_empty,
  checked_comment, find_commented_pull, unsent_at, enqueue_comment, store_comment, create_comment,
}
use critiq_be.Comments.Threads.{id_of, is_root, stands, IsThreaded, find_root-is_root}

find_parent-ok :
    (rows : List Comment) (at : Option InlineDto) (parent_id : Text) (parent : Comment)
    → find_parent rows at parent_id ≡ ok parent
    → findb (has_comment_id parent_id) rows ≡ some parent
find_parent-ok rows none parent_id parent h =
    or_throw-some (findb (has_comment_id parent_id) rows) invalid_parent parent h
find_parent-ok rows (some at) parent_id parent h = absurd (err-not-ok invalid_parent parent h)

module _ (rows : List Comment) (keyed : IsKeyed id_of rows)
    (threaded : All (IsThreaded rows) rows) where
  place_reply-stands :
      (pull_id parent_id : Text) (at : Option InlineDto) (place : Placement)
      → place_reply rows pull_id parent_id at ≡ ok place
      → stands rows pull_id place.parent_id ≡ true
  unfolding place_reply
  place_reply-stands pull_id parent_id at place h =
      let (parent, found, h1) =
        bind-ok (find_parent rows at parent_id)
          (λ parent.
            guard (text_eq parent.pull_id pull_id) invalid_parent
            >> (find_root rows parent >>= λ root. ok (reply_place root)))
          place h in
      let (here, h2) =
        guard-ok (text_eq parent.pull_id pull_id) invalid_parent
          (find_root rows parent >>= λ root. ok (reply_place root)) place h1 in
      let (root, at_root, h3) =
        bind-ok (find_root rows parent) (λ root. ok (reply_place root)) place h2 in
      subst (λ p. stands rows pull_id p.parent_id ≡ true) (ok-injective (reply_place root) place h3)
        (subst (λ p. anyb (is_root root.id p) rows ≡ true)
          ((text_eq_iff parent.pull_id pull_id).0 here)
          (find_root-is_root rows parent parent_id root keyed threaded
            (find_parent-ok rows at parent_id parent found) at_root))

  place_inline-stands :
      (pull : CommentedPull) (pull_id : Text) (at : InlineDto) (place : Placement)
      → place_inline pull at ≡ ok place
      → stands rows pull_id place.parent_id ≡ true
  unfolding place_inline
  place_inline-stands pull pull_id at place h =
      let placed : Placement = record {
        kind = inline;
        parent_id = none;
        path = some at.path;
        line = some at.line;
        side = some at.side;
        head_sha = pull.head_sha;
      } in
      let (head, known, h1) =
        or_throw-ok (truthy pull.head_sha) head_changed
          (λ head. guard (text_eq at.head_sha head) head_changed >> ok placed) place h in
      let (current, h2) = guard-ok (text_eq at.head_sha head) head_changed (ok placed) place h1 in
      subst (λ p. stands rows pull_id p.parent_id ≡ true) (ok-injective placed place h2) refl

  place_comment-stands :
      (pull : CommentedPull) (pull_id : Text) (at : Option InlineDto) (parent : Option Text)
      (place : Placement)
      → place_comment rows pull pull_id at parent ≡ ok place
      → stands rows pull_id place.parent_id ≡ true
  place_comment-stands pull pull_id none none place h =
      subst (λ p. stands rows pull_id p.parent_id ≡ true) (ok-injective _ place h) refl
  place_comment-stands pull pull_id (some at) none place h =
      place_inline-stands pull pull_id at place h
  place_comment-stands pull pull_id at (some parent_id) place h =
      place_reply-stands pull_id parent_id at place h

checked_comment-IsThreaded :
    (is_space : ℕ → Bool) (new_id : Text) (s : CommentStore) (org repo pull_id actor : Text)
    (dto : CreateCommentDto) (c : Comment)
    → IsKeyed id_of s.comments
    → All (IsThreaded s.comments) s.comments
    → checked_comment is_space new_id s org repo pull_id actor dto ≡ ok c
    → IsThreaded s.comments c
unfolding checked_comment
checked_comment-IsThreaded is_space new_id s org repo pull_id actor dto c keyed threaded h =
    let (pull, found, h1) =
      bind-ok (find_commented_pull s org repo pull_id)
        (λ pull.
          guard (not (is_empty (trim is_space dto.body))) body_required
          >> (place_comment s.comments pull pull_id dto.inline_at (truthy dto.parent_id)
              >>= λ place. ok (comment place)))
        c h in
    let (written, h2) =
      guard-ok (not (is_empty (trim is_space dto.body))) body_required
        (place_comment s.comments pull pull_id dto.inline_at (truthy dto.parent_id) >>= λ place.
          ok (comment place))
        c h1 in
    let (place, placed, h3) =
      bind-ok (place_comment s.comments pull pull_id dto.inline_at (truthy dto.parent_id))
        (λ place. ok (comment place)) c h2 in
    subst (IsThreaded s.comments) (ok-injective (comment place) c h3) (
      place_comment-stands s.comments keyed threaded pull pull_id dto.inline_at
        (truthy dto.parent_id) place placed)
  where
    comment : Placement → Comment
    comment place = record {
      id = new_id;
      organization_id = org;
      pull_id = pull_id;
      origin = critiq;
      author_id = some actor;
      body = trim is_space dto.body;
      sync_status = some pending;
      sync_error = none;
      place = place;
    }

-- More comments, and another state of a copy, leave a thread's comments in their place.
stands-cons :
    (c : Comment) (rows : List Comment) (pull_id : Text) (parent : Option Text)
    → stands rows pull_id parent ≡ true
    → stands (c ∷ rows) pull_id parent ≡ true
unfolding anyb
stands-cons c rows pull_id none h = refl
stands-cons c rows pull_id (some id) h = rw h (or-true (is_root id pull_id c))

unsent-is_root :
    (id k pull_id : Text) (rows : List Comment)
    → anyb (is_root k pull_id) (map (unsent_at id) rows) ≡ anyb (is_root k pull_id) rows
unfolding anyb
unsent-is_root id k pull_id [] = refl
unsent-is_root id k pull_id (c ∷ rows) = elim (Bool-cases (has_comment_id id c)) [
  | inl e ↦ rw (e, unsent-is_root id k pull_id rows) refl
  | inr e ↦ rw (e, unsent-is_root id k pull_id rows) refl
]

unsent-stands :
    (id pull_id : Text) (rows : List Comment) (parent : Option Text)
    → stands rows pull_id parent ≡ true
    → stands (map (unsent_at id) rows) pull_id parent ≡ true
unsent-stands id pull_id rows none h = refl
unsent-stands id pull_id rows (some k) h = unsent-is_root id k pull_id rows ∙ h

unsent-AreThreaded :
    (id : Text) (rows xs : List Comment)
    → All (IsThreaded rows) xs
    → All (IsThreaded (map (unsent_at id) rows)) (map (unsent_at id) xs)
unsent-AreThreaded id rows [] t = tt
unsent-AreThreaded id rows (c ∷ xs) (own, t) = (
  elim (Bool-cases (has_comment_id id c)) [
    | inl e ↦ rw e (unsent-stands id c.pull_id rows c.place.parent_id own)
    | inr e ↦ rw e (unsent-stands id c.pull_id rows c.place.parent_id own)
  ],
  unsent-AreThreaded id rows xs t,
)

enqueue_comment-AreThreaded :
    (accepts : Bool) (s : CommentStore) (c : Comment) (change : CommentEffect)
    → All (IsThreaded s.comments) s.comments
    → All
        (IsThreaded (enqueue_comment accepts s c change).0.comments)
        (enqueue_comment accepts s c change).0.comments
unfolding enqueue_comment
enqueue_comment-AreThreaded true s c change t = t
enqueue_comment-AreThreaded false s c change t = unsent-AreThreaded c.id s.comments s.comments t

-- Writing a comment keeps the threads one level deep, whatever it answers and whether or not the
-- queue takes its job: when every comment is no reply, or replies to a comment of the same pull
-- request that is no reply itself, in a table with distinct identifiers, that is so afterwards,
-- the new comment included, also where it answers a reply.
pub create_comment-AreThreaded :
    (is_space : ℕ → Bool) (new_id : Text) (accepts : Bool) (s : CommentStore)
    (org repo pull_id actor : Text) (dto : CreateCommentDto)
    → IsKeyed id_of s.comments
    → All (IsThreaded s.comments) s.comments
    → let after =
        (create_comment is_space new_id accepts s org repo pull_id actor dto).0.comments in
      All (IsThreaded after) after
unfolding create_comment
create_comment-AreThreaded is_space new_id accepts s org repo pull_id actor dto keyed threaded =
    stored (checked_comment is_space new_id s org repo pull_id actor dto) (λ c h.
      checked_comment-IsThreaded is_space new_id s org repo pull_id actor dto c keyed threaded h)
  where
    stored :
        (r : Result Comment)
        → ((c : Comment) → r ≡ ok c → IsThreaded s.comments c)
        → let after = (store_comment accepts s r).0.comments in All (IsThreaded after) after
    stored (err e) f = threaded
    stored (ok c) f =
        enqueue_comment-AreThreaded accepts (record s { comments = c ∷ s.comments }) c
          (created c.id)
          (
            stands-cons c s.comments c.pull_id c.place.parent_id (f c refl),
            All-map (IsThreaded s.comments) (IsThreaded (c ∷ s.comments)) s.comments
                (λ x t. stands-cons c s.comments x.pull_id x.place.parent_id t) threaded,
          )
