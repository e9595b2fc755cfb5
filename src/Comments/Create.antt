-- ===== src/Comments/Create.antt =====
-- `create`, `retrySync`, `enqueueSync` and `findPullOrThrow` of
-- src/modules/comments/comments.service.ts on the tables that they read and write. `accepts`:
-- whether the queue takes the job.
use critiq_be.Comments.Types.{
  Comment, CommentEffect, CommentOrigin, CommentStore, CommentSyncStatus, CommentedPull,
  CreateCommentDto, InlineDto, Placement, created, critiq, failed, general, has_comment_id, inline,
  pending, sync_failed, sync_job, sync_pending, synced,
}
use critiq_be.Prelude.{
  ℕ, Bool, true, false, not, ◌&&◌, Option, none, some, List, [], ◌∷◌, ◌++◌, Text, text_eq, map,
  findb, anyb, codes, if◌then◌else◌,
}
use critiq_be.Similarity.{trim}
use critiq_be.Http.{
  Result, ok, err, ◌>>=◌, ◌>>◌, guard, or_throw, pull_not_found, body_required, invalid_parent,
  head_changed, record_gone, comment_not_found, already_synced, sync_in_progress,
}
use critiq_be.Reviews.Types.{truthy}

unfoldable pub find_commented_pull : CommentStore → (org repo pull_id : Text) → Result CommentedPull
unfolding findb
find_commented_pull s org repo pull_id = do
  pull ← or_throw (findb (λ p. text_eq p.id pull_id) s.pulls) pull_not_found
  guard (text_eq pull.organization_id org && text_eq pull.repository_id repo) pull_not_found
  ok pull

-- `parent.parentId ?? parent.id`
abbrev pub root_id : Comment → Option Text → Text
root_id parent none = parent.id
root_id parent (some id) = id

-- The thread's own comment: the parent, or the comment that the parent replies to.
unfoldable pub find_root : List Comment → Comment → Result Comment
unfolding findb
find_root rows parent =
    let id = root_id parent parent.place.parent_id in
    if text_eq id parent.id
    then ok parent
    else or_throw (findb (has_comment_id id) rows) record_gone

abbrev pub reply_place : Comment → Placement
reply_place root = record root.place { parent_id = some root.id }

abbrev pub find_parent : List Comment → Option InlineDto → Text → Result Comment
find_parent rows none parent_id = or_throw (findb (has_comment_id parent_id) rows) invalid_parent
find_parent rows (some at) parent_id = err invalid_parent

unfoldable pub place_reply :
    List Comment → (pull_id parent_id : Text) → Option InlineDto → Result Placement
unfolding find_root findb
place_reply rows pull_id parent_id at = do
  parent ← find_parent rows at parent_id
  guard (text_eq parent.pull_id pull_id) invalid_parent
  root ← find_root rows parent
  ok (reply_place root)

unfoldable pub place_inline : CommentedPull → InlineDto → Result Placement
place_inline pull at = do
  head ← or_throw (truthy pull.head_sha) head_changed
  guard (text_eq at.head_sha head) head_changed
  ok (record {
    kind = inline;
    parent_id = none;
    path = some at.path;
    line = some at.line;
    side = some at.side;
    head_sha = pull.head_sha;
  })

abbrev pub general_place : Placement
general_place = record {
  kind = general;
  parent_id = none;
  path = none;
  line = none;
  side = none;
  head_sha = none;
}

abbrev pub place_root : CommentedPull → Option InlineDto → Result Placement
place_root pull none = ok general_place
place_root pull (some at) = place_inline pull at

-- `if (dto.parentId)`: an empty text is none.
abbrev pub place_comment :
    List Comment
    → CommentedPull
    → (pull_id : Text) → Option InlineDto
    → Option Text
    → Result Placement
place_comment rows pull pull_id at none = place_root pull at
place_comment rows pull pull_id at (some parent_id) = place_reply rows pull_id parent_id at

abbrev pub is_empty : Text → Bool
is_empty [] = true
is_empty _ = false

unfoldable pub checked_comment :
    (is_space : ℕ → Bool)
    → (new_id : Text) → CommentStore
    → (org repo pull_id actor : Text) → CreateCommentDto
    → Result Comment
unfolding find_commented_pull place_reply place_inline
checked_comment is_space new_id s org repo pull_id actor dto = do
  pull ← find_commented_pull s org repo pull_id
  guard (not (is_empty (trim is_space dto.body))) body_required
  place ← place_comment s.comments pull pull_id dto.inline_at (truthy dto.parent_id)
  ok (record {
    id = new_id;
    organization_id = org;
    pull_id = pull_id;
    origin = critiq;
    author_id = some actor;
    body = trim is_space dto.body;
    sync_status = some pending;
    sync_error = none;
    place = place;
  })

abbrev pub mark_unsent : Comment → Comment
mark_unsent c = record c { sync_status = some failed; sync_error = some (codes "unknown") }

-- `update({ where: { id }, data })`
abbrev pub unsent_at : Text → Comment → Comment
unsent_at id c = if has_comment_id id c then mark_unsent c else c

unfoldable pub enqueue_comment :
    (accepts : Bool) → CommentStore → Comment → (change : CommentEffect) → CommentStore × Comment
enqueue_comment accepts s c change =
    if accepts then (record s { effects = s.effects ++ sync_job c.id ∷ change ∷ [] }, c) else (
      record s {
        comments = map (unsent_at c.id) s.comments;
        effects = s.effects ++ sync_failed c.id ∷ [];
      },
      mark_unsent c,
    )

abbrev pub store_comment :
    (accepts : Bool) → CommentStore → Result Comment → CommentStore × Result Comment
store_comment accepts s (err e) = (s, err e)
store_comment accepts s (ok c) =
    let (s', c') =
      enqueue_comment accepts (record s { comments = c ∷ s.comments }) c (created c.id) in
    (s', ok c')

unfoldable pub create_comment :
    (is_space : ℕ → Bool)
    → (new_id : Text) → (accepts : Bool) → CommentStore
    → (org repo pull_id actor : Text) → CreateCommentDto
    → CommentStore × Result Comment
unfolding enqueue_comment
create_comment is_space new_id accepts s org repo pull_id actor dto =
    store_comment accepts s (checked_comment is_space new_id s org repo pull_id actor dto)

abbrev pub is_critiq : CommentOrigin → Bool
is_critiq critiq = true
is_critiq _ = false

abbrev pub is_synced : Option CommentSyncStatus → Bool
is_synced (some synced) = true
is_synced _ = false

abbrev pub is_failed : Option CommentSyncStatus → Bool
is_failed (some failed) = true
is_failed _ = false

unfoldable pub checked_comment_retry :
    CommentStore → (org repo pull_id comment_id : Text) → Result Comment
unfolding find_commented_pull findb
checked_comment_retry s org repo pull_id comment_id = do
  pull ← find_commented_pull s org repo pull_id
  c ← or_throw (findb (has_comment_id comment_id) s.comments) comment_not_found
  guard (text_eq c.organization_id org && (text_eq c.pull_id pull_id && is_critiq c.origin))
      comment_not_found
  guard (not (is_synced c.sync_status)) already_synced
  ok c

abbrev pub is_retryable : Text → Comment → Bool
is_retryable id c = has_comment_id id c && is_failed c.sync_status

abbrev pub mark_resent : Comment → Comment
mark_resent c = record c { sync_status = some pending; sync_error = none }

-- `updateMany({ where: { id, syncStatus: FAILED }, data })`
abbrev pub resent_at : Text → Comment → Comment
resent_at id c = if is_retryable id c then mark_resent c else c

abbrev pub retry_comment :
    (accepts : Bool) → CommentStore → Result Comment → CommentStore × Result Comment
retry_comment accepts s (err e) = (s, err e)
retry_comment accepts s (ok c) =
    if anyb (is_retryable c.id) s.comments
    then (let (s', c') =
          enqueue_comment accepts (record s { comments = map (resent_at c.id) s.comments })
            (mark_resent c) (sync_pending c.id) in
        (s', ok c'))
    else (s, err sync_in_progress)

-- `meanwhile` is what other requests commit between the read and the write.
unfoldable pub retry_comment_sync :
    (accepts : Bool)
    → (meanwhile : CommentStore → CommentStore) → CommentStore
    → (org repo pull_id comment_id : Text) → CommentStore × Result Comment
unfolding enqueue_comment anyb
retry_comment_sync accepts meanwhile s org repo pull_id comment_id =
    retry_comment accepts (meanwhile s) (checked_comment_retry s org repo pull_id comment_id)
