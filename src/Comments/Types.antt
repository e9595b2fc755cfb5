-- ===== src/Comments/Types.antt =====
-- The comments and the pull requests that src/modules/comments reads and writes (prisma/schema.prisma).
use critiq_be.Prelude.{ℕ, Bool, Option, List, Text, text_eq}

pub data CommentKind : Type 0 where
  general inline : CommentKind

pub data DiffSide : Type 0 where
  old new : DiffSide

pub data CommentOrigin : Type 0 where
  critiq github gitlab : CommentOrigin

pub data CommentSyncStatus : Type 0 where
  pending synced failed : CommentSyncStatus

pub record Placement : Type 0 where
  pub kind : CommentKind
  pub parent_id : Option Text
  pub path : Option Text
  pub line : Option ℕ
  pub side : Option DiffSide
  pub head_sha : Option Text

pub record Comment : Type 0 where
  pub id : Text
  pub organization_id : Text
  pub pull_id : Text
  pub origin : CommentOrigin
  pub author_id : Option Text
  pub body : Text
  pub sync_status : Option CommentSyncStatus
  pub sync_error : Option Text
  pub place : Placement

pub record CommentedPull : Type 0 where
  pub id : Text
  pub organization_id : Text
  pub repository_id : Text
  pub head_sha : Option Text

pub data CommentEffect : Type 0 where
  sync_job : (comment_id : Text) → CommentEffect
  created sync_pending sync_failed : (comment_id : Text) → CommentEffect

pub record CommentStore : Type 0 where
  pub pulls : List CommentedPull
  pub comments : List Comment
  pub effects : List CommentEffect

pub record InlineDto : Type 0 where
  pub path : Text
  pub line : ℕ
  pub side : DiffSide
  pub head_sha : Text

pub record CreateCommentDto : Type 0 where
  pub body : Text
  pub parent_id : Option Text
  pub inline_at : Option InlineDto

abbrev pub has_comment_id : Text → Comment → Bool
has_comment_id id c = text_eq c.id id
