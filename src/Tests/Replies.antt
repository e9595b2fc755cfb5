-- ===== src/Tests/Replies.antt =====
-- A concrete thread of a pull request.
use critiq_be.Prelude.{
  ℕ, refl, Bool, true, none, some, [], ◌∷◌, text_eq, nat_eq, codes, anyb, All, IsKeyed,
}
use critiq_be.Comments.Types.{Comment, CommentStore, CreateCommentDto, critiq, synced}
use critiq_be.Comments.Create.{general_place, create_comment}
use critiq_be.Comments.Threads.{IsThreaded, id_of}
use critiq_be.Comments.Threading.{create_comment-AreThreaded}

abbrev is_blank : ℕ → Bool
is_blank c = nat_eq c 32

abbrev first : Comment
first = record {
  id = codes "c1";
  organization_id = codes "o";
  pull_id = codes "p";
  origin = critiq;
  author_id = some (codes "ann");
  body = codes "Why?";
  sync_status = some synced;
  sync_error = none;
  place = general_place;
}

abbrev reply : Comment
reply = record first {
  id = codes "c2";
  place = record general_place { parent_id = some (codes "c1") };
}

abbrev thread : CommentStore
thread = record {
  pulls =
      record {
        id = codes "p";
        organization_id = codes "o";
        repository_id = codes "r";
        head_sha = some (codes "abc");
      }
      ∷ [];
  comments = reply ∷ first ∷ [];
  effects = [];
}

abbrev dto : CreateCommentDto
dto = record { body = codes " Because. "; parent_id = some (codes "c2"); inline_at = none }

thread-IsKeyed : IsKeyed id_of (reply ∷ first ∷ [])
unfolding anyb text_eq
thread-IsKeyed = (refl, (refl, tt))

thread-IsThreaded : All (IsThreaded (reply ∷ first ∷ [])) (reply ∷ first ∷ [])
unfolding anyb text_eq
thread-IsThreaded = (refl, (refl, tt))

create_comment-AreThreaded_example :
    All
      (IsThreaded
        (create_comment is_blank
          (codes "c3")
          true
          thread
          (codes "o")
          (codes "r")
          (codes "p")
          (codes "bob")
          dto).0.comments)
      (create_comment is_blank
        (codes "c3")
        true
        thread
        (codes "o")
        (codes "r")
        (codes "p")
        (codes "bob")
        dto).0.comments
create_comment-AreThreaded_example =
    create_comment-AreThreaded is_blank (codes "c3") true thread (codes "o") (codes "r") (codes "p")
      (codes "bob") dto thread-IsKeyed thread-IsThreaded
