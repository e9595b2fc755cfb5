-- ===== src/Comments.antt =====
-- src/modules/comments: the threads of a pull request.
pub mod Types
pub mod Create
pub mod Threads
pub mod Threading
