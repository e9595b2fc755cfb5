-- ===== src/Members.antt =====
-- src/modules/members: the members of an organization and its invitations.
pub mod Types
pub mod Roles
pub mod Admins
pub mod Removing
pub mod Invites
pub mod Links
pub mod Tables
pub mod Runs
pub mod Claims
pub mod Accepting
pub mod Joining
pub mod Once
pub mod Inviting
pub mod Resending
