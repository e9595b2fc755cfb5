-- ===== src/Members/Runs.antt =====
-- Runs of src/modules/members: the requests as steps of a relation, each of which commits to
-- what the others left and may have read an older store.
use critiq_be.Prelude.{ℕ, ◌≡◌, Bool, false, List, Text, anyb, findb, IsKeyed, has_key}
use critiq_be.Reviews.Types.{Role}
use critiq_be.Members.Types.{Member, MemberStore, is_membership}
use critiq_be.Members.Roles.{id_of, change_role, remove}
use critiq_be.Members.Invites.{Mail, invite}
use critiq_be.Members.Links.{resend, revoke, accept}
use critiq_be.Members.Admins.{HasAdmin}

abbrev pub at_once : MemberStore → MemberStore
at_once s = s

module _ (is_space : ℕ → Bool) (lower hash : Text → Text) (same_email : Text → Text → Bool) where
  -- A request commits: it read a store `s` from any time before, or several, and writes to the
  -- current store `t`, so that the requests interleave in any way. A new membership has a new
  -- identifier, and a role change or a removal finds the membership as it had read it.
  pub data Step : MemberStore → MemberStore → Type 0 where
    invite_step :
        (mail : Mail) (allowed : Bool) (now : ℕ) (new_id token : Text) (s s1 t : MemberStore)
        (org actor email : Text) (role : Role)
        → Step t
            (invite is_space lower hash same_email mail allowed now
              (λ _. s1)
              (λ _. t)
              new_id
              token
              s
              org
              actor
              email
              role).0
    resend_step :
        (mail : Mail) (allowed : Bool) (now : ℕ) (token : Text) (s t : MemberStore) (org id : Text)
        → Step t (resend hash mail allowed now token (λ _. t) s org id).0
    revoke_step :
        (now : ℕ) (s t : MemberStore) (org id : Text) → Step t (revoke now (λ _. t) s org id).0
    accept_step :
        (now : ℕ) (new_id : Text) (s t : MemberStore) (token user : Text)
        → anyb (has_key id_of new_id) t.members ≡ false
        → Step t (accept hash now (λ _. t) new_id s token user).0
    change_role_step :
        (s t : MemberStore) (org user : Text) (role : Role)
        → findb (is_membership org user) t.members ≡ findb (is_membership org user) s.members
        → Step t (change_role (λ _. t) s org user role).0
    remove_step :
        (s t : MemberStore) (org user : Text)
        → findb (is_membership org user) t.members ≡ findb (is_membership org user) s.members
        → Step t (remove (λ _. t) s org user).0

  pub data Reach (s : MemberStore) : MemberStore → Type 0 where
    here : Reach s s
    next : {t u : MemberStore} → Reach s t → Step t u → Reach s u

abbrev pub IsSound : (org : Text) → List Member → Type 0
IsSound org rows = IsKeyed id_of rows × HasAdmin org rows
