-- ===== src/Tests/Joins.antt =====
-- Concrete organizations, invitations and scans.
use critiq_be.Prelude.{
  findb, ℕ, ◌≡◌, refl, Bool, true, false, none, some, List, [], ◌∷◌, Text, text_eq, nat_eq, codes,
  anyb, filterb, ◌⊎◌, IsKeyed, countb,
}
use critiq_be.Similarity.{trim}
use critiq_be.Http.{HttpError, ok, err, invite_used, invite_not_found}
use critiq_be.Reviews.Types.{admin, reviewer, viewer}
use critiq_be.Members.Types.{Member, Invitation, MemberStore, active, email_pending}
use critiq_be.Members.Roles.{
  change_role, remove, id_of, update_role, removal_write, find_member_or_throw, is_admin_of,
}
use critiq_be.Members.Invites.{
  Mail, invite, invited_address, is_pending_for, undelivered, enqueue_email, checked_invite,
  update_invitation,
}
use critiq_be.Members.Resending.{invitation_id, resend_retires}
use critiq_be.Members.Links.{
  accept, checked_accept, join, resend, checked_resend, renewed, has_token_hash,
}
use critiq_be.Members.Claims.{token_hash_of}
use critiq_be.Members.Admins.{HasAdmin}
use critiq_be.Members.Removing.{change_role-HasAdmin, remove-HasAdmin}
use critiq_be.Members.Runs.{at_once}
use critiq_be.Members.Joining.{Read, Joined, accept_outcome}
use critiq_be.Members.Once.{accept_once, accept_race}
use critiq_be.Members.Inviting.{InviteOutcome, invite_outcome}

abbrev is_blank : ℕ → Bool
is_blank c = nat_eq c 32

abbrev same : Text → Text
same t = t

abbrev sha : Text → Text
sha t = 35 ∷ t

abbrev org : Text
org = codes "o"

abbrev ann : Text
ann = codes "ann"

abbrev bob : Text
bob = codes "bob"

abbrev eve : Text
eve = codes "eve"

abbrev token : Text
token = codes "aaaaaaaaaaaaaaaaaaaaaaaaaaaaaaaaaaaaaaaaaaa"

abbrev members : List Member
members =
    record { id = codes "m1"; user_id = ann; organization_id = org; role = admin; status = active }
    ∷ record {
      id = codes "m2";
      user_id = bob;
      organization_id = org;
      role = reviewer;
      status = active;
    }
    ∷ []

abbrev link : Invitation
link = record {
  id = codes "i1";
  organization_id = org;
  email = codes "eve@x";
  role = viewer;
  token_hash = sha token;
  invited_by_id = some ann;
  expires_at = 100;
  accepted_at = none;
  accepted_by_id = none;
  revoked_at = none;
  email_status = email_pending;
  email_error = none;
}

abbrev office : MemberStore
office = record {
  members = members;
  invitations = link ∷ [];
  users =
      record { id = ann; email = codes "ann@x" }
      ∷ record { id = bob; email = codes "bob@x" }
      ∷ record { id = eve; email = codes "eve@y" }
      ∷ [];
  effects = [];
}

abbrev mail : Mail
mail = record { configured = true; accepts = false }

office-IsKeyed : IsKeyed id_of members
unfolding anyb text_eq
office-IsKeyed = (refl, (refl, tt))

office-HasAdmin : HasAdmin org members
unfolding anyb text_eq
office-HasAdmin = refl

change_role-HasAdmin_example : HasAdmin org (change_role at_once office org ann viewer).0.members
change_role-HasAdmin_example =
    change_role-HasAdmin at_once office org ann viewer org office-IsKeyed refl office-HasAdmin

remove-HasAdmin_example : HasAdmin org (remove at_once office org ann).0.members
remove-HasAdmin_example =
    remove-HasAdmin at_once office org ann org office-IsKeyed refl office-HasAdmin

abbrev promoted : MemberStore
promoted = (change_role (λ _. office) office org bob admin).0

accept_outcome_example :
    ((h : HttpError) × (accept sha 7 at_once (codes "m3") office token eve ≡ (office, err h)))
    ⊎ ((i : Invitation) × Read sha 7 office token i
        × Joined 7 eve office (accept sha 7 at_once (codes "m3") office token eve).0 i
        × ((accept sha 7 at_once (codes "m3") office token eve).1 ≡ ok i.role))
accept_outcome_example = accept_outcome sha 7 at_once (codes "m3") office token eve

abbrev taken : MemberStore
taken = (accept sha 7 at_once (codes "m3") office token eve).0

takes : (accept sha 7 at_once (codes "m3") office token eve).1 ≡ ok viewer
unfolding accept checked_accept text_eq join
takes = refl

links-IsKeyed : IsKeyed token_hash_of (link ∷ [])
unfolding anyb
links-IsKeyed = (refl, tt)

-- The store is that of another time: a membership was removed after the first request joined.
abbrev later : MemberStore
later = record taken { members = members }

accept_once_example : accept sha 9 at_once (codes "m4") later token bob ≡ (later, err invite_used)
accept_once_example =
    accept_once sha 7 at_once (codes "m3") office token eve viewer 9 at_once (codes "m4") later bob
      links-IsKeyed takes refl

accept_race_example : ¬ ((accept sha 6 (λ _. taken) (codes "m4") office token bob).1 ≡ ok viewer)
accept_race_example =
    accept_race sha 7 at_once (codes "m3") office token eve viewer 6 (codes "m4") office bob viewer
      links-IsKeyed takes

invite_outcome_example :
    InviteOutcome text_eq true 5 org
      (invited_address is_blank same (codes " dan@x "))
      office
      office
      taken
      (invite is_blank same sha text_eq mail true 5 at_once
        (λ _. taken)
        (codes "i2")
        (codes "t")
        office
        org
        ann
        (codes " dan@x ")
        reviewer)
invite_outcome_example =
    invite_outcome is_blank same sha text_eq mail true 5 at_once (λ _. taken) (codes "i2")
      (codes "t") office org ann (codes " dan@x ") reviewer

abbrev opened_meanwhile : MemberStore → MemberStore
opened_meanwhile s =
    (invite is_blank same sha text_eq mail true 5 at_once at_once (codes "i3") (codes "u") s org ann
      (codes "dan@x") reviewer).0

-- Two invitations of an address that both read before either creates are both left open.
two_open_invitations :
    countb
      (is_pending_for org (codes "dan@x") 5)
      (invite is_blank same sha text_eq mail true 5 at_once opened_meanwhile
        (codes "i2")
        (codes "t")
        office
        org
        ann
        (codes "dan@x")
        reviewer).0.invitations
    ≡ 2
unfolding invite checked_invite enqueue_email update_invitation text_eq countb trim
two_open_invitations = refl

-- Other requests that promote bob and demote ann between the read of bob's row and its removal.
abbrev swapped : MemberStore → MemberStore
swapped s = record s {
  members = update_role (codes "m1") viewer (update_role (codes "m2") admin s.members);
}

-- The removal that read bob as a Reviewer then deletes the only Admin.
remove_of_a_promoted_member :
    anyb (is_admin_of org) (remove swapped office org bob).0.members ≡ false
unfolding remove find_member_or_throw removal_write text_eq update_role filterb
remove_of_a_promoted_member = refl

abbrev new_token : Text
new_token = codes "bbbbbbbbbbbbbbbbbbbbbbbbbbbbbbbbbbbbbbbbbbb"

abbrev renewed_office : MemberStore
renewed_office = (resend sha mail true 8 new_token at_once office org (codes "i1")).0

resends :
    (resend sha mail true 8 new_token at_once office org (codes "i1")).1
    ≡ ok (undelivered (renewed mail 8 (sha new_token) link))
unfolding resend checked_resend enqueue_email text_eq
resends = refl

ids-IsKeyed : IsKeyed invitation_id (link ∷ [])
unfolding anyb
ids-IsKeyed = (refl, tt)

old_link : findb (has_token_hash (sha token)) (link ∷ []) ≡ some link
unfolding findb text_eq
old_link = refl

other_link : text_eq (sha new_token) (sha token) ≡ false
unfolding text_eq
other_link = refl

resend_retires_example :
    accept sha 9 at_once (codes "m4") renewed_office token eve
    ≡ (renewed_office, err invite_not_found)
resend_retires_example =
    resend_retires sha mail true 8 new_token office org token link
      (undelivered (renewed mail 8 (sha new_token) link)) 9 at_once (codes "m4") eve ids-IsKeyed
      links-IsKeyed old_link other_link resends
