-- ===== src/Members/Removing.antt =====
-- `changeRole` and `remove` of src/modules/members/members.service.ts as whole requests, with
-- other requests between their read and their lock.
use critiq_be.Prelude.{
  ◌≡◌, refl, sym, ◌∙◌, Bool, true, false, not, ◌&&◌, inl, inr, some, List, Text, text_eq,
  text_eq_iff, filterb, findb, anyb, if◌then◌else◌, Bool-cases, both_true, IsKeyed, findb-true,
  findb-IsOnly,
}
use mathlib.Core.Path.{subst}
use critiq_be.Http.{
  HttpError, Result, ok, err, ◌>>◌, guard, last_admin, record_gone, member_not_found,
}
use critiq_be.Http.Inversion.{bind-ok, guard-ok, or_throw-ok, ok-injective}
use critiq_be.Reviews.Types.{Role}
use critiq_be.Members.Types.{Member, MemberStore, Meanwhile, is_active, is_admin, is_membership}
use critiq_be.Members.Roles.{
  id_of, has_id, is_admin_of, same_role, update_role, another_admin, assert_another_admin,
  find_member_or_throw, role_write, removal_write, role_changed, change_found, change_role,
  removed_from, remove_found, remove,
}
use critiq_be.Members.Admins.{
  HasAdmin, survives, anyb-survives, another_admin-survives, removal-HasAdmin, update_role-HasAdmin,
}

pub find_member_or_throw-ok :
    (rows : List Member) (org user : Text) (c : Member)
    → find_member_or_throw rows org user ≡ ok c
    → (findb (is_membership org user) rows ≡ some c) × (is_active c.status ≡ true)
unfolding find_member_or_throw
find_member_or_throw-ok rows org user c h =
    let (a, found, h') =
      or_throw-ok (findb (is_membership org user) rows) member_not_found
        (λ a. guard (is_active a.status) member_not_found >> ok a) c h in
    let (live, h'') = guard-ok (is_active a.status) member_not_found (ok a) c h' in
    let same = ok-injective a c h'' in
    subst (λ c. (findb (is_membership org user) rows ≡ some c) × (is_active c.status ≡ true)) same
      (found, live)

guard_if-ok :
    (a b : Bool) (h : HttpError) → a ≡ true → (if a then guard b h else ok tt) ≡ ok tt → b ≡ true
guard_if-ok true true h e p = refl
guard_if-ok true false h e p = cc
guard_if-ok false b h e p = cc

another-true :
    (rows : List Member) (org user : Text) (c : Member)
    → is_admin c.role ≡ true
    → assert_another_admin rows org user c ≡ ok tt
    → another_admin rows org user ≡ true
another-true rows org user c leads passed =
    guard_if-ok (is_admin c.role) (another_admin rows org user) last_admin leads passed

-- The one row of the membership, and what the guard says of it.
pub assert-survives :
    (rows : List Member) (org user : Text) (c : Member) (held : Text)
    → IsKeyed id_of rows
    → findb (is_membership org user) rows ≡ some c
    → assert_another_admin rows org user c ≡ ok tt
    → HasAdmin held rows
    → anyb (survives held c.id) rows ≡ true
assert-survives rows org user c held keyed found passed has =
    let same = findb-IsOnly id_of (is_membership org user) rows c keyed found in
    let mine = findb-true (is_membership org user) rows c found in
    elim (Bool-cases (is_admin_of held c)) [
      | inl e ↦
          let (in_held, rest) =
            both_true (text_eq c.organization_id held) (is_admin c.role && is_active c.status) e in
          let (named, in_org) =
            both_true (text_eq c.user_id user) (text_eq c.organization_id org) mine in
          let org≡held =
            sym ((text_eq_iff c.organization_id org).0 in_org)
            ∙ (text_eq_iff c.organization_id held).0 in_held in
          let leads = (both_true (is_admin c.role) (is_active c.status) rest).0 in
          subst (λ o. anyb (survives o c.id) rows ≡ true) org≡held
            (another_admin-survives org user c rows same named
              (another-true rows org user c leads passed))
      | inr e ↦ anyb-survives held c rows same e has
    ]

removal_write-HasAdmin :
    (rows kept : List Member) (org user : Text) (c : Member) (held : Text)
    → IsKeyed id_of rows
    → findb (is_membership org user) rows ≡ some c
    → removal_write rows org user c ≡ ok kept
    → HasAdmin held rows
    → HasAdmin held kept
unfolding removal_write
removal_write-HasAdmin rows kept org user c held keyed found h has =
    let (u, passed, h') =
      bind-ok (assert_another_admin rows org user c)
        (λ _.
          guard (anyb (has_id c.id) rows) record_gone
          >> ok (filterb (λ m. not (has_id c.id m)) rows))
        kept h in
    let (there, h'') =
      guard-ok (anyb (has_id c.id) rows) record_gone (ok (filterb (λ m. not (has_id c.id m)) rows))
        kept h' in
    subst (HasAdmin held) (ok-injective (filterb (λ m. not (has_id c.id m)) rows) kept h'') (
      removal-HasAdmin held c.id rows (assert-survives rows org user c held keyed found passed has))

pub role_write_same :
    (rows : List Member) (org user : Text) (role : Role) (c : Member)
    → same_role c.role role ≡ true
    → role_write rows org user role c ≡ ok rows
unfolding role_write
role_write_same rows org user role c e = rw e refl

pub role_write_other :
    (rows : List Member) (org user : Text) (role : Role) (c : Member)
    → same_role c.role role ≡ false
    → role_write rows org user role c
      ≡ assert_another_admin rows org user c
        >> (guard (anyb (has_id c.id) rows) record_gone >> ok (update_role c.id role rows))
unfolding role_write
role_write_other rows org user role c e = rw e refl

role_write-HasAdmin :
    (rows kept : List Member) (org user : Text) (role : Role) (c : Member) (held : Text)
    → IsKeyed id_of rows
    → findb (is_membership org user) rows ≡ some c
    → role_write rows org user role c ≡ ok kept
    → HasAdmin held rows
    → HasAdmin held kept
role_write-HasAdmin rows kept org user role c held keyed found h has =
    elim (Bool-cases (same_role c.role role)) [
      | inl e ↦
          subst (HasAdmin held)
            (ok-injective rows kept (sym (role_write_same rows org user role c e) ∙ h)) has
      | inr e ↦
          let (u, passed, h') =
            bind-ok (assert_another_admin rows org user c)
              (λ _. guard (anyb (has_id c.id) rows) record_gone >> ok (update_role c.id role rows))
              kept (sym (role_write_other rows org user role c e) ∙ h) in
          let (there, h'') =
            guard-ok (anyb (has_id c.id) rows) record_gone (ok (update_role c.id role rows)) kept
              h' in
          subst (HasAdmin held) (ok-injective (update_role c.id role rows) kept h'') (
            update_role-HasAdmin held c.id role rows
              (assert-survives rows org user c held keyed found passed has))
    ]

change_found-HasAdmin :
    (s : MemberStore) (org user : Text) (role : Role) (held : Text) (r : Result Member)
    → ((c : Member) → r ≡ ok c → findb (is_membership org user) s.members ≡ some c)
    → IsKeyed id_of s.members
    → HasAdmin held s.members
    → HasAdmin held (change_found s org user role r).0.members
change_found-HasAdmin s org user role held (err e) found keyed has = has
change_found-HasAdmin s org user role held (ok c) found keyed has =
    written (role_write s.members org user role c)
      (λ kept h. role_write-HasAdmin s.members kept org user role c held keyed (found c refl) h has)
  where
    written :
        (w : Result (List Member))
        → ((kept : List Member) → w ≡ ok kept → HasAdmin held kept)
        → HasAdmin held (role_changed org user role c s w).0.members
    written (err e) f = has
    written (ok kept) f = elim (Bool-cases (same_role c.role role)) [
      | inl e ↦ rw e (f kept refl)
      | inr e ↦ rw e (f kept refl)
    ]

remove_found-HasAdmin :
    (s : MemberStore) (org user : Text) (held : Text) (r : Result Member)
    → ((c : Member) → r ≡ ok c → findb (is_membership org user) s.members ≡ some c)
    → IsKeyed id_of s.members
    → HasAdmin held s.members
    → HasAdmin held (remove_found s org user r).0.members
remove_found-HasAdmin s org user held (err e) found keyed has = has
remove_found-HasAdmin s org user held (ok c) found keyed has =
    written (removal_write s.members org user c)
      (λ kept h. removal_write-HasAdmin s.members kept org user c held keyed (found c refl) h has)
  where
    written :
        (w : Result (List Member))
        → ((kept : List Member) → w ≡ ok kept → HasAdmin held kept)
        → HasAdmin held (removed_from org user c s w).0.members
    written (err e) f = has
    written (ok kept) f = f kept refl

-- A role change never takes the last active Admin from an organization, whatever it answers: the
-- organization `held` has one afterwards when it has one as the Admin rows are locked, for a table
-- with distinct identifiers in which the membership itself is still as it was read.
pub change_role-HasAdmin :
    (meanwhile : Meanwhile) (s : MemberStore) (org user : Text) (role : Role) (held : Text)
    → IsKeyed id_of (meanwhile s).members
    → findb (is_membership org user) (meanwhile s).members
      ≡ findb (is_membership org user) s.members
    → HasAdmin held (meanwhile s).members
    → HasAdmin held (change_role meanwhile s org user role).0.members
unfolding change_role
change_role-HasAdmin meanwhile s org user role held keyed still has =
    change_found-HasAdmin (meanwhile s) org user role held (find_member_or_throw s.members org user)
      (λ c h. still ∙ (find_member_or_throw-ok s.members org user c h).0) keyed has

-- A removal, the leaving of a member included, never takes the last active Admin from an
-- organization, whatever it answers: the organization `held` has one afterwards when it has one as
-- the Admin rows are locked, for a table with distinct identifiers in which the membership itself
-- is still as it was read.
pub remove-HasAdmin :
    (meanwhile : Meanwhile) (s : MemberStore) (org user held : Text)
    → IsKeyed id_of (meanwhile s).members
    → findb (is_membership org user) (meanwhile s).members
      ≡ findb (is_membership org user) s.members
    → HasAdmin held (meanwhile s).members
    → HasAdmin held (remove meanwhile s org user).0.members
unfolding remove
remove-HasAdmin meanwhile s org user held keyed still has =
    remove_found-HasAdmin (meanwhile s) org user held (find_member_or_throw s.members org user)
      (λ c h. still ∙ (find_member_or_throw-ok s.members org user c h).0) keyed has
