-- ===== src/Members/Roles.antt =====
-- `changeRole` and `remove` of src/modules/members/members.service.ts. Each is one transaction that
-- reads the membership and then, for an Admin, locks the Admin rows of the organization;
-- `meanwhile` is what other requests commit between the read and the lock.
use critiq_be.Prelude.{
  Bool, true, false, not, ◌&&◌, List, [], ◌∷◌, Text, text_eq, filterb, findb, anyb, if◌then◌else◌,
}
use critiq_be.Http.{
  Result, ok, err, ◌>>=◌, ◌>>◌, guard, or_throw, member_not_found, last_admin, record_gone,
}
use critiq_be.Reviews.Types.{Role, admin, reviewer, viewer}
use critiq_be.Members.Types.{
  Member, MemberStore, Meanwhile, audit_role_changed, audit_removed, settings_updated, emit,
  is_active, is_admin, is_membership,
}

abbrev pub same_role : Role → Role → Bool
same_role admin admin = true
same_role reviewer reviewer = true
same_role viewer viewer = true
same_role _ _ = false

abbrev pub id_of : Member → Text
id_of m = m.id

abbrev pub has_id : Text → Member → Bool
has_id id m = text_eq m.id id

-- The rows that `assertAnotherAdmin` locks.
abbrev pub is_admin_of : (org : Text) → Member → Bool
is_admin_of org m = text_eq m.organization_id org && (is_admin m.role && is_active m.status)

unfoldable pub find_member_or_throw : List Member → (org user : Text) → Result Member
unfolding findb
find_member_or_throw rows org user = do
  current ← or_throw (findb (is_membership org user) rows) member_not_found
  guard (is_active current.status) member_not_found
  ok current

-- `admins.some((admin) => admin.userId !== userId)`
unfoldable pub another_admin : List Member → (org user : Text) → Bool
unfolding anyb filterb
another_admin rows org user =
    anyb (λ m. not (text_eq m.user_id user)) (filterb (is_admin_of org) rows)

abbrev pub assert_another_admin : List Member → (org user : Text) → Member → Result (Unit {0})
assert_another_admin rows org user current =
    if is_admin current.role then guard (another_admin rows org user) last_admin else ok tt

abbrev pub with_role : Role → Member → Member
with_role role m = record m { role = role }

-- `membership.update({ where: { id }, data: { role } })`
unfoldable pub update_role : Text → Role → List Member → List Member
update_role id role [] = []
update_role id role (m ∷ ms) =
    let rest = update_role id role ms in if has_id id m then with_role role m ∷ rest else m ∷ rest

-- The statements of the transaction after the read; an update or a delete of a row that is gone
-- throws.
unfoldable pub role_write : List Member → (org user : Text) → Role → Member → Result (List Member)
unfolding anyb
role_write rows org user role current = if same_role current.role role then ok rows else do
  assert_another_admin rows org user current
  guard (anyb (has_id current.id) rows) record_gone
  ok (update_role current.id role rows)

unfoldable pub removal_write : List Member → (org user : Text) → Member → Result (List Member)
unfolding anyb
removal_write rows org user current = do
  assert_another_admin rows org user current
  guard (anyb (has_id current.id) rows) record_gone
  ok (filterb (λ m. not (has_id current.id m)) rows)

abbrev pub change_effects : (org user : Text) → Member → Role → MemberStore → MemberStore
change_effects org user current role s =
    if same_role current.role role
    then s
    else emit (audit_role_changed user current.role role ∷ settings_updated org ∷ []) s

abbrev pub role_changed :
    (org user : Text)
    → Role
    → Member
    → MemberStore
    → Result (List Member)
    → MemberStore × Result Member
role_changed org user role current s (err e) = (s, err e)
role_changed org user role current s (ok rows) = (
  change_effects org user current role (record s { members = rows }),
  ok (with_role role current),
)

abbrev pub change_found :
    MemberStore → (org user : Text) → Role → Result Member → MemberStore × Result Member
change_found s org user role (err e) = (s, err e)
change_found s org user role (ok current) =
    role_changed org user role current s (role_write s.members org user role current)

unfoldable pub change_role :
    Meanwhile → MemberStore → (org user : Text) → Role → MemberStore × Result Member
change_role meanwhile s org user role =
    change_found (meanwhile s) org user role (find_member_or_throw s.members org user)

abbrev pub removed_from :
    (org user : Text) → Member → MemberStore → Result (List Member) → MemberStore × Result Text
removed_from org user current s (err e) = (s, err e)
removed_from org user current s (ok rows) = (
  emit (audit_removed user current.role ∷ settings_updated org ∷ []) (record s { members = rows }),
  ok user,
)

abbrev pub remove_found :
    MemberStore → (org user : Text) → Result Member → MemberStore × Result Text
remove_found s org user (err e) = (s, err e)
remove_found s org user (ok current) =
    removed_from org user current s (removal_write s.members org user current)

unfoldable pub remove : Meanwhile → MemberStore → (org user : Text) → MemberStore × Result Text
remove meanwhile s org user =
    remove_found (meanwhile s) org user (find_member_or_throw s.members org user)
