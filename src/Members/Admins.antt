-- ===== src/Members/Admins.antt =====
-- No change of one membership by src/modules/members leaves an organization without an Admin.
use critiq_be.Prelude.{
  ◌≡◌, refl, sym, ◌∙◌, arith, Bool, true, false, not, ◌&&◌, inl, inr, List, [], ◌∷◌, Text, text_eq,
  filterb, anyb, Bool-cases, All, All-map, All-each, true-not-false, anyb-weaken, anyb-filterb,
  IsOnly,
}
use mathlib.Core.Bool.{and-false}
use critiq_be.Reviews.Types.{Role}
use critiq_be.Members.Types.{Member}
use critiq_be.Members.Roles.{id_of, has_id, is_admin_of, update_role, another_admin}

-- An active Admin of the organization is in the table.
abbrev pub HasAdmin : (org : Text) → List Member → Type 0
HasAdmin org rows = anyb (is_admin_of org) rows ≡ true

-- An active Admin of the organization in another row than the one with this identifier.
abbrev pub survives : (org id : Text) → Member → Bool
survives org id m = is_admin_of org m && not (has_id id m)

survivor :
    (org : Text) (c m : Member)
    → IsOnly id_of c m
    → is_admin_of org c ≡ false
    → is_admin_of org m ≡ true
    → survives org c.id m ≡ true
survivor org c m same e0 e1 = elim (Bool-cases (has_id c.id m)) [
  | inl e ↦ absurd (true-not-false (is_admin_of org m) e1 (rw (same e) e0))
  | inr e ↦ rw (e1, e) refl
]

-- Where the row is no Admin of the organization, every Admin is another row.
pub anyb-survives :
    (org : Text) (c : Member) (rows : List Member)
    → All (IsOnly id_of c) rows
    → is_admin_of org c ≡ false
    → HasAdmin org rows
    → anyb (survives org c.id) rows ≡ true
anyb-survives org c rows same e0 = anyb-weaken (is_admin_of org) (survives org c.id) rows (
    All-map (IsOnly id_of c) (λ m. is_admin_of org m ≡ true → survives org c.id m ≡ true) rows
      (λ m f. survivor org c m f e0) same)

abbrev pub other_admin : (org user : Text) → Member → Bool
other_admin org user m = is_admin_of org m && not (text_eq m.user_id user)

admin-leaves :
    (org user : Text) (c m : Member)
    → IsOnly id_of c m
    → text_eq c.user_id user ≡ true
    → other_admin org user m ≡ true
    → survives org c.id m ≡ true
admin-leaves org user c m same mine other = elim (Bool-cases (has_id c.id m)) [
  | inl e ↦ absurd (
      true-not-false (other_admin org user m) other
        (rw (same e, mine) (and-false (is_admin_of org c))))
  | inr e ↦ ground (arith, e, other)
]

pub another_admin-survives :
    (org user : Text) (c : Member) (rows : List Member)
    → All (IsOnly id_of c) rows
    → text_eq c.user_id user ≡ true
    → another_admin rows org user ≡ true
    → anyb (survives org c.id) rows ≡ true
unfolding another_admin
another_admin-survives org user c rows same mine h =
    anyb-weaken (other_admin org user) (survives org c.id) rows
      (All-map (IsOnly id_of c) (λ m. other_admin org user m ≡ true → survives org c.id m ≡ true)
        rows (λ m f o. admin-leaves org user c m f mine o) same)
      (sym (anyb-filterb (λ m. not (text_eq m.user_id user)) (is_admin_of org) rows) ∙ h)

-- The Admin in another row is there after the row is deleted, and after its role is changed.
pub removal-HasAdmin :
    (org id : Text) (rows : List Member)
    → anyb (survives org id) rows ≡ true
    → HasAdmin org (filterb (λ m. not (has_id id m)) rows)
removal-HasAdmin org id rows h =
    anyb-filterb (is_admin_of org) (λ m. not (has_id id m)) rows
    ∙ anyb-weaken (survives org id) (λ m. not (has_id id m) && is_admin_of org m) rows
        (All-each (λ m. survives org id m ≡ true → (not (has_id id m) && is_admin_of org m) ≡ true)
          (λ m o. ground (arith, o)) rows)
        h

pub update_role-HasAdmin :
    (org id : Text) (role : Role) (rows : List Member)
    → anyb (survives org id) rows ≡ true
    → HasAdmin org (update_role id role rows)
unfolding update_role anyb
update_role-HasAdmin org id role [] h = cc
update_role-HasAdmin org id role (m ∷ ms) h = elim (Bool-cases (has_id id m)) [
  | inl e ↦ rw e (ground (arith, e, h, update_role-HasAdmin org id role ms))
  | inr e ↦ rw e (ground (arith, e, h, update_role-HasAdmin org id role ms))
]
