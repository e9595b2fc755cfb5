-- ===== src/Prelude/Keys.antt =====
-- Searches of tables, and tables whose rows have distinct keys.
use mathlib.Core.Path.{◌≡◌, refl, sym, ◌∙◌, subst}
use mathlib.Core.Logic.{inl, inr}
use mathlib.Core.Bool.{Bool, true, false, ◌&&◌}
use mathlib.Core.Option
use mathlib.Core.Option.{none, some}
use mathlib.Core.List.{List, [], ◌∷◌}
use native.Mathlib.Omega.{arith}
use critiq_be.Prelude.Tests.{Bool-cases, true-not-false, none-not-some}
use critiq_be.Prelude.Lists.{filterb, findb, findb_hit, findb_skip, anyb, All}
use critiq_be.Prelude.Strings.{Text, text_eq, text_eq_iff}

module _ {ℓ} {A : Type ℓ} where
  -- A test that holds somewhere may be replaced by one that holds wherever it does.
  pub anyb-weaken :
      (p q : A → Bool) (xs : List A)
      → All (λ x. p x ≡ true → q x ≡ true) xs
      → anyb p xs ≡ true
      → anyb q xs ≡ true
  unfolding anyb
  anyb-weaken p q [] a h = cc
  anyb-weaken p q (x ∷ xs) (a, rest) h = ground (arith, a, anyb-weaken p q xs rest)

  pub findb-true : (p : A → Bool) (xs : List A) (c : A) → findb p xs ≡ some c → p c ≡ true
  unfolding findb
  findb-true p [] c h = cc
  findb-true p (x ∷ xs) c h = elim (Bool-cases (p x)) [
    | inl e ↦ rw (sym (Option.some-injective x c (sym (findb_hit p x xs e) ∙ h))) e
    | inr e ↦ findb-true p xs c (sym (findb_skip p x xs e) ∙ h)
  ]

  pub findb-All :
      (P : A → Type 0) (p : A → Bool) (xs : List A) (c : A) → All P xs → findb p xs ≡ some c → P c
  unfolding findb
  findb-All P p [] c a h = cc
  findb-All P p (x ∷ xs) c (a, rest) h = elim (Bool-cases (p x)) [
    | inl e ↦ subst P (Option.some-injective x c (sym (findb_hit p x xs e) ∙ h)) a
    | inr e ↦ findb-All P p xs c rest (sym (findb_skip p x xs e) ∙ h)
  ]

  pub anyb-filterb :
      (p q : A → Bool) (xs : List A) → anyb p (filterb q xs) ≡ anyb (λ x. q x && p x) xs
  unfolding anyb filterb
  anyb-filterb p q [] = refl
  anyb-filterb p q (x ∷ xs) = ground (arith, anyb-filterb p q xs)

  pub findb-none : (p : A → Bool) (xs : List A) → findb p xs ≡ none → anyb p xs ≡ false
  unfolding findb anyb
  findb-none p [] h = refl
  findb-none p (x ∷ xs) h = elim (Bool-cases (p x)) [
    | inl e ↦ absurd (none-not-some x (sym h ∙ findb_hit p x xs e))
    | inr e ↦ rw e (findb-none p xs (sym (findb_skip p x xs e) ∙ h))
  ]

  pub findb_absent : (p : A → Bool) (xs : List A) → anyb p xs ≡ false → findb p xs ≡ none
  unfolding findb anyb
  findb_absent p [] h = refl
  findb_absent p (x ∷ xs) h = ground (arith, findb_absent p xs)

  pub anyb-filterb_none :
      (p q : A → Bool) (xs : List A) → anyb p xs ≡ false → anyb p (filterb q xs) ≡ false
  unfolding anyb filterb
  anyb-filterb_none p q [] h = refl
  anyb-filterb_none p q (x ∷ xs) h = ground (arith, anyb-filterb_none p q xs)

module _ {ℓ} {A : Type ℓ} (key : A → Text) where
  abbrev pub has_key : Text → A → Bool
  has_key k x = text_eq (key x) k

  -- No two rows have the same key.
  abbrev pub IsKeyed : List A → Type 0
  IsKeyed [] = Unit
  IsKeyed (x ∷ xs) = (anyb (has_key (key x)) xs ≡ false) × IsKeyed xs

  abbrev pub IsOnly : A → A → Type ℓ
  IsOnly c x = has_key (key c) x ≡ true → x ≡ c

  pub none-IsOnly : (c : A) (xs : List A) → anyb (has_key (key c)) xs ≡ false → All (IsOnly c) xs
  unfolding anyb
  none-IsOnly c [] h = tt
  none-IsOnly c (x ∷ xs) h = elim (Bool-cases (has_key (key c) x)) [
    | inl e ↦ cc
    | inr e ↦ ((λ k. cc), none-IsOnly c xs (ground arith))
  ]

  pub findb-has_key :
      (p : A → Bool) (xs : List A) (c : A) → findb p xs ≡ some c → anyb (has_key (key c)) xs ≡ true
  unfolding findb anyb
  findb-has_key p [] c h = cc
  findb-has_key p (x ∷ xs) c h = elim (Bool-cases (p x)) [
    | inl e ↦
        rw
          (
            Option.some-injective x c (sym (findb_hit p x xs e) ∙ h),
            (text_eq_iff (key c) (key c)).1 refl,
          )
          refl
    | inr e ↦ ground (arith, findb-has_key p xs c (sym (findb_skip p x xs e) ∙ h))
  ]

  -- In a keyed table the row that a search finds is the only one with its key.
  pub findb-IsOnly :
      (p : A → Bool) (xs : List A) (c : A) → IsKeyed xs → findb p xs ≡ some c → All (IsOnly c) xs
  unfolding findb
  findb-IsOnly p [] c k h = tt
  findb-IsOnly p (x ∷ xs) c (u, k) h = elim (Bool-cases (p x)) [
    | inl e ↦
        let same = Option.some-injective x c (sym (findb_hit p x xs e) ∙ h) in
        ((λ _. same), none-IsOnly c xs (rw (sym same) u))
    | inr e ↦ (
      λ i. absurd (
          true-not-false (anyb (has_key (key c)) xs)
            (findb-has_key p xs c (sym (findb_skip p x xs e) ∙ h))
            (rw (sym ((text_eq_iff (key x) (key c)).0 i)) u)),
      findb-IsOnly p xs c k (sym (findb_skip p x xs e) ∙ h),
    )
  ]

  -- Deleting rows keeps the keys distinct.
  pub filterb-IsKeyed : (q : A → Bool) (xs : List A) → IsKeyed xs → IsKeyed (filterb q xs)
  unfolding filterb
  filterb-IsKeyed q [] k = tt
  filterb-IsKeyed q (x ∷ xs) (u, k) = elim (Bool-cases (q x)) [
    | inl e ↦ rw e (anyb-filterb_none (has_key (key x)) q xs u, filterb-IsKeyed q xs k)
    | inr e ↦ rw e (filterb-IsKeyed q xs k)
  ]
