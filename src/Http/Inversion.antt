-- ===== src/Http/Inversion.antt =====
-- What a request that succeeded has passed: the guards of the services, read backwards.
use critiq_be.Prelude.{
  ◌≡◌, refl, ap, Bool, true, false, not, Option, none, some, Text, text_eq, text_eq_iff,
}
use critiq_be.Http.{HttpError, Result, ok, err, ◌>>=◌, ◌>>◌, guard, or_throw}

module _ {ℓ} {B : Type ℓ} where
  pub bind-ok {κ} :
      {A : Type κ} (m : Result A) (f : A → Result B) (b : B)
      → (m >>= f) ≡ ok b
      → (a : A) × (m ≡ ok a) × (f a ≡ ok b)
  bind-ok (ok a) f b e = (a, refl, e)
  bind-ok (err h) f b e = cc

  pub guard-ok :
      (c : Bool) (h : HttpError) (k : Result B) (b : B)
      → (guard c h >> k) ≡ ok b
      → (c ≡ true) × (k ≡ ok b)
  guard-ok true h k b e = (refl, e)
  guard-ok false h k b e = cc

  pub or_throw-ok {κ} :
      {A : Type κ} (o : Option A) (h : HttpError) (f : A → Result B) (b : B)
      → (or_throw o h >>= f) ≡ ok b
      → (a : A) × (o ≡ some a) × (f a ≡ ok b)
  or_throw-ok none h f b e = cc
  or_throw-ok (some a) h f b e = (a, refl, e)

pub text_eq_refl : (t : Text) → text_eq t t ≡ true
text_eq_refl t = (text_eq_iff t t).1 refl

-- The value of a request that succeeded.
abbrev pub value_or {ℓ} : {A : Type ℓ} → A → Result A → A
value_or d (ok a) = a
value_or d (err e) = d

pub ok-injective {ℓ} : {A : Type ℓ} (a b : A) → ok a ≡ ok b → a ≡ b
ok-injective a b e = ap (value_or a) e

pub not-true : (b : Bool) → not b ≡ true → b ≡ false
not-true true e = cc
not-true false e = refl

pub err-not-ok {ℓ} : {A : Type ℓ} (h : HttpError) (a : A) → ¬ (err h ≡ ok a)
err-not-ok h a e = cc

pub or_throw-some {ℓ} :
    {A : Type ℓ} (o : Option A) (h : HttpError) (a : A) → or_throw o h ≡ ok a → o ≡ some a
or_throw-some none h a e = cc
or_throw-some (some b) h a e = ap some (ok-injective b a e)
