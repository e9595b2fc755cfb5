-- ===== src/Prelude/Strings.antt =====
-- Strings as lists of UTF-16 code units, and equality as an interface.
use Prim.Native.Char.{code}
use Prim.Native.Nat.{ℕ}
use Prim.Native.String.{String}
use mathlib.Core.Path.{◌≡◌, refl}
use mathlib.Core.Logic.{◌↔◌}
use mathlib.Core.Bool.{Bool, true, false, ◌&&◌}
use mathlib.Core.Option.{Option, none, some}
use mathlib.Core.List.{List, [], ◌∷◌}
use native.Mathlib.Omega.{arith}
use critiq_be.Prelude.Tests.{nat_eq, nat_eq_iff}
use critiq_be.Prelude.Lists.{anyb}

infix 50 ◌==◌
pub record Eq {κ} (T : Type κ) : Type κ where
  pub equals : T → T → Bool
  pub equals_iff : (x y : T) → (equals x y ≡ true) ↔ (x ≡ y)

abbrev pub ◌==◌ {κ} : {T : Type κ} ⦃tests : Eq T⦄ → T → T → Bool
◌==◌ ⦃tests⦄ = tests.equals

abbrev pub Text : Type 0
Text = List ℕ

-- The code units of an ASCII literal.
abbrev pub codes : String → Text
codes String.[] = []
codes (String.◌∷◌ c s) = code c ∷ codes s

unfoldable pub text_eq : Text → Text → Bool
text_eq [] [] = true
text_eq (a ∷ s) (b ∷ t) = nat_eq a b && text_eq s t
text_eq _ _ = false

pub text_eq_iff : (s t : Text) → (text_eq s t ≡ true) ↔ (s ≡ t)
unfolding text_eq
text_eq_iff [] [] = ((λ _. refl), λ _. refl)
text_eq_iff [] (b ∷ t) = ((λ e. cc), λ e. cc)
text_eq_iff (a ∷ s) [] = ((λ e. cc), λ e. cc)
text_eq_iff (a ∷ s) (b ∷ t) = ground (arith, text_eq_iff s t)

pub text_eq_sym : (s t : Text) → text_eq s t ≡ text_eq t s
unfolding text_eq
text_eq_sym [] [] = refl
text_eq_sym [] (b ∷ t) = refl
text_eq_sym (a ∷ s) [] = refl
text_eq_sym (a ∷ s) (b ∷ t) = ground (arith, text_eq_sym s t)

unfoldable pub option_eq : Option Text → Option Text → Bool
option_eq none none = true
option_eq (some s) (some t) = text_eq s t
option_eq _ _ = false

pub option_eq_iff : (s t : Option Text) → (option_eq s t ≡ true) ↔ (s ≡ t)
unfolding option_eq
option_eq_iff none none = ((λ _. refl), λ _. refl)
option_eq_iff none (some t) = ((λ e. cc), λ e. cc)
option_eq_iff (some s) none = ((λ e. cc), λ e. cc)
option_eq_iff (some s) (some t) = ground (arith, text_eq_iff s t)

instance abbrev pub eq_ℕ : Eq ℕ
eq_ℕ = record { equals = nat_eq; equals_iff = nat_eq_iff }

instance abbrev pub eq_Text : Eq Text
eq_Text = record { equals = text_eq; equals_iff = text_eq_iff }

instance abbrev pub eq_OptionText : Eq (Option Text)
eq_OptionText = record { equals = option_eq; equals_iff = option_eq_iff }

-- String.prototype.startsWith.
unfoldable pub starts_with : Text → Text → Bool
starts_with [] s = true
starts_with (p ∷ ps) [] = false
starts_with (p ∷ ps) (c ∷ s) = nat_eq p c && starts_with ps s

-- Array.prototype.includes.
unfoldable pub contains {ℓ} : {A : Type ℓ} ⦃e : Eq A⦄ → List A → A → Bool
unfolding anyb
contains xs a = anyb (λ x. x == a) xs
