-- ===== src/Diff/Headers.antt =====
-- Decimal numbers and hunk headers are read back by `HUNK_HEADER_PATTERN` of
-- src/queue/diff/diff-parser.ts.
use critiq_be.Prelude.{
  ℕ, zero, suc, ◌+◌, ◌-◌, ◌*◌, ◌/◌, ◌%◌, ◌<◌, ◌≡◌, ◌≢◌, refl, ap, ◌∙◌, inl, inr, true, false, none,
  some, [], ◌∷◌, ◌++◌, Text, All, ltb, arith, Bool-cases,
}
use critiq_be.Diff.Parser.{is_digit, digits_from, number, count, header}
use critiq_be.Diff.Script.{Edit, keep, delete, insert}
use critiq_be.Diff.Render.{decimal_from, decimal, render_edit, render_header}

abbrev value : ℕ → Text → ℕ
value n [] = n
value n (c ∷ s) = value (n * 10 + (c - 48)) s

abbrev pub IsDigits : Text → Type 0
IsDigits s = All (λ c. is_digit c ≡ true) s

value-append : (n d : ℕ) (s : Text) → value n (s ++ d ∷ []) ≡ value n s * 10 + (d - 48)
value-append n d [] = refl
value-append n d (c ∷ s) = value-append (n * 10 + (c - 48)) d s

IsDigits-append : (d : ℕ) (s : Text) → IsDigits s → is_digit d ≡ true → IsDigits (s ++ d ∷ [])
IsDigits-append d [] h e = (e, tt)
IsDigits-append d (c ∷ s) (e', h) e = (e', IsDigits-append d s h e)

decimal_from-IsDigits : (fuel n : ℕ) → IsDigits (decimal_from fuel n)
unfolding decimal_from
decimal_from-IsDigits zero n = tt
decimal_from-IsDigits (suc fuel) n = elim (Bool-cases (ltb n 10)) [
  | inl e ↦ rw e (ground arith, tt)
  | inr e ↦ rw e (IsDigits-append _ _ (decimal_from-IsDigits fuel (n / 10)) (ground arith))
]

value-decimal_from : (fuel n : ℕ) → n < fuel → value 0 (decimal_from fuel n) ≡ n
unfolding decimal_from
value-decimal_from zero n h = elim h [ ]
value-decimal_from (suc fuel) n h = elim (Bool-cases (ltb n 10)) [
  | inl e ↦ rw e (omega arith)
  | inr e ↦
      rw (e, value-append 0 (48 + n % 10) (decimal_from fuel (n / 10)))
        (omega (arith, value-decimal_from fuel (n / 10) (ground arith)))
]

-- No digit begins what follows a number.
abbrev IsStopped : Text → Type 0
IsStopped [] = Unit
IsStopped (c ∷ s) = is_digit c ≡ false

digits_from-append :
    (n : ℕ) (s rest : Text)
    → IsDigits s
    → IsStopped rest
    → digits_from n (s ++ rest) ≡ (value n s, rest)
unfolding digits_from
digits_from-append n [] [] h k = refl
digits_from-append n [] (c ∷ rest) h k = rw k
digits_from-append n (c ∷ s) rest (e, h) k =
    rw e (digits_from-append (n * 10 + (c - 48)) s rest h k)

number-append :
    (s rest : Text)
    → s ≢ []
    → IsDigits s
    → IsStopped rest
    → number (s ++ rest) ≡ some (value 0 s, rest)
unfolding number
number-append [] rest ne h k = absurd (ne refl)
number-append (c ∷ s) rest ne (e, h) k = rw e (
    ap some
      (rw (digits_from-append (c - 48) s rest h k) (ap (λ v. (value v s, rest)) (omega arith))))

append-cons-ne-nil : (s : Text) (d : ℕ) → s ++ d ∷ [] ≢ []
append-cons-ne-nil [] d = λ e. cc
append-cons-ne-nil (c ∷ s) d = λ e. cc

decimal-ne-nil : (n : ℕ) → decimal n ≢ []
unfolding decimal
decimal-ne-nil n = elim (Bool-cases (ltb n 10)) [
  | inl e ↦ rw e (λ h. cc)
  | inr e ↦ rw e (append-cons-ne-nil (decimal_from n (n / 10)) (48 + n % 10))
]

pub decimal-IsDigits : (n : ℕ) → IsDigits (decimal n)
unfolding decimal
decimal-IsDigits n = decimal_from-IsDigits (suc n) n

value-decimal : (n : ℕ) → value 0 (decimal n) ≡ n
unfolding decimal
value-decimal n = value-decimal_from (suc n) n (omega arith)

number-decimal :
    (n : ℕ) (rest : Text) → IsStopped rest → number (decimal n ++ rest) ≡ some (n, rest)
number-decimal n rest k =
    number-append (decimal n) rest (decimal-ne-nil n) (decimal-IsDigits n) k
    ∙ ap (λ v. some (v, rest)) (value-decimal n)

count-decimal :
    (n : ℕ) (rest : Text) → IsStopped rest → count (b',' ∷ (decimal n ++ rest)) ≡ (some n, rest)
unfolding count
count-decimal n rest k = rw (number-decimal n rest k)

pub header-render_header :
    (o oc n nc : ℕ)
    → header (render_header o oc n nc)
      ≡ some (record { old_start = o; old_count = some oc; new_start = n })
unfolding header
header-render_header o oc n nc = rw (
  number-decimal o _ refl,
  count-decimal oc _ refl,
  number-decimal n _ refl,
  count-decimal nc _ refl,
)

-- A line of a hunk's body is no header.
pub header-render_edit : (e : Edit) → header (render_edit e) ≡ none
unfolding header
header-render_edit (keep t) = refl
header-render_edit (delete t) = refl
header-render_edit (insert t) = refl
