-- ===== src/Similarity/Bounds.antt =====
-- The similarity of src/common/text/jaro-winkler.ts is a number from 0 to 1.
use native.Mathlib.Nat.{mul-le-mul_right, mul-pos, le_trans}
use critiq_be.Prelude.{
  text_eq_iff, ℕ, zero, suc, ◌+◌, ◌-◌, ◌*◌, ◌≤◌, ◌<◌, ◌≡◌, refl, true, Bool, Option, none, some,
  List, [], ◌∷◌, Text, length, arith, countb, Bool-cases, Option-cases, min, max, ◌/◌, inl, inr,
  nat_eq, text_eq, leb, ◌&&◌, not, if◌then◌else◌,
}
use critiq_be.Similarity.{
  mark, Flags, match_from, unmatched, select, transpositions, Ratio, is_set, mean, score, jaro,
  common_prefix, boost, jaro_winkler, max_prefix,
}

-- A character that is matched sets one flag more.
mark-countb :
    (c j from to : ℕ) (b : Text) (flags fs : List Bool)
    → mark c j from to b flags ≡ some fs
    → (countb is_set fs ≡ suc (countb is_set flags)) × (length fs ≡ length flags)
unfolding mark countb
mark-countb c j from to [] flags fs e = cc
mark-countb c j from to (x ∷ b) [] fs e = cc
mark-countb c j from to (x ∷ b) (m ∷ flags) fs e =
    go (mark c (suc j) from to b flags) (mark-countb c (suc j) from to b flags) e
  where
    go :
        (o : Option (List Bool))
        → ((gs : List Bool)
            → o ≡ some gs
            → (countb is_set gs ≡ suc (countb is_set flags)) × (length gs ≡ length flags))
        → (if leb from j && leb j to && not m && nat_eq c x
            then some (true ∷ flags)
            else elim o [ none ↦ none | some fs ↦ some (m ∷ fs) ])
          ≡ some fs
        → (countb is_set fs ≡ suc (countb is_set (m ∷ flags))) × (length fs ≡ length (m ∷ flags))
    go none ih h = ground arith
    go (some gs) ih h = ground (arith, ih gs refl)

match_from-countb :
    (window i : ℕ) (a b : Text) (flags : List Bool)
    → let fs = match_from window i a b flags in
      (countb is_set fs.b_matched ≡ countb is_set flags + countb is_set fs.a_matched)
      × (length fs.b_matched ≡ length flags)
      × (length fs.a_matched ≡ length a)
unfolding match_from countb
match_from-countb window i [] b flags = omega arith
match_from-countb window i (c ∷ a) b flags =
    elim (Option-cases (mark c 0 (i - window) (min (length b - 1) (i + window)) b flags)) [
      | inl e ↦ rw (e, match_from) (omega (arith, match_from-countb window (suc i) a b flags))
      | inr (fs, e) ↦
          rw (e, match_from)
            (omega (
              arith,
              match_from-countb window (suc i) a b fs,
              mark-countb c 0 (i - window) (min (length b - 1) (i + window)) b flags fs e,
            ))
    ]

countb-le-length : (flags : List Bool) → countb is_set flags ≤ length flags
unfolding countb
countb-le-length [] = omega arith
countb-le-length (m ∷ flags) = ground (arith, countb-le-length flags)

unmatched-countb :
    (s : Text) → (countb is_set (unmatched s) ≡ 0) × (length (unmatched s) ≡ length s)
unfolding countb
unmatched-countb [] = omega arith
unmatched-countb (c ∷ s) = omega (arith, unmatched-countb s)

length-select-le : (s : Text) (flags : List Bool) → length (select s flags) ≤ countb is_set flags
unfolding select countb
length-select-le [] flags = omega arith
length-select-le (c ∷ s) [] = omega arith
length-select-le (c ∷ s) (m ∷ flags) = ground (arith, length-select-le s flags)

transpositions-le : (s t : Text) → transpositions s t ≤ length s
unfolding transpositions
transpositions-le [] t = omega arith
transpositions-le (c ∷ s) [] = omega arith
transpositions-le (c ∷ s) (d ∷ t) = ground (arith, transpositions-le s t)

-- A fraction from 0 to 1.
pub record IsShare (r : Ratio) : Type 0 where
  pub within : r.num ≤ r.den
  pub positive : 0 < r.den

sum_within :
    (la lb m k : ℕ)
    → m ≤ la
    → m ≤ lb
    → k ≤ 2 * m
    → 2 * m * m * lb + 2 * m * m * la + k * la * lb ≤ 6 * la * lb * m
sum_within la lb m k ha hb hk = omega (
  arith,
  mul-le-mul_right (m * lb) ha,
  mul-le-mul_right (m * la) hb,
  mul-le-mul_right (la * lb) hk,
)

mean-IsShare : (la lb m t : ℕ) → 0 < m → m ≤ la → m ≤ lb → IsShare (mean la lb m t)
unfolding mean
mean-IsShare la lb m t pos ha hb = record {
  within = sum_within la lb m (2 * m - t) ha hb (omega arith);
  positive = mul-pos (mul-pos (mul-pos (omega arith) (omega arith)) (omega arith)) pos;
}

score-IsShare :
    (a b : Text) (fs : Flags)
    → countb is_set fs.a_matched ≤ length a
    → countb is_set fs.a_matched ≤ length b
    → IsShare (score a b fs)
unfolding score
score-IsShare a b fs ha hb = elim (Bool-cases (nat_eq (countb is_set fs.a_matched) 0)) [
  | inl e ↦ rw e (omega arith)
  | inr e ↦ rw e (mean-IsShare _ _ _ _ (ground arith) ha hb)
]

matched-le :
    (window : ℕ) (a b : Text)
    → let m = countb is_set (match_from window 0 a b (unmatched b)).a_matched in
      (m ≤ length a) × (m ≤ length b)
matched-le window a b =
    let fs = match_from window 0 a b (unmatched b) in
    omega (
      arith,
      match_from-countb window 0 a b (unmatched b),
      unmatched-countb b,
      countb-le-length fs.a_matched,
      countb-le-length fs.b_matched,
    )

jaro-IsShare : (a b : Text) → IsShare (jaro a b)
unfolding jaro
jaro-IsShare [] b = ground (arith, text_eq_iff [] b)
jaro-IsShare (c ∷ a) [] = ground (arith, text_eq_iff (c ∷ a) [])
jaro-IsShare (c ∷ a) (d ∷ b) = elim (Bool-cases (text_eq (c ∷ a) (d ∷ b))) [
  | inl e ↦ rw e (omega arith)
  | inr e ↦
      let within = matched-le (max (length (c ∷ a)) (length (d ∷ b)) / 2 - 1) (c ∷ a) (d ∷ b) in
      rw e (score-IsShare (c ∷ a) (d ∷ b) _ within.0 within.1)
]

common_prefix-le : (n : ℕ) (a b : Text) → common_prefix n a b ≤ n
unfolding common_prefix
common_prefix-le zero a b = omega arith
common_prefix-le (suc n) [] b = omega arith
common_prefix-le (suc n) (c ∷ a) [] = omega arith
common_prefix-le (suc n) (c ∷ a) (d ∷ b) = ground (arith, common_prefix-le n a b)

boost-IsShare : (p : ℕ) (r : Ratio) → p ≤ 10 → IsShare r → IsShare (boost p r)
unfolding boost
boost-IsShare p r h s = record {
  within = omega (arith, mul-le-mul_right (r.den - r.num) h, s.within);
  positive = omega (arith, s.positive);
}

-- The exact similarity of two titles is a number from 0 to 1.
pub jaro_winkler-IsShare : (a b : Text) → IsShare (jaro_winkler a b)
unfolding jaro_winkler
jaro_winkler-IsShare a b =
    boost-IsShare (common_prefix max_prefix a b) (jaro a b)
      (le_trans (common_prefix-le max_prefix a b) (omega arith)) (jaro-IsShare a b)
