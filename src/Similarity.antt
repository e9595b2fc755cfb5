-- ===== src/Similarity.antt =====
-- src/common/text/jaro-winkler.ts: how alike two titles are. A similarity is the exact fraction that
-- the source computes in floating point.
pub mod Bounds
use critiq_be.Prelude.{
  ℕ, zero, suc, ◌+◌, ◌-◌, ◌*◌, ◌/◌, Bool, true, false, not, ◌&&◌, Option, none, some, List, [], ◌∷◌,
  ◌++◌, Text, text_eq, length, max, min, countb, leb, nat_eq, if◌then◌else◌,
}
use mathlib.Core.List.{reverse}

-- What the JavaScript engine knows of Unicode: `toLowerCase`, the replacement of every run of
-- characters that are neither letters nor white space by a space, and `\s`.
pub record Unicode : Type 0 where
  pub to_lower : Text → Text
  pub letters_only : Text → Text
  pub is_space : ℕ → Bool

-- `.replace(/\s+/g, ' ')`; `open` says that the last unit read was white space.
unfoldable pub collapse : (ℕ → Bool) → Bool → Text → Text
collapse is_space open_run [] = []
collapse is_space open_run (c ∷ s) =
    let inside = collapse is_space true s in
    let outside = collapse is_space false s in
    if is_space c then (if open_run then inside else 32 ∷ inside) else c ∷ outside

unfoldable pub trim_start : (ℕ → Bool) → Text → Text
trim_start is_space [] = []
trim_start is_space (c ∷ s) = let rest = trim_start is_space s in if is_space c then rest else c ∷ s

unfoldable pub trim : (ℕ → Bool) → Text → Text
unfolding trim_start
trim is_space s = reverse (trim_start is_space (reverse (trim_start is_space s)))

unfoldable pub normalize_title : Unicode → Text → Text
unfolding collapse trim
normalize_title u title =
    trim u.is_space (collapse u.is_space false (u.letters_only (u.to_lower title)))

-- The inner loop: the first unmatched `j` of the window with `b[j] = c` is marked.
unfoldable pub mark : ℕ → ℕ → ℕ → ℕ → Text → List Bool → Option (List Bool)
mark c j from to [] flags = none
mark c j from to (x ∷ b) [] = none
mark c j from to (x ∷ b) (m ∷ flags) =
    let rest = mark c (suc j) from to b flags in
    if leb from j && leb j to && not m && nat_eq c x
    then some (true ∷ flags)
    else elim rest [ none ↦ none | some fs ↦ some (m ∷ fs) ]

pub record Flags : Type 0 where
  pub a_matched : List Bool
  pub b_matched : List Bool

abbrev pub cons_flag : Bool → Flags → Flags
cons_flag m fs = record fs { a_matched = m ∷ fs.a_matched }

-- The loop over `a`, from index `i`.
unfoldable pub match_from : ℕ → ℕ → Text → Text → List Bool → Flags
match_from window i [] b flags = record { a_matched = []; b_matched = flags }
match_from window i (c ∷ a) b flags =
    elim (mark c 0 (i - window) (min (length b - 1) (i + window)) b flags) [
      | none ↦ cons_flag false (match_from window (suc i) a b flags)
      | some fs ↦ cons_flag true (match_from window (suc i) a b fs)
    ]

-- `new Array(n).fill(false)`
abbrev pub unmatched : Text → List Bool
unmatched [] = []
unmatched (c ∷ s) = false ∷ unmatched s

-- The characters that are matched, in order.
unfoldable pub select : Text → List Bool → Text
select [] flags = []
select (c ∷ s) [] = []
select (c ∷ s) (m ∷ flags) = let rest = select s flags in if m then c ∷ rest else rest

-- The loop that walks the matched characters of both texts together and counts where they differ.
unfoldable pub transpositions : Text → Text → ℕ
transpositions [] t = 0
transpositions (c ∷ s) [] = 0
transpositions (c ∷ s) (d ∷ t) = (if nat_eq c d then 0 else 1) + transpositions s t

pub record Ratio : Type 0 where
  pub num : ℕ
  pub den : ℕ

abbrev pub is_set : Bool → Bool
is_set b = b

-- (matches / |a| + matches / |b| + (matches - transpositions / 2) / matches) / 3, on one
-- denominator.
unfoldable pub mean : ℕ → ℕ → ℕ → ℕ → Ratio
mean la lb m t = record {
  num = 2 * m * m * lb + 2 * m * m * la + (2 * m - t) * la * lb;
  den = 6 * la * lb * m;
}

abbrev pub is_empty : Text → Bool
is_empty [] = true
is_empty (_ ∷ _) = false

unfoldable pub score : Text → Text → Flags → Ratio
score a b fs =
    let m = countb is_set fs.a_matched in
    if nat_eq m 0
    then record { num = 0; den = 1 }
    else mean (length a) (length b) m
        (transpositions (select a fs.a_matched) (select b fs.b_matched))

unfoldable pub jaro : Text → Text → Ratio
jaro a b =
    let window = max (length a) (length b) / 2 - 1 in
    if text_eq a b
    then record { num = 1; den = 1 }
    else if is_empty a
    then record { num = 0; den = 1 }
    else if is_empty b
    then record { num = 0; den = 1 }
    else score a b (match_from window 0 a b (unmatched b))

-- The length of the common prefix, up to `n`.
unfoldable pub common_prefix : ℕ → Text → Text → ℕ
common_prefix zero a b = 0
common_prefix (suc n) [] b = 0
common_prefix (suc n) (c ∷ a) [] = 0
common_prefix (suc n) (c ∷ a) (d ∷ b) =
    let rest = common_prefix n a b in if nat_eq c d then suc rest else 0

abbrev pub max_prefix : ℕ
max_prefix = 4

-- similarity + prefix * 0.1 * (1 - similarity)
unfoldable pub boost : ℕ → Ratio → Ratio
boost p s = record { num = 10 * s.num + p * (s.den - s.num); den = 10 * s.den }

unfoldable pub jaro_winkler : Text → Text → Ratio
unfolding boost
jaro_winkler a b = boost (common_prefix max_prefix a b) (jaro a b)

-- similarity >= percent / 100
abbrev pub at_least : ℕ → Ratio → Bool
at_least percent s = leb (percent * s.den) (100 * s.num)
