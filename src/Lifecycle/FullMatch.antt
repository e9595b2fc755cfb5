-- ===== src/Lifecycle/FullMatch.antt =====
-- `matchFullAgainstBase` of src/queue/lifecycle/status-matcher.ts pairs candidates and base findings
-- by fingerprint, as many as there can be.
use critiq_be.Prelude.{
  ℕ, suc, ◌+◌, ◌≡◌, ◌⊎◌, refl, sym, ◌∙◌, ap, Bool, true, List, [], ◌∷◌, ◌++◌, Text, text_eq,
  text_eq_iff, arith, countb, countb-cons, countb-append, All-append, length, length-append, min,
  All, map_get, map_set, map_get-map_set, or_empty, flat_values, countb-map_set, Bool-cases, inl,
  inr, if◌then◌else◌,
}
use mathlib.Core.Path.{subst}
use critiq_be.Findings.{StoredFinding, CandidateFinding}
use critiq_be.Lifecycle.Matcher.{Continued, Pool, pool_from, match_from, match_full_against_base}

-- How many base findings of a fingerprint wait in the pool.
waiting : Text → Pool → ℕ
waiting fp pool = length (or_empty (map_get fp pool))

waiting-nil : (fp : Text) → waiting fp [] ≡ 0
unfolding waiting map_get
waiting-nil fp = refl

countb-nil : (q : StoredFinding → Bool) → countb q (flat_values []) ≡ 0
unfolding countb flat_values
countb-nil q = refl

waiting-map_set :
    (fp k : Text) (bs : List StoredFinding) (pool : Pool)
    → waiting fp (map_set k bs pool) ≡ (if text_eq k fp then length bs else waiting fp pool)
unfolding waiting
waiting-map_set fp k bs pool = rw (map_get-map_set k fp bs pool) (ground arith)

waiting_of_eq :
    (fp k : Text) (pool : Pool)
    → text_eq k fp ≡ true
    → waiting fp pool ≡ length (or_empty (map_get k pool))
unfolding waiting
waiting_of_eq fp k pool e =
    ap (λ t. length (or_empty (map_get t pool))) (sym ((text_eq_iff k fp).0 e))

waiting-pool_from :
    (fp : Text) (pool : Pool) (bs : List StoredFinding)
    → waiting fp (pool_from pool bs) ≡ waiting fp pool + countb (λ b. text_eq b.fingerprint fp) bs
unfolding pool_from countb
waiting-pool_from fp pool [] = omega arith
waiting-pool_from fp pool (b ∷ bs) =
    let old = or_empty (map_get b.fingerprint pool) in
    let next = map_set b.fingerprint (old ++ b ∷ []) pool in
    rw (waiting-pool_from fp next bs, waiting-map_set fp b.fingerprint (old ++ b ∷ []) pool)
      (elim (Bool-cases (text_eq b.fingerprint fp)) [
        | inl e ↦
            rw e (omega (arith, waiting_of_eq fp b.fingerprint pool e, length-append old (b ∷ [])))
        | inr e ↦ rw e (omega arith)
      ])

match_from_none :
    (pool : Pool) (c : CandidateFinding) (cs : List CandidateFinding)
    → or_empty (map_get c.fingerprint pool) ≡ []
    → match_from pool (c ∷ cs)
      ≡ record (match_from pool cs) { fresh = c ∷ (match_from pool cs).fresh }
unfolding match_from
match_from_none pool c cs e = rw (e, match_from)

match_from_some :
    (pool : Pool) (c : CandidateFinding) (cs : List CandidateFinding) (b : StoredFinding)
    (bs : List StoredFinding)
    → or_empty (map_get c.fingerprint pool) ≡ b ∷ bs
    → let r = match_from (map_set c.fingerprint bs pool) cs in
      match_from pool (c ∷ cs)
      ≡ record r { persisted = record { candidate = c; base = b } ∷ r.persisted }
unfolding match_from
match_from_some pool c cs b bs e = rw (e, match_from)

List-cases :
    (xs : List StoredFinding)
    → (xs ≡ []) ⊎ ((b : StoredFinding) × (bs : List StoredFinding) × (xs ≡ b ∷ bs))
List-cases [] = inl refl
List-cases (b ∷ bs) = inr (b, bs, refl)

match_from-persisted :
    (fp : Text) (pool : Pool) (cs : List CandidateFinding)
    → countb (λ x. text_eq x.candidate.fingerprint fp) (match_from pool cs).persisted
      ≡ min (countb (λ c. text_eq c.fingerprint fp) cs) (waiting fp pool)
unfolding countb
match_from-persisted fp pool [] = unfold match_from in omega arith
match_from-persisted fp pool (c ∷ cs) = elim (List-cases (or_empty (map_get c.fingerprint pool))) [
  | inl e ↦
      rw (match_from_none pool c cs e, match_from-persisted fp pool cs)
        (elim (Bool-cases (text_eq c.fingerprint fp)) [
          | inl h ↦
              let empty : waiting fp pool ≡ 0 =
                waiting_of_eq fp c.fingerprint pool h ∙ ap length e in
              rw h (omega arith)
          | inr h ↦ rw h (omega arith)
        ])
  | inr (b, bs, e) ↦
      rw
        (
          match_from_some pool c cs b bs e,
          match_from-persisted fp (map_set c.fingerprint bs pool) cs,
          waiting-map_set fp c.fingerprint bs pool,
        )
        (elim (Bool-cases (text_eq c.fingerprint fp)) [
          | inl h ↦
              let more : waiting fp pool ≡ suc (length bs) =
                waiting_of_eq fp c.fingerprint pool h ∙ ap length e in
              rw h (omega arith)
          | inr h ↦ rw h (omega arith)
        ])
]

-- No candidate and no base finding is lost or counted twice.
match_from-candidates :
    (q : CandidateFinding → Bool) (pool : Pool) (cs : List CandidateFinding)
    → countb (λ x. q x.candidate) (match_from pool cs).persisted
        + countb q (match_from pool cs).fresh
      ≡ countb q cs
unfolding countb
match_from-candidates q pool [] = unfold match_from in omega arith
match_from-candidates q pool (c ∷ cs) = elim (List-cases (or_empty (map_get c.fingerprint pool))) [
  | inl e ↦ rw (match_from_none pool c cs e) (omega (arith, match_from-candidates q pool cs))
  | inr (b, bs, e) ↦
      rw (match_from_some pool c cs b bs e)
        (omega (arith, match_from-candidates q (map_set c.fingerprint bs pool) cs))
]

match_from-base :
    (q : StoredFinding → Bool) (pool : Pool) (cs : List CandidateFinding)
    → countb (λ x. q x.base) (match_from pool cs).persisted + countb q (match_from pool cs).resolved
      ≡ countb q (flat_values pool)
unfolding countb
match_from-base q pool [] = unfold match_from in omega arith
match_from-base q pool (c ∷ cs) = elim (List-cases (or_empty (map_get c.fingerprint pool))) [
  | inl e ↦ rw (match_from_none pool c cs e) (match_from-base q pool cs)
  | inr (b, bs, e) ↦
      let pool' = map_set c.fingerprint bs pool in
      let r = match_from pool' cs in
      rw (match_from_some pool c cs b bs e) (
        omega (
          arith,
          match_from-base q pool' cs,
          countb-map_set q c.fingerprint bs pool,
          ap (countb q) e,
          countb-cons q b bs,
          countb-cons (λ x. q x.base) (record { candidate = c; base = b }) r.persisted,
        ))
]

flat_values-pool_from :
    (q : StoredFinding → Bool) (pool : Pool) (bs : List StoredFinding)
    → countb q (flat_values (pool_from pool bs)) ≡ countb q (flat_values pool) + countb q bs
unfolding pool_from
flat_values-pool_from q pool [] = unfold countb in omega arith
flat_values-pool_from q pool (b ∷ bs) =
    let old = or_empty (map_get b.fingerprint pool) in
    let next = map_set b.fingerprint (old ++ b ∷ []) pool in
    omega (
      arith,
      flat_values-pool_from q next bs,
      countb-map_set q b.fingerprint (old ++ b ∷ []) pool,
      countb-append q old (b ∷ []),
      countb-cons q b bs,
    )

-- Every base finding that waits under a fingerprint has that fingerprint.
abbrev IsKeyed : Pool → Type 0
IsKeyed pool = All (λ e. All (λ b. b.fingerprint ≡ e.0) e.1) pool

map_get-IsKeyed :
    (k : Text) (pool : Pool)
    → IsKeyed pool
    → All (λ b. b.fingerprint ≡ k) (or_empty (map_get k pool))
unfolding map_get
map_get-IsKeyed k [] h = tt
map_get-IsKeyed k ((j, bs) ∷ pool) (p, h) = elim (Bool-cases (text_eq j k)) [
  | inl e ↦ rw e (subst (λ t. All (λ b. b.fingerprint ≡ t) bs) ((text_eq_iff j k).0 e) p)
  | inr e ↦ rw e (map_get-IsKeyed k pool h)
]

map_set-IsKeyed :
    (k : Text) (bs : List StoredFinding) (pool : Pool)
    → All (λ b. b.fingerprint ≡ k) bs
    → IsKeyed pool
    → IsKeyed (map_set k bs pool)
unfolding map_set
map_set-IsKeyed k bs [] p h = (p, tt)
map_set-IsKeyed k bs ((j, cs) ∷ pool) p (p', h) = elim (Bool-cases (text_eq j k)) [
  | inl e ↦ rw e (subst (λ t. All (λ b. b.fingerprint ≡ t) bs) (sym ((text_eq_iff j k).0 e)) p, h)
  | inr e ↦ rw e (p', map_set-IsKeyed k bs pool p h)
]

pool_from-IsKeyed :
    (pool : Pool) (bs : List StoredFinding) → IsKeyed pool → IsKeyed (pool_from pool bs)
unfolding pool_from
pool_from-IsKeyed pool [] h = h
pool_from-IsKeyed pool (b ∷ bs) h =
    let old = or_empty (map_get b.fingerprint pool) in
    let keyed =
      All-append (λ x. x.fingerprint ≡ b.fingerprint) old (b ∷ [])
        (map_get-IsKeyed b.fingerprint pool h) (refl, tt) in
    pool_from-IsKeyed (map_set b.fingerprint (old ++ b ∷ []) pool) bs
      (map_set-IsKeyed b.fingerprint (old ++ b ∷ []) pool keyed h)

abbrev pub SameFingerprint : Continued → Type 0
SameFingerprint x = x.base.fingerprint ≡ x.candidate.fingerprint

match_from-SameFingerprint :
    (pool : Pool) (cs : List CandidateFinding)
    → IsKeyed pool
    → All SameFingerprint (match_from pool cs).persisted
match_from-SameFingerprint pool [] h = unfold match_from in tt
match_from-SameFingerprint pool (c ∷ cs) h =
    elim (List-cases (or_empty (map_get c.fingerprint pool))) [
      | inl e ↦ rw (match_from_none pool c cs e) (match_from-SameFingerprint pool cs h)
      | inr (b, bs, e) ↦
          let here =
            subst (λ t. All (λ b. b.fingerprint ≡ c.fingerprint) t) e
              (map_get-IsKeyed c.fingerprint pool h) in
          rw (match_from_some pool c cs b bs e) (
            here.0,
            match_from-SameFingerprint (map_set c.fingerprint bs pool) cs
                (map_set-IsKeyed c.fingerprint bs pool here.1 h),
          )
    ]

-- A full scan continues base findings by fingerprint: a candidate continues a base finding of its own
-- fingerprint, and of each fingerprint `fp` as many pairs are made as there are candidates and base
-- findings for. Every candidate continues one or is fresh, every base finding is continued or
-- resolved, and none is counted twice (of those that pass any test).
pub match_full_against_base_lem :
    (cs : List CandidateFinding) (base : List StoredFinding)
    → let r = match_full_against_base cs base in
      All SameFingerprint r.persisted
      × ((fp : Text)
          → countb (λ x. text_eq x.candidate.fingerprint fp) r.persisted
            ≡ min
                (countb (λ c. text_eq c.fingerprint fp) cs)
                (countb (λ b. text_eq b.fingerprint fp) base))
      × ((q : CandidateFinding → Bool)
          → countb (λ x. q x.candidate) r.persisted + countb q r.fresh ≡ countb q cs)
      × ((q : StoredFinding → Bool)
          → countb (λ x. q x.base) r.persisted + countb q r.resolved ≡ countb q base)
unfolding match_full_against_base
match_full_against_base_lem cs base =
    let pool = pool_from [] base in
    (
      match_from-SameFingerprint pool cs (pool_from-IsKeyed [] base tt),
      λ fp.
          omega
            (arith, match_from-persisted fp pool cs, waiting-pool_from fp [] base, waiting-nil fp),
      λ q. match_from-candidates q pool cs,
      λ q. omega (arith, match_from-base q pool cs, flat_values-pool_from q [] base, countb-nil q),
    )
