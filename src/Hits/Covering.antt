-- ===== src/Hits/Covering.antt =====
-- No active hit is lost or hidden by `dedupeFindings` of src/queue/dedupe-findings.ts.
use critiq_be.Prelude.{
  ℕ, ◌≡◌, refl, sym, ap, ◌∙◌, Bool, true, false, ◌&&◌, Option, none, some, List, [], ◌∷◌, ◌++◌,
  Text, text_eq, text_eq_iff, leb, anyb, map_get, map_get-map_set, Bool-cases, inl, inr, arith,
}
use critiq_be.Findings.{SuppressionReason, is_none}
use critiq_be.Hits.Dedupe.{
  LocatedHit, PreparedFinding, Span, HitGroup, hit_fingerprint, span_or, widen, add_hit, group_or,
  group_hit, group_hits, prepared, prepare_groups, dedupe_findings,
}

abbrev pub spans : LocatedHit → Option Span → Bool
spans h none = false
spans h (some s) = leb s.first h.line_start && leb h.line_end s.last

-- The finding is active, of this fingerprint, and its lines include the hit's.
abbrev pub covers : Text → LocatedHit → PreparedFinding → Bool
covers fp h f =
    text_eq f.fingerprint fp
    && (is_none f.suppressed_reason && (leb f.line_start h.line_start && leb h.line_end f.line_end))

abbrev pub group_covers : Text → LocatedHit → Option HitGroup → Bool
group_covers fp h none = false
group_covers fp h (some g) = text_eq g.fingerprint fp && spans h g.active

-- A group stands under its own fingerprint.
abbrev pub is_own : Text → Option HitGroup → Bool
is_own fp none = true
is_own fp (some g) = text_eq g.fingerprint fp

add_hit-fingerprint :
    (g : HitGroup) (h : LocatedHit) (r : Option SuppressionReason)
    → (add_hit g h r).fingerprint ≡ g.fingerprint
unfolding add_hit
add_hit-fingerprint g h none = refl
add_hit-fingerprint g h (some r) = refl

add_hit-spans :
    (g : HitGroup) (h x : LocatedHit) (r : Option SuppressionReason)
    → spans x g.active ≡ true
    → spans x (add_hit g h r).active ≡ true
unfolding add_hit
add_hit-spans g h x (some r) e = e
add_hit-spans g h x none e = widen-spans g.active e
  where
    widen-spans :
        (o : Option Span) → spans x o ≡ true → spans x (some (widen h (span_or h o))) ≡ true
    widen-spans none q = cc
    widen-spans (some s) q = ground (arith, q)

add_hit-own : (g : HitGroup) (h : LocatedHit) → spans h (add_hit g h none).active ≡ true
unfolding add_hit
add_hit-own g h = own g.active
  where
    own : (o : Option Span) → spans h (some (widen h (span_or h o))) ≡ true
    own none = ground arith
    own (some s) = ground arith

module _ (sha1 : Text → Text) (is_space : ℕ → Bool) where
  abbrev print : LocatedHit → Text
  print h = hit_fingerprint sha1 is_space h

  -- The group that a hit is added to, afterwards.
  abbrev grown : List (Text × HitGroup) → LocatedHit → HitGroup
  grown groups h = add_hit (group_or h (print h) (map_get (print h) groups)) h h.suppressed_reason

  map_get-group_hit-same :
      (groups : List (Text × HitGroup)) (h : LocatedHit) (k : Text)
      → text_eq (print h) k ≡ true
      → map_get k (group_hit sha1 is_space groups h) ≡ some (grown groups h)
  unfolding group_hit
  map_get-group_hit-same groups h k e =
      map_get-map_set (print h) k (grown groups h) groups ∙ rw e refl

  map_get-group_hit-other :
      (groups : List (Text × HitGroup)) (h : LocatedHit) (k : Text)
      → text_eq (print h) k ≡ false
      → map_get k (group_hit sha1 is_space groups h) ≡ map_get k groups
  unfolding group_hit
  map_get-group_hit-other groups h k e =
      map_get-map_set (print h) k (grown groups h) groups ∙ rw e refl

  group_or-fingerprint :
      (h : LocatedHit) (fp : Text) (o : Option HitGroup)
      → is_own fp o ≡ true
      → (group_or h fp o).fingerprint ≡ fp
  group_or-fingerprint h fp none e = refl
  group_or-fingerprint h fp (some g) e = (text_eq_iff g.fingerprint fp).0 e

  abbrev Owned : List (Text × HitGroup) → Type 0
  Owned groups = (k : Text) → is_own k (map_get k groups) ≡ true

  grown-fingerprint :
      (groups : List (Text × HitGroup)) (h : LocatedHit)
      → Owned groups
      → (grown groups h).fingerprint ≡ print h
  grown-fingerprint groups h own =
      add_hit-fingerprint (group_or h (print h) (map_get (print h) groups)) h h.suppressed_reason
      ∙ group_or-fingerprint h (print h) (map_get (print h) groups) (own (print h))

  group_hit-Owned :
      (groups : List (Text × HitGroup)) (h : LocatedHit)
      → Owned groups
      → Owned (group_hit sha1 is_space groups h)
  group_hit-Owned groups h own k = elim (Bool-cases (text_eq (print h) k)) [
    | inl e ↦
        ap (is_own k) (map_get-group_hit-same groups h k e)
        ∙ ap (λ t. text_eq t k) (grown-fingerprint groups h own)
        ∙ e
    | inr e ↦ ap (is_own k) (map_get-group_hit-other groups h k e) ∙ own k
  ]

  abbrev IsCovered : List (Text × HitGroup) → LocatedHit → Type 0
  IsCovered groups x = group_covers (print x) x (map_get (print x) groups) ≡ true

  both : (a b : Bool) → a ≡ true → b ≡ true → (a && b) ≡ true
  both true b e f = f
  both false b e f = e

  right : (a b : Bool) → (a && b) ≡ true → b ≡ true
  right true b e = e
  right false b e = cc

  covered-spans :
      (x h : LocatedHit) (fp : Text) (o : Option HitGroup)
      → group_covers fp x o ≡ true
      → spans x (group_or h fp o).active ≡ true
  covered-spans x h fp none e = cc
  covered-spans x h fp (some g) e = right (text_eq g.fingerprint fp) (spans x g.active) e

  -- A covered hit stays covered.
  group_hit-IsCovered :
      (groups : List (Text × HitGroup)) (h x : LocatedHit)
      → Owned groups
      → IsCovered groups x
      → IsCovered (group_hit sha1 is_space groups h) x
  group_hit-IsCovered groups h x own c = elim (Bool-cases (text_eq (print h) (print x))) [
    | inr e ↦ ap (group_covers (print x) x) (map_get-group_hit-other groups h (print x) e) ∙ c
    | inl e ↦
        let same : print h ≡ print x = (text_eq_iff (print h) (print x)).0 e in
        ap (group_covers (print x) x) (map_get-group_hit-same groups h (print x) e)
        ∙ both _ _ (ap (λ t. text_eq t (print x)) (grown-fingerprint groups h own) ∙ e) (
            add_hit-spans (group_or h (print h) (map_get (print h) groups)) h x h.suppressed_reason
              (covered-spans x h (print h) (map_get (print h) groups)
                (ap (λ k. group_covers k x (map_get k groups)) same ∙ c)))
  ]

  -- An active hit is covered once it is added.
  group_hit-own :
      (groups : List (Text × HitGroup)) (h : LocatedHit)
      → Owned groups
      → h.suppressed_reason ≡ none
      → IsCovered (group_hit sha1 is_space groups h) h
  group_hit-own groups h own a =
      let e : text_eq (print h) (print h) ≡ true = (text_eq_iff (print h) (print h)).1 refl in
      let g = group_or h (print h) (map_get (print h) groups) in
      ap (group_covers (print h) h) (map_get-group_hit-same groups h (print h) e)
      ∙ both _ _ (ap (λ t. text_eq t (print h)) (grown-fingerprint groups h own) ∙ e)
          (ap (λ r. spans h (add_hit g h r).active) a ∙ add_hit-own g h)

  group_hits-IsCovered :
      (groups : List (Text × HitGroup)) (hs : List LocatedHit) (x : LocatedHit)
      → Owned groups
      → IsCovered groups x
      → IsCovered (group_hits sha1 is_space groups hs) x
  unfolding group_hits
  group_hits-IsCovered groups [] x own c = c
  group_hits-IsCovered groups (h ∷ hs) x own c =
      group_hits-IsCovered (group_hit sha1 is_space groups h) hs x (group_hit-Owned groups h own)
        (group_hit-IsCovered groups h x own c)

  group_hits-own :
      (groups : List (Text × HitGroup)) (before after : List LocatedHit) (x : LocatedHit)
      → Owned groups
      → x.suppressed_reason ≡ none
      → IsCovered (group_hits sha1 is_space groups (before ++ x ∷ after)) x
  unfolding group_hits
  group_hits-own groups [] after x own a =
      group_hits-IsCovered (group_hit sha1 is_space groups x) after x (group_hit-Owned groups x own)
        (group_hit-own groups x own a)
  group_hits-own groups (h ∷ before) after x own a =
      group_hits-own (group_hit sha1 is_space groups h) before after x
        (group_hit-Owned groups h own) a

anyb-append-right :
    (p : PreparedFinding → Bool) (xs ys : List PreparedFinding)
    → anyb p ys ≡ true
    → anyb p (xs ++ ys) ≡ true
unfolding anyb
anyb-append-right p [] ys e = e
anyb-append-right p (x ∷ xs) ys e = ground (arith, anyb-append-right p xs ys e)

prepared-covers :
    (fp : Text) (x : LocatedHit) (g : HitGroup) (rest : List PreparedFinding)
    → group_covers fp x (some g) ≡ true
    → anyb (covers fp x) (prepared g g.active g.suppressed ++ rest) ≡ true
unfolding prepared anyb
prepared-covers fp x g rest e = of_span g.active e
  where
    of_span :
        (o : Option Span)
        → (text_eq g.fingerprint fp && spans x o) ≡ true
        → anyb (covers fp x) (prepared g o g.suppressed ++ rest) ≡ true
    of_span none q = ground (arith, q)
    of_span (some s) q = ground (arith, q)

module _ (fp k : Text) (g : HitGroup) (groups : List (Text × HitGroup)) where
  map_get_here : text_eq k fp ≡ true → map_get fp ((k, g) ∷ groups) ≡ some g
  unfolding map_get
  map_get_here e = rw e refl

  map_get_there : text_eq k fp ≡ false → map_get fp ((k, g) ∷ groups) ≡ map_get fp groups
  unfolding map_get
  map_get_there e = rw e refl

prepare_groups-covers :
    (fp : Text) (x : LocatedHit) (groups : List (Text × HitGroup))
    → group_covers fp x (map_get fp groups) ≡ true
    → anyb (covers fp x) (prepare_groups groups) ≡ true
unfolding prepare_groups
prepare_groups-covers fp x [] e = unfold map_get in cc
prepare_groups-covers fp x ((k, g) ∷ groups) e = elim (Bool-cases (text_eq k fp)) [
  | inl t ↦
      prepared-covers fp x g (prepare_groups groups)
        (ap (group_covers fp x) (sym (map_get_here fp k g groups t)) ∙ e)
  | inr f ↦
      anyb-append-right (covers fp x) (prepared g g.active g.suppressed) (prepare_groups groups) (
        prepare_groups-covers fp x groups
          (ap (group_covers fp x) (sym (map_get_there fp k g groups f)) ∙ e))
]

-- No active hit is lost, and none is hidden by a suppressed copy of it: for every hit that is not
-- suppressed, wherever it stands among the hits, `dedupeFindings` returns an active finding with the
-- hit's fingerprint whose lines include the hit's.
pub dedupe_findings-covers :
    (sha1 : Text → Text) (is_space : ℕ → Bool) (before after : List LocatedHit) (h : LocatedHit)
    → h.suppressed_reason ≡ none
    → anyb
        (covers (hit_fingerprint sha1 is_space h) h)
        (dedupe_findings sha1 is_space (before ++ h ∷ after))
      ≡ true
unfolding dedupe_findings
dedupe_findings-covers sha1 is_space before after h a =
    prepare_groups-covers (hit_fingerprint sha1 is_space h) h
      (group_hits sha1 is_space [] (before ++ h ∷ after))
      (group_hits-own sha1 is_space [] before after h (λ k. unfold map_get in refl) a)
