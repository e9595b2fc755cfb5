-- ===== src/Hits/Dedupe.antt =====
-- src/queue/dedupe-findings.ts: one finding for each distinct issue that the rules hit.
-- `sha1` is the hash of Node's crypto module, and `is_space` is `\s`.
use critiq_be.Prelude.{
  ℕ, suc, Bool, false, Option, none, some, List, [], ◌∷◌, ◌++◌, Text, codes, starts_with, min, max,
  ltb, map_get, map_set, if◌then◌else◌,
}
use critiq_be.Findings.{SuppressionReason}
use critiq_be.Similarity.{trim, collapse}
use critiq_be.Diff.Render.{decimal}

pub record Identity : Type 0 where
  pub key : Text
  pub value_prefix : Text
  pub value_length : ℕ

pub record LocatedHit : Type 0 where
  pub rule_id : Text
  pub title : Text
  pub message : Text
  pub file_path : Text
  pub line_start : ℕ
  pub line_end : ℕ
  pub snippet : Option Text
  pub identity : Option Identity
  pub suppressed_reason : Option SuppressionReason

pub record PreparedFinding : Type 0 where
  pub rule_id : Text
  pub title : Text
  pub message : Text
  pub file_path : Text
  pub line_start : ℕ
  pub line_end : ℕ
  pub snippet : Option Text
  pub fingerprint : Text
  pub suppressed_reason : Option SuppressionReason

pub record Span : Type 0 where
  pub first : ℕ
  pub last : ℕ
  pub count : ℕ

pub record SuppressedSpan : Type 0 where
  pub span : Span
  pub reason : SuppressionReason

pub record HitGroup : Type 0 where
  pub base : LocatedHit
  pub fingerprint : Text
  pub active : Option Span
  pub suppressed : Option SuppressedSpan

abbrev pub line_key : LocatedHit → Text
line_key h = codes "line:" ++ decimal h.line_start

unfoldable pub snippet_key : (ℕ → Bool) → LocatedHit → Option Text → Text
snippet_key is_space h none = line_key h
snippet_key is_space h (some t) =
    if starts_with (codes "secret.") h.rule_id
    then line_key h
    else collapse is_space false (trim is_space t)

unfoldable pub hit_key : (ℕ → Bool) → LocatedHit → Option Identity → Text
hit_key is_space h none = snippet_key is_space h h.snippet
hit_key is_space h (some i) =
    codes "id:"
    ++ (i.key ++ (codes ":" ++ (i.value_prefix ++ (codes ":" ++ decimal i.value_length))))

unfoldable pub hit_fingerprint : (Text → Text) → (ℕ → Bool) → LocatedHit → Text
hit_fingerprint sha1 is_space h =
    sha1 (h.rule_id ++ (0 ∷ (h.file_path ++ (0 ∷ hit_key is_space h h.identity))))

-- `{ lineStart, lineEnd, count: 0 }` for the first hit.
abbrev pub span_or : LocatedHit → Option Span → Span
span_or h none = record { first = h.line_start; last = h.line_end; count = 0 }
span_or h (some s) = s

abbrev pub widen : LocatedHit → Span → Span
widen h s = record {
  first = min s.first h.line_start;
  last = max s.last h.line_end;
  count = suc s.count;
}

-- The first active hit is the base of its group.
abbrev pub base_of : LocatedHit → LocatedHit → Option Span → LocatedHit
base_of h base none = h
base_of h base (some s) = base

abbrev pub suppressed_or : LocatedHit → SuppressionReason → Option SuppressedSpan → SuppressedSpan
suppressed_or h reason none = record { span = span_or h none; reason = reason }
suppressed_or h reason (some s) = s

unfoldable pub add_hit : HitGroup → LocatedHit → Option SuppressionReason → HitGroup
add_hit g h none = record g {
  base = base_of h g.base g.active;
  active = some (widen h (span_or h g.active));
}
add_hit g h (some reason) =
    let s = suppressed_or h reason g.suppressed in
    record g { suppressed = some (record s { span = widen h s.span }) }

abbrev pub group_or : LocatedHit → Text → Option HitGroup → HitGroup
group_or h fp none = record { base = h; fingerprint = fp; active = none; suppressed = none }
group_or h fp (some g) = g

-- One round of the first loop.
unfoldable pub group_hit :
    (Text → Text) → (ℕ → Bool) → List (Text × HitGroup) → LocatedHit → List (Text × HitGroup)
group_hit sha1 is_space groups h =
    let fp = hit_fingerprint sha1 is_space h in
    map_set fp (add_hit (group_or h fp (map_get fp groups)) h h.suppressed_reason) groups

unfoldable pub group_hits :
    (Text → Text) → (ℕ → Bool) → List (Text × HitGroup) → List LocatedHit → List (Text × HitGroup)
group_hits sha1 is_space groups [] = groups
group_hits sha1 is_space groups (h ∷ hs) =
    group_hits sha1 is_space (group_hit sha1 is_space groups h) hs

abbrev pub counted_message : Text → ℕ → Text
counted_message message n =
    if ltb 1 n then message ++ (codes " (muncul di " ++ (decimal n ++ codes " baris)")) else message

abbrev pub finding_of : HitGroup → Span → Option SuppressionReason → PreparedFinding
finding_of g kept reason = record {
  rule_id = g.base.rule_id;
  title = g.base.title;
  message = counted_message g.base.message kept.count;
  file_path = g.base.file_path;
  line_start = kept.first;
  line_end = kept.last;
  snippet = g.base.snippet;
  fingerprint = g.fingerprint;
  suppressed_reason = reason;
}

-- `group.active ?? group.suppressed`
unfoldable pub prepared : HitGroup → Option Span → Option SuppressedSpan → List PreparedFinding
prepared g (some s) suppressed = finding_of g s none ∷ []
prepared g none (some s) = finding_of g s.span (some s.reason) ∷ []
prepared g none none = []

unfoldable pub prepare_groups : List (Text × HitGroup) → List PreparedFinding
unfolding prepared
prepare_groups [] = []
prepare_groups ((k, g) ∷ groups) = prepared g g.active g.suppressed ++ prepare_groups groups

unfoldable pub dedupe_findings : (Text → Text) → (ℕ → Bool) → List LocatedHit → List PreparedFinding
dedupe_findings sha1 is_space hits = prepare_groups (group_hits sha1 is_space [] hits)
