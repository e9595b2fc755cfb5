-- ===== src/Tests/Leaks.antt =====
-- src/queue/dedupe-findings.ts on two hits of one credential, one of them in a test.
use critiq_be.Prelude.{
  ℕ, ◌≡◌, refl, ◌++◌, true, none, some, [], ◌∷◌, Text, codes, anyb, nat_eq, Bool,
}
use critiq_be.Findings.{test_file}
use critiq_be.Hits.Dedupe.{LocatedHit, hit_fingerprint, dedupe_findings}
use critiq_be.Hits.Covering.{covers, dedupe_findings-covers}

abbrev leak : LocatedHit
leak = record {
  rule_id = codes "secret.aws";
  title = codes "AWS key";
  message = codes "An access key is written out.";
  file_path = codes ".env";
  line_start = 3;
  line_end = 3;
  snippet = some (codes "AKIA****");
  identity = some (record { key = codes "KEY"; value_prefix = codes "AKIA"; value_length = 20 });
  suppressed_reason = none;
}

abbrev copy : LocatedHit
copy = record leak { line_start = 9; line_end = 9; suppressed_reason = some test_file }

abbrev unhashed : Text → Text
unhashed t = t

abbrev is_space : ℕ → Bool
is_space c = nat_eq c 32

dedupe_findings-covers_example :
    anyb
      (covers (hit_fingerprint unhashed is_space leak) leak)
      (dedupe_findings unhashed is_space ((copy ∷ []) ++ leak ∷ copy ∷ []))
    ≡ true
dedupe_findings-covers_example =
    dedupe_findings-covers unhashed is_space (copy ∷ []) (copy ∷ []) leak refl
