-- ===== src/Ai/Folded.antt =====
-- What `mergeAiFindings` of src/modules/ai/scan/ai-deduper.ts keeps.
use critiq_be.Prelude.{◌≡◌, Option, none, some, List, length, All, pos, ◌-ℤ◌, ◌≤ℤ◌}
use critiq_be.Ai.Validator.{AiFindingDraft}
use critiq_be.Ai.Folding.{max_merged_range, KeptAiFinding}

-- No more lines than a reported finding may have.
abbrev pub IsNarrow : AiFindingDraft → Type 0
IsNarrow f = f.line_end -ℤ f.line_start ≤ℤ pos max_merged_range

abbrev pub AllNarrow : List KeptAiFinding → Type 0
AllNarrow ks = All (λ k. IsNarrow k.draft) ks

-- What folding a finding into the kept ones leaves of their number and ranges.
abbrev pub Folds : List KeptAiFinding → Option (List KeptAiFinding) → Type 0
Folds ks none = Unit
Folds ks (some ks') = (length ks' ≡ length ks) × AllNarrow ks'
