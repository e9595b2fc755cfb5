-- ===== src/Ai/Folding.antt =====
-- `mergeAiFindings` of src/modules/ai/scan/ai-deduper.ts: one finding for each root cause. `sha1` is
-- the hash of Node's crypto module.
use critiq_be.Prelude.{
  ℕ, ◌+◌, Bool, ◌&&◌, ◌||◌, Option, none, some, List, [], ◌∷◌, ◌++◌, Text, codes, text_eq, leb, ℤ,
  pos, ◌-ℤ◌, leb_ℤ, if◌then◌else◌,
}
use critiq_be.Findings.{
  FindingCategory, secret, injection, insecure_tls, error_handling, performance, logic, auth,
  concurrency, data_loss, config, other, crash, breaking_change, same_category,
}
use critiq_be.Similarity.{trim, jaro_winkler, at_least}
use critiq_be.Ai.Validator.{Words, AiFindingDraft, hedges, strip_word}

abbrev pub max_merged_range : ℕ
max_merged_range = 40

-- Per cent.
abbrev pub similar_title : ℕ
similar_title = 85

-- A kept finding, with its fingerprint.
pub record KeptAiFinding : Type 0 where
  pub draft : AiFindingDraft
  pub fingerprint : Text

-- `\s+` behind a hedge: at least one, and all of them.
unfoldable pub drop_spaces : (ℕ → Bool) → Text → Text
drop_spaces is_space [] = []
drop_spaces is_space (c ∷ s) =
    let rest = drop_spaces is_space s in if is_space c then rest else c ∷ s

abbrev pub behind_space : (ℕ → Bool) → Option Text → Option Text
behind_space is_space none = none
behind_space is_space (some []) = none
behind_space is_space (some (c ∷ s)) =
    let rest = drop_spaces is_space s in if is_space c then some rest else none

abbrev pub or_next : Option Text → Text → Text
or_next none next = next
or_next (some t) next = t

-- `.replace(HEDGE_PREFIX, '')`: the first hedge that white space follows.
unfoldable pub strip_hedge : (ℕ → Bool) → List Text → Text → Text
unfolding strip_word drop_spaces
strip_hedge is_space [] title = title
strip_hedge is_space (word ∷ words) title =
    or_next (behind_space is_space (strip_word word title)) (strip_hedge is_space words title)

unfoldable pub normalize_ai_title : Words → Text → Text
normalize_ai_title w title =
    trim w.is_space
      (w.words_only (w.to_lower (strip_hedge w.is_space hedges (trim w.is_space title))))

abbrev pub category_name : FindingCategory → Text
category_name secret = codes "SECRET"
category_name injection = codes "INJECTION"
category_name insecure_tls = codes "INSECURE_TLS"
category_name error_handling = codes "ERROR_HANDLING"
category_name performance = codes "PERFORMANCE"
category_name logic = codes "LOGIC"
category_name auth = codes "AUTH"
category_name concurrency = codes "CONCURRENCY"
category_name data_loss = codes "DATA_LOSS"
category_name config = codes "CONFIG"
category_name other = codes "OTHER"
category_name crash = codes "CRASH"
category_name breaking_change = codes "BREAKING_CHANGE"

unfoldable pub ai_fingerprint : (Text → Text) → Words → AiFindingDraft → Text
ai_fingerprint sha1 w f = sha1 (
    codes "ai|"
    ++ (f.file_path
        ++ (codes "|"
            ++ (category_name f.category ++ (codes "|" ++ normalize_ai_title w f.title)))))

-- `sort((a, b) => b.confidence - a.confidence)`, which is stable.
unfoldable pub insert_confident : AiFindingDraft → List AiFindingDraft → List AiFindingDraft
insert_confident f [] = f ∷ []
insert_confident f (g ∷ gs) =
    let rest = insert_confident f gs in
    if leb g.confidence f.confidence then f ∷ g ∷ gs else g ∷ rest

unfoldable pub by_confidence : List AiFindingDraft → List AiFindingDraft
unfolding insert_confident
by_confidence [] = []
by_confidence (f ∷ fs) = insert_confident f (by_confidence fs)

unfoldable pub min_ℤ : ℤ → ℤ → ℤ
min_ℤ a b = if leb_ℤ a b then a else b

unfoldable pub max_ℤ : ℤ → ℤ → ℤ
max_ℤ a b = if leb_ℤ a b then b else a

-- `range(kept)`
unfoldable pub merged_range : AiFindingDraft → AiFindingDraft → ℤ
merged_range kept f = max_ℤ kept.line_end f.line_end -ℤ min_ℤ kept.line_start f.line_start

abbrev pub fits : AiFindingDraft → AiFindingDraft → Bool
fits kept f = leb_ℤ (merged_range kept f) (pos max_merged_range)

abbrev pub widened : AiFindingDraft → AiFindingDraft → AiFindingDraft
widened kept f = record kept {
  line_start = min_ℤ kept.line_start f.line_start;
  line_end = max_ℤ kept.line_end f.line_end;
}

unfoldable pub fold_into : KeptAiFinding → AiFindingDraft → KeptAiFinding
fold_into k f = if fits k.draft f then record k { draft = widened k.draft f } else k

module _ (sha1 : Text → Text) (w : Words) where
  unfoldable pub is_same_cause : KeptAiFinding → AiFindingDraft → Bool
  is_same_cause k f =
      text_eq k.fingerprint (ai_fingerprint sha1 w f)
      || (text_eq k.draft.file_path f.file_path
          && (same_category k.draft.category f.category
              && (fits k.draft f
                  && at_least similar_title (
                      jaro_winkler (normalize_ai_title w k.draft.title)
                        (normalize_ai_title w f.title)))))

  -- The first kept finding with the same cause takes the finding in.
  unfoldable pub fold_first : List KeptAiFinding → AiFindingDraft → Option (List KeptAiFinding)
  fold_first [] f = none
  fold_first (k ∷ ks) f =
      let rest = fold_first ks f in
      if is_same_cause k f
      then some (fold_into k f ∷ ks)
      else elim rest [ none ↦ none | some ks' ↦ some (k ∷ ks') ]

  -- One round of the loop, and the loop: what is kept, and how many were folded.
  abbrev pub fold_round :
      List KeptAiFinding → AiFindingDraft → Option (List KeptAiFinding) → List KeptAiFinding
  fold_round ks f none = ks ++ record { draft = f; fingerprint = ai_fingerprint sha1 w f } ∷ []
  fold_round ks f (some ks') = ks'

  abbrev pub folded_by {ℓ} : {A : Type ℓ} → Option A → ℕ
  folded_by none = 0
  folded_by (some a) = 1

  unfoldable pub fold_findings : List KeptAiFinding → List AiFindingDraft → List KeptAiFinding × ℕ
  fold_findings ks [] = (ks, 0)
  fold_findings ks (f ∷ fs) =
      let into = fold_first ks f in
      let (kept, folded) = fold_findings (fold_round ks f into) fs in
      (kept, folded_by into + folded)

  unfoldable pub merge_ai_findings : List AiFindingDraft → List KeptAiFinding × ℕ
  merge_ai_findings findings = fold_findings [] (by_confidence findings)
