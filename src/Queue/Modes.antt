-- ===== src/Queue/Modes.antt =====
-- `decideScanMode` of src/queue/scan-queue.service.ts: when a scan is incremental.
use mathlib.Core.Option
use mathlib.Core.Bool.{and-false, and-true}
use critiq_be.Prelude.{
  ◌≡◌, refl, sym, ap, ◌∙◌, Bool, true, false, not, ◌&&◌, ◌||◌, ◌⊎◌, inl, inr, Option, none, some,
  Text, text_eq, text_eq_iff, Bool-cases, ◌↔◌, neither_true, none-not-some, true-not-false,
}
use critiq_be.Ai.Tiers.{same_tiers}
use critiq_be.Reviews.Types.{
  AiScanStatus, skipped_too_large, budget_exceeded, ReviewPolicy, manual_only, allow_ai,
  require_both,
}
use critiq_be.Queue.Mode.{
  DiffMode, full, incremental, BaseScan, ScanModeInput, is_ai_skip, is_manual_only, is_other,
  is_locale_changed, is_prompt_changed, lacks_review, incremental_decision, mode_on, mode_from,
  decide_scan_mode,
}

not-false : (b : Bool) → not b ≡ false → b ≡ true
not-false true h = refl
not-false false h = cc

is_other-false :
    (o : Option Text) (now : Text) → (is_other o now ≡ false) ↔ ((o ≡ none) ⊎ (o ≡ some now))
is_other-false none now = (λ h. inl refl, λ h. refl)
is_other-false (some old) now = (
  λ h. inr (ap some ((text_eq_iff old now).0 (not-false (text_eq old now) h))),
  λ h. elim h [
    | inl e ↦ absurd (none-not-some old (sym e))
    | inr e ↦ rw ((text_eq_iff old now).1 (Option.some-injective old now e)) refl
  ],
)

is_locale_changed-false :
    (o now : Option Text)
    → (is_locale_changed o now ≡ false) ↔ ((now ≡ none) ⊎ ((o ≡ none) ⊎ (o ≡ now)))
is_locale_changed-false o none = (λ h. inl refl, λ h. refl)
is_locale_changed-false o (some now) = (
  λ h. inr ((is_other-false o now).0 h),
  λ h. elim h [ inl e ↦ absurd (none-not-some now (sym e)) | inr e ↦ (is_other-false o now).1 e ],
)

is_manual_only-true : (p : Option ReviewPolicy) → (is_manual_only p ≡ true) ↔ (p ≡ some manual_only)
is_manual_only-true none = (λ h. cc, λ h. cc)
is_manual_only-true (some manual_only) = (λ h. refl, λ h. refl)
is_manual_only-true (some allow_ai) = (λ h. cc, λ h. cc)
is_manual_only-true (some require_both) = (λ h. cc, λ h. cc)

is_ai_skip-true :
    (o : Option AiScanStatus)
    → is_ai_skip o ≡ true
    → (o ≡ some skipped_too_large) ⊎ (o ≡ some budget_exceeded)
is_ai_skip-true (some skipped_too_large) h = inl refl
is_ai_skip-true (some budget_exceeded) h = inr refl
is_ai_skip-true _ h = cc

both_false {ℓ κ} :
    {P : Type ℓ} {Q : Type κ} (a b : Bool)
    → ((a ≡ false) ↔ P)
    → ((b ≡ false) ↔ Q)
    → ((a || b) ≡ false) ↔ (P × Q)
both_false a b f g =
    (λ h. let (x, y) = neither_true a b h in (f.0 x, g.0 y), λ h. rw (f.1 h.0, g.1 h.1) refl)

module _ {ℓ} {P : Type ℓ} where
  not_both : (a b : Bool) → ((b ≡ false) ↔ P) → ((a && b) ≡ false) ↔ ((a ≡ false) ⊎ P)
  not_both true b f = (λ h. inr (f.0 h), λ h. elim h [ inl e ↦ cc | inr p ↦ f.1 p ])
  not_both false b f = (λ h. inl refl, λ h. refl)

  or_manual :
      (p : Option ReviewPolicy) (b : Bool)
      → ((b ≡ false) ↔ P)
      → ((b && not (is_manual_only p)) ≡ false) ↔ (P ⊎ (p ≡ some manual_only))
  or_manual p b f = elim (Bool-cases (is_manual_only p)) [
    | inl e ↦ (λ h. inr ((is_manual_only-true p).0 e), λ h. rw (e, and-false b) refl)
    | inr e ↦ (
      λ h. inl (f.0 (sym (and-true b) ∙ sym (rw (e) refl) ∙ h)),
      λ h. elim h [
        | inl x ↦ rw (f.1 x) refl
        | inr x ↦ absurd (true-not-false (is_manual_only p) ((is_manual_only-true p).1 x) e)
      ],
    )
  ]

  manual_or :
      (p : Option ReviewPolicy) (b : Bool)
      → ((b ≡ false) ↔ P)
      → ((not (is_manual_only p) && b) ≡ false) ↔ ((p ≡ some manual_only) ⊎ P)
  manual_or p b f = elim (Bool-cases (is_manual_only p)) [
    | inl e ↦ (λ h. inl ((is_manual_only-true p).0 e), λ h. rw (e) refl)
    | inr e ↦ (
      λ h. inr (f.0 (sym (rw (e) refl) ∙ h)),
      λ h. elim h [
        | inl x ↦ absurd (true-not-false (is_manual_only p) ((is_manual_only-true p).1 x) e)
        | inr x ↦ rw (e) (f.1 x)
      ],
    )
  ]

reviewed_or_skipped :
    (reviewed : Bool) (o : Option AiScanStatus)
    → ((not reviewed && not (is_ai_skip o)) ≡ false)
      ↔ ((reviewed ≡ true) ⊎ ((o ≡ some skipped_too_large) ⊎ (o ≡ some budget_exceeded)))
reviewed_or_skipped true o = (λ h. inl refl, λ h. refl)
reviewed_or_skipped false o = (
  λ h. inr (is_ai_skip-true o (not-false (is_ai_skip o) h)),
  λ h. elim h [ inl e ↦ cc | inr (inl e) ↦ rw (e) refl | inr (inr e) ↦ rw (e) refl ],
)

module _ (ruleset_version prompt_version : Text) where
  -- Nothing that the base was asked with has another prompt or language than now.
  abbrev pub KeepsPrompt : ScanModeInput → BaseScan → Type 0
  KeepsPrompt input base =
      ((base.ai_prompt_version ≡ none) ⊎ (base.ai_prompt_version ≡ some prompt_version))
      × ((input.locale ≡ none) ⊎ ((base.ai_locale ≡ none) ⊎ (base.ai_locale ≡ input.locale)))

  abbrev pub IsManual : ScanModeInput → Type 0
  IsManual input = input.effective_policy ≡ some manual_only

  -- The base has what a review of only the push continues.
  abbrev pub HasReview : BaseScan → Type 0
  HasReview base =
      (base.ai_reviewed ≡ true)
      ⊎ ((base.ai_status ≡ some skipped_too_large) ⊎ (base.ai_status ≡ some budget_exceeded))

  -- What must hold of the base and the request for a scan of only what was pushed.
  abbrev pub IsDelta : ScanModeInput → BaseScan → Type 0
  IsDelta input base =
      (input.base ≡ some base)
      × (input.full ≡ false)
      × (base.ruleset_version ≡ ruleset_version)
      × (same_tiers base.rule_tiers input.rule_tiers ≡ true)
      × (KeepsPrompt input base ⊎ IsManual input)
      × ((input.ai_enabled ≡ false) ⊎ (IsManual input ⊎ HasReview base))

  is_prompt_changed-false :
      (input : ScanModeInput) (base : BaseScan)
      → (is_prompt_changed ruleset_version prompt_version input base ≡ false)
        ↔ (KeepsPrompt input base ⊎ IsManual input)
  is_prompt_changed-false input base =
      or_manual input.effective_policy
        (is_other base.ai_prompt_version prompt_version
          || is_locale_changed base.ai_locale input.locale)
        (both_false (is_other base.ai_prompt_version prompt_version)
          (is_locale_changed base.ai_locale input.locale)
          (is_other-false base.ai_prompt_version prompt_version)
          (is_locale_changed-false base.ai_locale input.locale))

  lacks_review-false :
      (input : ScanModeInput) (base : BaseScan)
      → (lacks_review ruleset_version prompt_version input base ≡ false)
        ↔ ((input.ai_enabled ≡ false) ⊎ (IsManual input ⊎ HasReview base))
  lacks_review-false input base =
      not_both input.ai_enabled
        (not (is_manual_only input.effective_policy)
          && (not base.ai_reviewed && not (is_ai_skip base.ai_status)))
        (manual_or input.effective_policy (not base.ai_reviewed && not (is_ai_skip base.ai_status))
          (reviewed_or_skipped base.ai_reviewed base.ai_status))

  decide_on :
      (input : ScanModeInput) (base : BaseScan)
      → input.base ≡ some base
      → ((mode_on ruleset_version prompt_version input base).diff_mode ≡ full)
        ⊎ ((mode_on ruleset_version prompt_version input base ≡ incremental_decision base)
            × IsDelta input base)
  decide_on input base e = elim (Bool-cases input.full) [
    | inl f ↦ inl (rw f refl)
    | inr f ↦ elim (Bool-cases (text_eq base.ruleset_version ruleset_version)) [
      | inr r ↦ inl (rw (f, r) refl)
      | inl r ↦ elim (Bool-cases (same_tiers base.rule_tiers input.rule_tiers)) [
        | inr t ↦ inl (rw (f, r, t) refl)
        | inl t ↦ elim (Bool-cases (is_prompt_changed ruleset_version prompt_version input base)) [
          | inl p ↦ inl (rw (f, r, t, p) refl)
          | inr p ↦ elim (Bool-cases (lacks_review ruleset_version prompt_version input base)) [
            | inl l ↦ inl (rw (f, r, t, p, l) refl)
            | inr l ↦ inr (
              rw (f, r, t, p, l) refl,
              (
                e,
                f,
                (text_eq_iff base.ruleset_version ruleset_version).0 r,
                t,
                (is_prompt_changed-false input base).0 p,
                (lacks_review-false input base).0 l,
              ),
            )
          ]
        ]
      ]
    ]
  ]

  full-not-incremental : (m : DiffMode) → m ≡ full → ¬ (m ≡ incremental)
  full-not-incremental m e h = cc

  mode_on-IsDelta :
      (input : ScanModeInput) (base : BaseScan)
      → IsDelta input base
      → mode_on ruleset_version prompt_version input base ≡ incremental_decision base
  mode_on-IsDelta input base (e, f, r, t, p, l) =
      rw
        (
          f,
          (text_eq_iff base.ruleset_version ruleset_version).1 r,
          t,
          (is_prompt_changed-false input base).1 p,
          (lacks_review-false input base).1 l,
        )
        refl

  decided_on :
      (input : ScanModeInput) (o : Option BaseScan)
      → input.base ≡ o
      → (mode_from ruleset_version prompt_version input o).diff_mode ≡ incremental
      → (base : BaseScan) × IsDelta input base
        × ((mode_from ruleset_version prompt_version input o).base_scan_id ≡ some base.id)
        × ((mode_from ruleset_version prompt_version input o).prev_head_sha ≡ some base.head_sha)
  decided_on input none e h = cc
  decided_on input (some base) e h = elim (decide_on input base e) [
    | inl f ↦
        absurd
          (full-not-incremental (mode_on ruleset_version prompt_version input base).diff_mode f h)
    | inr (d, delta) ↦ (base, delta, rw d refl, rw d refl)
  ]

  -- A scan is incremental exactly when the pull request has a finished scan, a full one was not
  -- asked for, that scan ran under the same rules and the same enabled tiers, the prompt and its
  -- language did not change or the branch is manual-only, and the AI that would review it had
  -- reviewed the base, or skipped it for its size or for the budget, or will not review this one.
  -- It then continues that scan, from its head.
  pub decide_scan_mode_lem :
      (input : ScanModeInput)
      → ((decide_scan_mode ruleset_version prompt_version input).diff_mode ≡ incremental) ↔ (
          (base : BaseScan) × IsDelta input base
          × ((decide_scan_mode ruleset_version prompt_version input).base_scan_id ≡ some base.id)
          × ((decide_scan_mode ruleset_version prompt_version input).prev_head_sha
              ≡ some base.head_sha))
  unfolding decide_scan_mode
  decide_scan_mode_lem input =
      (λ h. decided_on input input.base refl h, λ d. rw (d.1.0, mode_on-IsDelta input d.0 d.1) refl)
