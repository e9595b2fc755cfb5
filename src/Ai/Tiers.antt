-- ===== src/Ai/Tiers.antt =====
-- src/queue/rules/rule-tiers.ts: the Critical tiers of an organization's quality profile.
use critiq_be.Prelude.{
  ◌≡◌, refl, Bool, true, false, not, ◌&&◌, ◌||◌, Option, none, some, List, [], ◌∷◌, Text, codes,
  starts_with, contains, text_eq, length, nat_eq, filterb, anyb, allb, if◌then◌else◌, arith,
  eq_Text, ap, ◌∙◌, Bool-cases, inl, inr,
}
use critiq_be.Findings.{
  FindingSource, static, ai, FindingCategory, secret, injection, insecure_tls, logic, auth,
  concurrency, data_loss, config, other, RuleTier, secrets, security, RuleTier-discrete, same_tier,
}
use mathlib.Core.Bool.{decide}

abbrev pub all_rule_tiers : List RuleTier
all_rule_tiers =
    secrets ∷ RuleTier.crash ∷ RuleTier.breaking_change ∷ RuleTier.error_handling
    ∷ RuleTier.performance ∷ security ∷ []

abbrev security_rules : List Text
security_rules =
    codes "code.sql_string_concat"
    ∷ codes "code.shell_injection"
    ∷ codes "code.eval_dynamic"
    ∷ codes "code.insecure_tls"
    ∷ codes "config.cors_wildcard_credentials"
    ∷ []

abbrev crash_rules : List Text
crash_rules = codes "code.syntax_error" ∷ codes "code.debugger_left" ∷ []

abbrev error_handling_rules : List Text
error_handling_rules = codes "code.empty_catch" ∷ []

unfoldable pub tier_for_rule : Text → Option RuleTier
unfolding contains starts_with text_eq
tier_for_rule rule_id =
    if starts_with (codes "secret.") rule_id
      || text_eq rule_id (codes "config.dockerfile_root_secret")
    then some secrets
    else if contains security_rules rule_id
    then some security
    else if contains crash_rules rule_id
    then some RuleTier.crash
    else if contains error_handling_rules rule_id
    then some RuleTier.error_handling
    else none

-- `CATEGORY_TIER`
unfoldable pub category_tier : FindingCategory → Option RuleTier
category_tier secret = some secrets
category_tier FindingCategory.crash = some RuleTier.crash
category_tier concurrency = some RuleTier.crash
category_tier FindingCategory.breaking_change = some RuleTier.breaking_change
category_tier FindingCategory.error_handling = some RuleTier.error_handling
category_tier FindingCategory.performance = some RuleTier.performance
category_tier injection = some security
category_tier insecure_tls = some security
category_tier auth = some security
category_tier config = some security
category_tier data_loss = some security
category_tier logic = none
category_tier other = none

unfoldable pub tier_for_category : Option FindingCategory → Option RuleTier
unfolding category_tier
tier_for_category none = none
tier_for_category (some c) = category_tier c

unfoldable pub tier_of_finding : FindingSource → Text → Option FindingCategory → Option RuleTier
tier_of_finding static rule_id category = tier_for_rule rule_id
tier_of_finding ai rule_id category = tier_for_category category

unfoldable pub has_tier : List RuleTier → RuleTier → Bool
unfolding anyb
has_tier tiers t = anyb (λ x. same_tier x t) tiers

abbrev pub is_tier_enabled : Option RuleTier → List RuleTier → Bool
is_tier_enabled none enabled = true
is_tier_enabled (some t) enabled = has_tier enabled t

unfoldable pub is_finding_enabled :
    FindingSource → Text → Option FindingCategory → List RuleTier → Bool
is_finding_enabled source rule_id category enabled =
    is_tier_enabled (tier_of_finding source rule_id category) enabled

unfoldable pub enabled_tiers : List RuleTier → List RuleTier
unfolding filterb
enabled_tiers disabled = filterb (λ t. not (has_tier disabled t)) all_rule_tiers

unfoldable pub same_tiers : List RuleTier → List RuleTier → Bool
unfolding allb
same_tiers a b = nat_eq (length a) (length b) && allb (λ t. has_tier b t) a

same_tier_refl : (t : RuleTier) → same_tier t t ≡ true
unfolding same_tier RuleTier-discrete decide
same_tier_refl secrets = refl
same_tier_refl RuleTier.crash = refl
same_tier_refl RuleTier.breaking_change = refl
same_tier_refl RuleTier.error_handling = refl
same_tier_refl RuleTier.performance = refl
same_tier_refl security = refl

same_tier-eq : (a b : RuleTier) → same_tier a b ≡ true → a ≡ b
unfolding same_tier decide
same_tier-eq a b e = of_decide (RuleTier-discrete a b) e
  where
    of_decide : (d : Dec (a ≡ b)) → decide d ≡ true → a ≡ b
    of_decide (yes p) h = p
    of_decide (no n) h = cc

has_tier-filterb :
    (q : RuleTier → Bool) (tiers : List RuleTier) (t : RuleTier)
    → has_tier (filterb q tiers) t ≡ (q t && has_tier tiers t)
unfolding has_tier anyb filterb
has_tier-filterb q [] t = ground arith
has_tier-filterb q (x ∷ tiers) t = elim (Bool-cases (same_tier x t)) [
  | inl e ↦ rw (same_tier-eq x t e) (ground (arith, same_tier_refl t, has_tier-filterb q tiers t))
  | inr e ↦ ground (arith, e, has_tier-filterb q tiers t)
]

has_tier-all : (t : RuleTier) → has_tier all_rule_tiers t ≡ true
unfolding has_tier anyb same_tier RuleTier-discrete decide
has_tier-all secrets = refl
has_tier-all RuleTier.crash = refl
has_tier-all RuleTier.breaking_change = refl
has_tier-all RuleTier.error_handling = refl
has_tier-all RuleTier.performance = refl
has_tier-all security = refl

and-true : (b : Bool) → (b && true) ≡ b
and-true true = refl
and-true false = refl

enabled_tiers-has :
    (disabled : List RuleTier) (t : RuleTier)
    → has_tier (enabled_tiers disabled) t ≡ not (has_tier disabled t)
unfolding enabled_tiers
enabled_tiers-has disabled t =
    has_tier-filterb (λ x. not (has_tier disabled x)) all_rule_tiers t
    ∙ ap (λ b. not (has_tier disabled t) && b) (has_tier-all t)
    ∙ and-true _

-- Where the organization's profile has turned tiers off, a finding stays exactly when it belongs to
-- no tier or to one that is not turned off.
pub is_finding_enabled-enabled_tiers :
    (source : FindingSource) (rule_id : Text) (category : Option FindingCategory)
    (disabled : List RuleTier)
    → is_finding_enabled source rule_id category (enabled_tiers disabled)
      ≡ (elim (tier_of_finding source rule_id category) [
        | none ↦ true
        | some t ↦ not (has_tier disabled t)
      ])
unfolding is_finding_enabled
is_finding_enabled-enabled_tiers source rule_id category disabled =
    by_tier (tier_of_finding source rule_id category)
  where
    by_tier :
        (o : Option RuleTier)
        → is_tier_enabled o (enabled_tiers disabled)
          ≡ (elim o [ none ↦ true | some t ↦ not (has_tier disabled t) ])
    by_tier none = refl
    by_tier (some t) = enabled_tiers-has disabled t
