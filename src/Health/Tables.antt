-- ===== src/Health/Tables.antt =====
-- server/src/modules/health/health.service.ts: the types and the tables of the configuration.
use mmorpg_design_documents.Base.{
  ℕ, Bool, true, false, Option, none, some, List, [], ◌∷◌, String, if◌then◌else◌,
}
use mmorpg_design_documents.Base.Int.{ℤ, pos, int_eq}
use mmorpg_design_documents.Base.Key.{string_eq, ◌==◌}
use mmorpg_design_documents.Base.Lists.{any}

pub data ConditionType : Type 0 where
  wound illness exhaustion poisoning : ConditionType

abbrev pub type_text : ConditionType → String
type_text wound = "wound"
type_text illness = "illness"
type_text exhaustion = "exhaustion"
type_text poisoning = "poisoning"

abbrev pub same_type : ConditionType → ConditionType → Bool
same_type wound wound = true
same_type illness illness = true
same_type exhaustion exhaustion = true
same_type poisoning poisoning = true
same_type _ _ = false

pub data IllnessSubtype : Type 0 where
  acute chronic : IllnessSubtype

abbrev pub is_illness : ConditionType → Bool
is_illness t = same_type t illness

abbrev pub is_chronic : Option IllnessSubtype → Bool
is_chronic none = false
is_chronic (some acute) = false
is_chronic (some chronic) = true

-- `BASE_DURATION_PER_SEVERITY[severity] ?? 3`
abbrev pub base_duration : ℤ → ℤ
base_duration severity =
    if int_eq severity (pos 1)
    then pos 3
    else if int_eq severity (pos 2)
    then pos 7
    else if int_eq severity (pos 3)
    then pos 14
    else if int_eq severity (pos 4)
    then pos 28
    else if int_eq severity (pos 5)
    then pos 56
    else pos 3

-- `STAT_PENALTY_PER_SEVERITY[severity] ?? 0.05`, in hundredths.
abbrev pub stat_penalty : ℤ → ℤ
stat_penalty severity =
    if int_eq severity (pos 1)
    then pos 5
    else if int_eq severity (pos 2)
    then pos 10
    else if int_eq severity (pos 3)
    then pos 20
    else if int_eq severity (pos 4)
    then pos 35
    else if int_eq severity (pos 5)
    then pos 50
    else pos 5

abbrev pub recovery_action : ConditionType → String
recovery_action wound = "rest_or_surgery"
recovery_action illness = "rest_or_medicine"
recovery_action exhaustion = "sleep"
recovery_action poisoning = "antidote_or_rest"

-- `reduction` in hundredths, as the literal of the double.
pub record SkillTreatment : Type 0 where
  pub types : List ConditionType
  pub reduction : ℕ

abbrev pub treatment_skill : String → Option SkillTreatment
treatment_skill skill =
    if skill == "Surgery"
    then some (record { types = wound ∷ []; reduction = 50 })
    else if skill == "Medicine"
    then some (record { types = illness ∷ poisoning ∷ []; reduction = 50 })
    else if skill == "Herbalism"
    then some (record { types = illness ∷ poisoning ∷ exhaustion ∷ []; reduction = 30 })
    else if skill == "FirstAid"
    then some (record { types = wound ∷ exhaustion ∷ []; reduction = 25 })
    else none

-- `treatment.types.includes(type)`
abbrev pub treats : ConditionType → SkillTreatment → Bool
treats t s = any (λ x. same_type x t) s.types

abbrev pub chronic_multiplier : ℤ
chronic_multiplier = pos 3
