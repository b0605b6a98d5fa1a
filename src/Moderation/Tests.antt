-- ===== src/Moderation/Tests.antt =====
-- Runs of the moderation service at concrete inputs.
use mmorpg_design_documents.Base.{◌≡◌, refl, false, none, some, [], ◌∷◌, ok, err}
use mmorpg_design_documents.Base.Int.{pos, ◌+ℤ◌, ◌*ℤ◌}
use mmorpg_design_documents.Base.Key.{issued, string_eq, entity_eq, entity_beq}
use mmorpg_design_documents.Base.Dict.{lookup, insert}
use mmorpg_design_documents.Events.{new_bus}
use mmorpg_design_documents.Moderation.{
  PlayerReport, ResolveReportDto, ModerationService, warn, already_resolved, opened, muted, closed,
  submit_report, get_reports, resolve_report, resolve_open, enforce, write_audit_log,
}
use mmorpg_design_documents.Moderation.Sanctions.{Enforced, resolve_report-once}

abbrev complaint : PlayerReport
complaint = record {
  id = issued "rpt" 5 1;
  reporter_id = "ben";
  target_id = "olga";
  reason = "noise";
  evidence_text = "";
  status = opened;
  resolved_by = none;
  resolved_action = none;
  created_at = 5;
}

abbrev desk : ModerationService
desk = record {
  reports = (issued "rpt" 5 1, complaint) ∷ [];
  report_counter = 1;
  accounts = ("olga", record { warning_count = none; muted_until = none; banned = false }) ∷ [];
  audit_log = [];
  notices = [];
  bus = new_bus;
}

abbrev warning : ResolveReportDto
warning = record { action = "warn"; mute_duration_minutes = none }

abbrev silence : ResolveReportDto
silence = record { action = "mute"; mute_duration_minutes = none }

-- A mute lasts an hour unless the request says otherwise.
mute_run :
    (resolve_report 9 (issued "rpt" 5 1) "mod" silence desk).1.notices
    ≡ muted "olga" (pos 3600009) ∷ []
unfolding resolve_report resolve_open enforce write_audit_log lookup entity_beq ◌+ℤ◌ ◌*ℤ◌
mute_run = refl

-- The new report comes first.
paging_run :
    let (r, s) =
      submit_report 7 "ben"
        (record { target_id = "sam"; reason = "spam"; evidence_text = none })
        desk in
    (get_reports 1 1 none s).total ≡ 2
unfolding submit_report get_reports insert entity_beq
paging_run = refl

desk-complaint : lookup (issued "rpt" 5 1) desk.reports ≡ some complaint
unfolding lookup entity_beq
desk-complaint = refl

desk-warned :
    (resolve_report 9 (issued "rpt" 5 1) "mod" warning desk).0 ≡ ok (closed "mod" warn complaint)
unfolding resolve_report resolve_open lookup entity_beq
desk-warned = refl

resolve_report-once_example :
    let s' = (resolve_report 9 (issued "rpt" 5 1) "mod" warning desk).1 in
    Enforced 9 (issued "rpt" 5 1) "mod" warning complaint desk s'
    × (resolve_report 12 (issued "rpt" 5 1) "other" silence s' ≡ (err already_resolved, s'))
resolve_report-once_example =
    resolve_report-once 9 12 (issued "rpt" 5 1) "mod" "other" warning silence complaint
      (closed "mod" warn complaint) desk desk-complaint desk-warned
