-- ===== src/Moderation/Types.antt =====
-- server/src/modules/moderation/moderation.service.ts, server/src/modules/admin/admin.service.ts: the
-- data of the reports, the sanctions and the audit log.
use mmorpg_design_documents.Base.{ℕ, Bool, true, false, Option, List, String}
use mmorpg_design_documents.Base.Int.{ℤ}
use mmorpg_design_documents.Base.Key.{EntityId}
use mmorpg_design_documents.Base.Dict.{Dict}
use mmorpg_design_documents.Events.{DomainEventBus}

pub data ReportStatus : Type 0 where
  opened resolved dismissed : ReportStatus

pub data SanctionAction : Type 0 where
  warn mute ban note : SanctionAction

abbrev pub same_status : ReportStatus → ReportStatus → Bool
same_status opened opened = true
same_status resolved resolved = true
same_status dismissed dismissed = true
same_status _ _ = false

pub record PlayerReport : Type 0 where
  pub id : EntityId
  pub reporter_id : String
  pub target_id : String
  pub reason : String
  pub evidence_text : String
  pub status : ReportStatus
  pub resolved_by : Option String
  pub resolved_action : Option SanctionAction
  pub created_at : ℕ

pub record SubmitReportDto : Type 0 where
  pub target_id : String
  pub reason : String
  pub evidence_text : Option String

-- The action as the request spells it.
pub record ResolveReportDto : Type 0 where
  pub action : String
  pub mute_duration_minutes : Option ℤ

pub record PaginatedReports : Type 0 where
  pub reports : List PlayerReport
  pub total : ℕ
  pub page : ℕ
  pub page_size : ℕ

pub record Account : Type 0 where
  pub warning_count : Option ℕ
  pub muted_until : Option ℤ
  pub banned : Bool

pub record AuditLogEntry : Type 0 where
  pub id : EntityId
  pub admin_id : String
  pub action : String
  pub report_id : EntityId
  pub target_id : String
  pub reason : String
  pub created_at : ℕ

pub data Notice : Type 0 where
  muted : (account : String) (until : ℤ) → Notice
  shut_out : (account : String) → Notice

pub record ModerationService : Type 0 where
  pub reports : Dict EntityId PlayerReport
  pub report_counter : ℕ
  pub accounts : Dict String Account
  pub audit_log : List AuditLogEntry
  pub notices : List Notice
  pub bus : DomainEventBus

pub data ModerationError : Type 0 where
  incomplete own_report no_report already_resolved no_account : ModerationError
  invalid_action : String → ModerationError
