-- ===== src/Moderation.antt =====
-- server/src/modules/moderation/moderation.service.ts, with `writeAuditLog` of
-- server/src/modules/admin/admin.service.ts: reports and sanctions. Of an account only what a
-- sanction sets is kept. What the sockets of an account are sent is noted in `notices`; sending it,
-- and closing them, is the gateway's. `now` is the wall clock.
mod Types
pub mod Sanctions
mod Tests
unfoldable pub use Types.*
use Prim.Native.String.{◌++◌ as string_append}
use mmorpg_design_documents.Base.{
  ℕ, ◌+◌, ◌-◌, ◌*◌, ◌||◌, Bool, true, false, Option, none, some, List, [], ◌∷◌, ◌++◌, String,
  Result, ok, err, if◌then◌else◌, nat_eq, leb,
}
use mmorpg_design_documents.Base.Int.{ℤ, pos, ◌+ℤ◌, ◌*ℤ◌}
use mmorpg_design_documents.Base.Key.{EntityId, issued, string_eq, entity_eq, ◌==◌}
use mmorpg_design_documents.Base.Dict.{Dict, lookup, insert, values}
use mmorpg_design_documents.Base.Lists.{keep, length, take, drop}
use mmorpg_design_documents.Events.{
  DomainEventBus, next_event_id, publish, moderation_action_applied,
}

abbrev pub or_text : Option String → String
or_text none = ""
or_text (some t) = t

pub submit_report :
    ℕ
    → String
    → SubmitReportDto
    → ModerationService
    → Result ModerationError PlayerReport × ModerationService
submit_report now reporter_id dto s =
    if dto.target_id == "" || dto.reason == ""
    then (err incomplete, s)
    else if dto.target_id == reporter_id
    then (err own_report, s)
    else let next : ℕ = s.report_counter + 1 in
      let report : PlayerReport = record {
        id = issued "rpt" now next;
        reporter_id = reporter_id;
        target_id = dto.target_id;
        reason = dto.reason;
        evidence_text = or_text dto.evidence_text;
        status = opened;
        resolved_by = none;
        resolved_action = none;
        created_at = now;
      } in
      (ok report, record s { reports = insert report.id report s.reports; report_counter = next })

-- A report among those that are no older: the newest first, equal times in their order.
pub insert_newest : PlayerReport → List PlayerReport → List PlayerReport
insert_newest r [] = r ∷ []
insert_newest r (x ∷ xs) =
    let rest = insert_newest r xs in if leb x.created_at r.created_at then r ∷ x ∷ xs else x ∷ rest

pub sort_newest : List PlayerReport → List PlayerReport
unfolding insert_newest
sort_newest [] = []
sort_newest (r ∷ rs) = insert_newest r (sort_newest rs)

abbrev pub with_status : Option ReportStatus → List PlayerReport → List PlayerReport
with_status none rs = rs
with_status (some status) rs = keep (λ r. same_status r.status status) rs

-- Pages from 1 on; for page 0 the bounds of the slice leave nothing.
pub get_reports : ℕ → ℕ → Option ReportStatus → ModerationService → PaginatedReports
unfolding sort_newest
get_reports page page_size status s =
    let all = sort_newest (with_status status (values s.reports)) in
    record {
      reports = if nat_eq page 0 then [] else take page_size (drop ((page - 1) * page_size) all);
      total = length all;
      page = page;
      page_size = page_size;
    }

pub get_report_by_id : EntityId → ModerationService → Option PlayerReport
get_report_by_id id s = lookup id s.reports

-- The valid actions.
abbrev pub sanction_of : String → Option SanctionAction
sanction_of action =
    if action == "warn"
    then some warn
    else if action == "mute"
    then some mute
    else if action == "ban"
    then some ban
    else if action == "note"
    then some note
    else none

abbrev pub or_zero : Option ℕ → ℕ
or_zero none = 0
or_zero (some n) = n

abbrev pub minutes_of : Option ℤ → ℤ
minutes_of none = pos 60
minutes_of (some m) = m

-- `new Date(Date.now() + minutes * 60_000)`
abbrev pub mute_end : ℕ → ResolveReportDto → ℤ
mute_end now dto = pos now +ℤ minutes_of dto.mute_duration_minutes *ℤ pos 60000

-- What the switch makes of the account.
abbrev pub sanctioned : ℕ → SanctionAction → ResolveReportDto → Account → Account
sanctioned now warn dto a = record a { warning_count = some (or_zero a.warning_count + 1) }
sanctioned now mute dto a = record a { muted_until = some (mute_end now dto) }
sanctioned now ban dto a = record a { banned = true }
sanctioned now note dto a = a

abbrev pub notice_of : ℕ → SanctionAction → ResolveReportDto → String → List Notice
notice_of now warn dto target = []
notice_of now mute dto target = muted target (mute_end now dto) ∷ []
notice_of now ban dto target = shut_out target ∷ []
notice_of now note dto target = []

abbrev pub max_audit_log : ℕ
max_audit_log = 100

-- `writeAuditLog`: newest first, and no more than the cap.
pub write_audit_log : ℕ → String → String → PlayerReport → ModerationService → ModerationService
write_audit_log now admin_id action r s =
    let (id, bus) = next_event_id now s.bus in
    let entry : AuditLogEntry = record {
      id = id;
      admin_id = admin_id;
      action = action;
      report_id = r.id;
      target_id = r.target_id;
      reason = r.reason;
      created_at = now;
    } in
    record s { audit_log = take max_audit_log (entry ∷ s.audit_log); bus = bus }

-- The report once it is resolved.
abbrev pub closed : String → SanctionAction → PlayerReport → PlayerReport
closed moderator_id action r = record r {
  status = resolved;
  resolved_by = some moderator_id;
  resolved_action = some action;
}

-- What follows the checks: the sanction, the report, the event and the audit log.
pub enforce :
    ℕ
    → EntityId
    → String
    → SanctionAction
    → ResolveReportDto
    → PlayerReport
    → Account
    → ModerationService
    → ModerationService
unfolding write_audit_log
enforce now id moderator_id action dto r account s =
    let event = moderation_action_applied (record {
      report_id = id;
      target_id = r.target_id;
      action = dto.action;
      moderator_id = moderator_id;
    }) in
    write_audit_log now moderator_id (string_append "moderation." dto.action) r (record s {
      accounts = insert r.target_id (sanctioned now action dto account) s.accounts;
      notices = s.notices ++ notice_of now action dto r.target_id;
      reports = insert id (closed moderator_id action r) s.reports;
      bus = publish now now event s.bus;
    })

-- The three checks of a report that is there, and then the sanction.
pub resolve_open :
    ℕ
    → EntityId
    → String
    → ResolveReportDto
    → PlayerReport
    → ModerationService
    → Result ModerationError PlayerReport × ModerationService
unfolding enforce
resolve_open now id moderator_id dto r s =
    if same_status r.status opened
    then elim (sanction_of dto.action) [
      | none ↦ (err (invalid_action dto.action), s)
      | some action ↦ elim (lookup r.target_id s.accounts) [
        | none ↦ (err no_account, s)
        | some account ↦
            (ok (closed moderator_id action r), enforce now id moderator_id action dto r account s)
      ]
    ]
    else (err already_resolved, s)

pub resolve_report :
    ℕ
    → EntityId
    → String
    → ResolveReportDto
    → ModerationService
    → Result ModerationError PlayerReport × ModerationService
unfolding resolve_open
resolve_report now id moderator_id dto s = elim (lookup id s.reports) [
  | none ↦ (err no_report, s)
  | some r ↦ resolve_open now id moderator_id dto r s
]
