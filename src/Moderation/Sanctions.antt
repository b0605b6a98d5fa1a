-- ===== src/Moderation/Sanctions.antt =====
-- server/src/modules/moderation/moderation.service.ts, `resolveReport`: a sanction is applied once,
-- to the account that the report is about.
use mmorpg_design_documents.Base.Int.{ℤ, pos, ◌+ℤ◌, ◌*ℤ◌}
use mmorpg_design_documents.Base.{
  ℕ, ◌+◌, Bool, Option, none, ◌≡◌, refl, ◌∙◌, ap, sym, subst, inl, inr, true, Bool-cases, some,
  Option-cases, String, ok, err, if◌then◌else◌,
}
use mmorpg_design_documents.Base.Key.{EntityId, string_eq, entity_eq, ◌==◌, eq_lem, eq_self}
use mmorpg_design_documents.Base.Dict.{lookup, lookup-insert}
use mmorpg_design_documents.Moderation.{
  ReportStatus, opened, resolved, dismissed, warn, mute, ban, note, or_zero, minutes_of,
  PlayerReport, ResolveReportDto, SanctionAction, Account, ModerationService, already_resolved,
  same_status, sanction_of, sanctioned, closed, write_audit_log, enforce, resolve_open,
  resolve_report,
}

abbrev pub word : SanctionAction → String
word warn = "warn"
word mute = "mute"
word ban = "ban"
word note = "note"

-- A warning counts one more, and a mute sets its end; other actions leave these as they are.
abbrev pub warnings_after : SanctionAction → Option ℕ → Option ℕ
warnings_after warn none = some 1
warnings_after warn (some n) = some (n + 1)
warnings_after mute n = n
warnings_after ban n = n
warnings_after note n = n

abbrev pub mute_after : SanctionAction → ℕ → Option ℤ → Option ℤ → Option ℤ
mute_after warn now minutes t = t
mute_after mute now none t = some (pos now +ℤ pos 60 *ℤ pos 60000)
mute_after mute now (some m) t = some (pos now +ℤ m *ℤ pos 60000)
mute_after ban now minutes t = t
mute_after note now minutes t = t

abbrev pub banned_after : SanctionAction → Bool → Bool
banned_after ban b = true
banned_after warn b = b
banned_after mute b = b
banned_after note b = b

-- What a report that was resolved has done: it was open, its action is a valid one, it stands
-- resolved by the moderator with that action, and the account that it is about has one more
-- warning, is muted for the minutes asked for or an hour, is banned, or is as it was, by the
-- action; no other report or account has changed.
pub record Enforced (now : ℕ) (id : EntityId) (moderator_id : String) (dto : ResolveReportDto)
    (r : PlayerReport) (s s' : ModerationService) : Type 0 where
  pub action : SanctionAction
  pub account : Account
  pub valid : dto.action ≡ word action
  pub fresh : r.status ≡ opened
  pub known : lookup r.target_id s.accounts ≡ some account
  pub report :
      (k : EntityId)
      → lookup k s'.reports ≡ (
          if k == id
          then some (record r {
            status = resolved;
            resolved_by = some moderator_id;
            resolved_action = some action;
          })
          else lookup k s.reports)
  pub target :
      (c : String)
      → lookup c s'.accounts ≡ (
          if c == r.target_id
          then some (record {
            warning_count = warnings_after action account.warning_count;
            muted_until = mute_after action now dto.mute_duration_minutes account.muted_until;
            banned = banned_after action account.banned;
          })
          else lookup c s.accounts)

sanction_of-word :
    (t : String) (action : SanctionAction) → sanction_of t ≡ some action → t ≡ word action
sanction_of-word t action h = elim (Bool-cases (t == "warn")) [
  | inl e ↦ picked warn e (rw e at h)
  | inr no_warn ↦ elim (Bool-cases (t == "mute")) [
    | inl e ↦ picked mute e (rw (no_warn, e) at h)
    | inr no_mute ↦ elim (Bool-cases (t == "ban")) [
      | inl e ↦ picked ban e (rw (no_warn, no_mute, e) at h)
      | inr no_ban ↦ elim (Bool-cases (t == "note")) [
        | inl e ↦ picked note e (rw (no_warn, no_mute, no_ban, e) at h)
        | inr no_note ↦ absurd (cc (rw (no_warn, no_mute, no_ban, no_note) at h))
      ]
    ]
  ]
]
  where
    picked : (b : SanctionAction) → (t == word b) ≡ true → some b ≡ some action → t ≡ word action
    picked b e same =
        let own : b ≡ action = cc in subst (λ x. t ≡ word x) own ((eq_lem t (word b)).0 e)

same_status-opened : (status : ReportStatus) → same_status status opened ≡ true → status ≡ opened
same_status-opened opened h = refl
same_status-opened resolved h = absurd (cc)
same_status-opened dismissed h = absurd (cc)

sanctioned_lem :
    (now : ℕ) (action : SanctionAction) (dto : ResolveReportDto) (a : Account)
    → sanctioned now action dto a ≡ record {
      warning_count = warnings_after action a.warning_count;
      muted_until = mute_after action now dto.mute_duration_minutes a.muted_until;
      banned = banned_after action a.banned;
    }
sanctioned_lem now warn dto a = ap (λ n. record a { warning_count = n }) (counted a.warning_count)
  where
    counted : (n : Option ℕ) → some (or_zero n + 1) ≡ warnings_after warn n
    counted none = refl
    counted (some n) = refl
sanctioned_lem now mute dto a =
    ap (λ t. record a { muted_until = t }) (lasting dto.mute_duration_minutes)
  where
    lasting :
        (m : Option ℤ)
        → some (pos now +ℤ minutes_of m *ℤ pos 60000) ≡ mute_after mute now m a.muted_until
    lasting none = refl
    lasting (some m) = refl
sanctioned_lem now ban dto a = refl
sanctioned_lem now note dto a = refl

enforce-Enforced :
    (now : ℕ) (id : EntityId) (moderator_id : String) (dto : ResolveReportDto) (r : PlayerReport)
    (action : SanctionAction) (account : Account) (s : ModerationService)
    → sanction_of dto.action ≡ some action
    → same_status r.status opened ≡ true
    → lookup r.target_id s.accounts ≡ some account
    → Enforced now id moderator_id dto r s (enforce now id moderator_id action dto r account s)
unfolding enforce write_audit_log
enforce-Enforced now id moderator_id dto r action account s e f g = record {
  action = action;
  account = account;
  valid = sanction_of-word dto.action action e;
  fresh = same_status-opened r.status f;
  known = g;
  report = λ k. lookup-insert k id _ s.reports;
  target = λ c.
      lookup-insert c r.target_id _ s.accounts
      ∙ ap (λ a. if c == r.target_id then some a else lookup c s.accounts)
          (sanctioned_lem now action dto account);
}

resolve_report-found :
    (now : ℕ) (id : EntityId) (moderator_id : String) (dto : ResolveReportDto) (r : PlayerReport)
    (s : ModerationService)
    → lookup id s.reports ≡ some r
    → resolve_report now id moderator_id dto s ≡ resolve_open now id moderator_id dto r s
unfolding resolve_report
resolve_report-found now id moderator_id dto r s here = rw (resolve_report, here) refl

resolve_open-ok :
    (now : ℕ) (id : EntityId) (moderator_id : String) (dto : ResolveReportDto) (r r' : PlayerReport)
    (s : ModerationService)
    → (resolve_open now id moderator_id dto r s).0 ≡ ok r'
    → Enforced now id moderator_id dto r s (resolve_open now id moderator_id dto r s).1
unfolding resolve_open
resolve_open-ok now id moderator_id dto r r' s h = elim (Bool-cases (same_status r.status opened)) [
  | inr over ↦ absurd (cc (rw (resolve_open, over) at h))
  | inl fresh ↦ elim (Option-cases (sanction_of dto.action)) [
    | inl e ↦ absurd (cc (rw (resolve_open, fresh, e) at h))
    | inr (action, e) ↦ elim (Option-cases (lookup r.target_id s.accounts)) [
      | inl f ↦ absurd (cc (rw (resolve_open, fresh, e, f) at h))
      | inr (account, f) ↦
          rw (resolve_open, fresh, e, f)
            (enforce-Enforced now id moderator_id dto r action account s e fresh f)
    ]
  ]
]

resolve_open-closed :
    (now : ℕ) (id : EntityId) (moderator_id other : String) (action : SanctionAction)
    (dto : ResolveReportDto) (r : PlayerReport) (s : ModerationService)
    → resolve_open now id other dto (closed moderator_id action r) s ≡ (err already_resolved, s)
unfolding resolve_open
resolve_open-closed now id moderator_id other action dto r s = refl

-- When a report is resolved it was open, its target has an account and the action is one of the four;
-- it then stands resolved by the moderator with that action. By the action the target's account has
-- one more warning, is muted until the minutes asked for, or an hour, from now, is banned, or is as
-- it was, and no other account or report has changed. Resolving the report again, whoever tries and
-- with whatever action, is refused and changes nothing.
pub resolve_report-once :
    (now later : ℕ) (id : EntityId) (moderator_id other : String) (dto dto' : ResolveReportDto)
    (r r' : PlayerReport) (s : ModerationService)
    → lookup id s.reports ≡ some r
    → (resolve_report now id moderator_id dto s).0 ≡ ok r'
    → let s' = (resolve_report now id moderator_id dto s).1 in
      Enforced now id moderator_id dto r s s'
      × (resolve_report later id other dto' s' ≡ (err already_resolved, s'))
resolve_report-once now later id moderator_id other dto dto' r r' s here h = (done, again)
  where
    found : resolve_report now id moderator_id dto s ≡ resolve_open now id moderator_id dto r s
    found = resolve_report-found now id moderator_id dto r s here

    s' : ModerationService
    s' = (resolve_report now id moderator_id dto s).1

    done : Enforced now id moderator_id dto r s s'
    done =
        subst (λ o. Enforced now id moderator_id dto r s o.1) (sym found)
          (resolve_open-ok now id moderator_id dto r r' s (ap (λ o. o.0) (sym found) ∙ h))

    shut : lookup id s'.reports ≡ some (closed moderator_id done.action r)
    shut = done.report id ∙ (rw (eq_self id) refl)

    again : resolve_report later id other dto' s' ≡ (err already_resolved, s')
    again =
        resolve_report-found later id other dto' (closed moderator_id done.action r) s' shut
        ∙ resolve_open-closed later id moderator_id other done.action dto' r s'
