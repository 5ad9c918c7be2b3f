-- ===== src/Api/AcknowledgeLaws.antt =====
-- An acknowledgement over the API.
use project.Alerts.Acknowledge.{acknowledge-found}
use project.Alerts.Service.{acknowledge}
use project.Api.Acknowledge.{acknowledge_route, respond, the_alert}
use project.Api.Mode.{Desk}
use project.Api.ModeLaws.{IsNoted, record_entry_plain}
use project.Api.Trail.{AuthenticatedRequest, Detail, alert_detail, audit_row, no_detail}
use project.Audit.{AuditOutcome, alert_acknowledged, denied}
use project.Base.{
  Bool-cases, Option-cases, String, arith, eq_option, eq_string, eq_ℕ, false, find, inl, inr, none,
  refl, some, true, ℕ, ◌==◌, ◌≡◌, ◌⊎◌,
}
use project.Contracts.Auth.{PolicyDecision, alerts_ack, eq_permission, includes}
use project.Contracts.Modes.{eq_alert_type, eq_severity}
use project.Db.{Prisma}
use project.Http.{Result, err, forbidden, not_found, ok}
use project.Hub.{Alert}
use project.Maintenance.RollUpWindow.{found}
use project.Security.Guard.{missing}
use project.Security.Policy.{can_acknowledge_alert}

module _ (db : Prisma) (lower : String → String) (json : Detail → String) (now : ℕ)
    (request : AuthenticatedRequest) (id : String) (p : Desk) where
  abbrev verdict : PolicyDecision
  verdict = can_acknowledge_alert lower db request.identity id p.hub.agents p.hub.alerts

  -- The alert stands acknowledged, and the trail says by whom.
  pub record IsTaken (q : Desk × Result Alert) : Type 0 where
    pub alert : Alert
    pub answer : q.1 ≡ ok alert
    pub permitted : includes request.identity.permissions alerts_ack ≡ true
    pub found : find (λ r. r.id == id) q.0.hub.alerts ≡ some alert
    pub acknowledged : alert.acknowledged ≡ true
    pub noted :
        IsNoted
          (audit_row json now request alert_acknowledged AuditOutcome.allowed none
            (the_alert id)
            (alert_detail alert.type alert.severity alert.agent_id))
          p.audit
          q.0.audit

  -- The hub is as it was: a refusal, which the trail has with its reason, or an unknown alert.
  pub record IsDeclined (q : Desk × Result Alert) : Type 0 where
    pub hub : q.0.hub ≡ p.hub
    pub answer :
        ((q.1 ≡ err forbidden)
          × IsNoted
              (audit_row json now request alert_acknowledged denied
                (can_acknowledge_alert lower db request.identity id p.hub.agents
                  p.hub.alerts).reason
                (the_alert id)
                no_detail)
              p.audit
              q.0.audit)
        ⊎ ((q.1 ≡ err not_found) × (q.0.audit ≡ p.audit))

  may_acknowledge : verdict.allowed ≡ true → includes request.identity.permissions alerts_ack ≡ true
  unfolding can_acknowledge_alert
  may_acknowledge e = ground arith

  acknowledge_route-IsDeclined :
      verdict.allowed ≡ false → IsDeclined (acknowledge_route db lower json now request id p)
  unfolding acknowledge_route
  acknowledge_route-IsDeclined e = record {
    hub = rw e refl;
    answer = inl (rw e refl, rw e (record_entry_plain now _ p.audit));
  }

  acknowledge_route-allowed :
      verdict.allowed ≡ true
      → IsTaken (acknowledge_route db lower json now request id p)
        ⊎ IsDeclined (acknowledge_route db lower json now request id p)
  unfolding acknowledge_route respond
  acknowledge_route-allowed e = elim (Option-cases (acknowledge db now id p.hub)) [
    | inl missing ↦ inr (record {
      hub = rw (e, missing) refl;
      answer = inr (rw (e, missing) refl, rw (e, missing) refl);
    })
    | inr ((h, a), done) ↦
        let (found, acked) = acknowledge-found db now id p.hub h a done in
        inl (record {
          alert = a;
          answer = rw (e, done) refl;
          permitted = may_acknowledge e;
          found = rw (e, done) found;
          acknowledged = acked;
          noted = rw (e, done) (record_entry_plain now _ p.audit);
        })
  ]

  -- A request to acknowledge an alert either leaves that alert acknowledged, by a caller that holds
  -- the permission, with a row in the trail; or it leaves the hub as it was, and answers 403 with a
  -- row that has the reason, or 404 with none.
  pub acknowledge_route_lem :
      IsTaken (acknowledge_route db lower json now request id p)
      ⊎ IsDeclined (acknowledge_route db lower json now request id p)
  acknowledge_route_lem = elim (Bool-cases verdict.allowed) [
    | inl e ↦ acknowledge_route-allowed e
    | inr e ↦ inr (acknowledge_route-IsDeclined e)
  ]
