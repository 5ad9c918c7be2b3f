-- ===== src/Api/ModeLaws.antt =====
-- A change of mode over the API: who may make it, what becomes of the mode, and what the trail says.
use project.Api.Mode.{Desk, mode_row, set_mode_route, the_system}
use project.Api.Trail.{AuthenticatedRequest, Detail, audit_row, entry, mode_detail}
use project.Audit.{Audit, AuditOutcome, AuditRow, denied, mode_changed, record_entry}
use project.Base.{
  Bool-cases, String, [], arith, false, inl, inr, none, refl, true, ℕ, ◌++◌, ◌∷◌, ◌≡◌, ◌⊎◌,
}
use project.Contracts.Auth.{PolicyDecision}
use project.Contracts.Modes.{SystemMode}
use project.Db.{Prisma}
use project.Http.{Result, err, forbidden}
use project.Security.Policy.{can_set_mode}
use project.Security.PolicyLaws.{MayChange, can_set_mode_iff}
use project.System.{ModeChange, get_mode}
use project.System.Laws.{get_mode-set_mode, get_mode_again}

pub record_entry_plain :
    (now : ℕ) (row : AuditRow) (a : Audit)
    → (record_entry now (entry row none) a).log ≡ a.log ++ row ∷ []
unfolding record_entry
record_entry_plain now row a = refl

-- The trail after `p` has the one further row.
abbrev pub IsNoted : AuditRow → Audit → Audit → Type 0
IsNoted row before after = after.log ≡ before.log ++ row ∷ []

module _ (db : Prisma) (json : Detail → String) (now : ℕ) (request : AuthenticatedRequest)
    (target : SystemMode) (p : Desk) where
  -- The target is the mode, and the trail says who set it, and from what.
  pub record IsChanged (q : Desk × Result ModeChange) : Type 0 where
    pub permitted : MayChange request.identity p.hub.alerts target
    pub mode : (get_mode db q.0.hub).1 ≡ target
    pub noted :
        IsNoted
          (audit_row json now request mode_changed AuditOutcome.allowed none the_system
            (mode_detail (get_mode db p.hub).1 target none))
          p.audit
          q.0.audit

  -- The mode and the alerts are as they were, and the trail has the refusal and its reason.
  pub record IsRefused (q : Desk × Result ModeChange) : Type 0 where
    pub not_permitted : ¬ MayChange request.identity p.hub.alerts target
    pub answer : q.1 ≡ err forbidden
    pub mode : (get_mode db q.0.hub).1 ≡ (get_mode db p.hub).1
    pub alerts : q.0.hub.alerts ≡ p.hub.alerts
    pub noted :
        IsNoted
          (audit_row json now request mode_changed denied
            (can_set_mode db request.identity target p.hub.alerts).reason
            the_system
            (mode_detail
              (get_mode db p.hub).1
              target
              (can_set_mode db request.identity target p.hub.alerts).requires_role))
          p.audit
          q.0.audit

  get_mode-alerts : (get_mode db p.hub).0.alerts ≡ p.hub.alerts
  unfolding get_mode
  get_mode-alerts = refl

  abbrev verdict : PolicyDecision
  verdict = can_set_mode db request.identity target p.hub.alerts

  set_mode_route-IsChanged :
      verdict.allowed ≡ true → IsChanged (set_mode_route db json now request target p)
  unfolding set_mode_route mode_row
  set_mode_route-IsChanged e = record {
    permitted = (can_set_mode_iff db request.identity target p.hub.alerts).0 e;
    mode = rw (get_mode-alerts, e) (get_mode-set_mode db (get_mode db p.hub).0 target);
    noted = rw (get_mode-alerts, e) (record_entry_plain now _ p.audit);
  }

  set_mode_route-IsRefused :
      verdict.allowed ≡ false → IsRefused (set_mode_route db json now request target p)
  unfolding set_mode_route mode_row
  set_mode_route-IsRefused e = record {
    not_permitted = λ may.
        absurd (ground (arith, (can_set_mode_iff db request.identity target p.hub.alerts).1 may));
    answer = rw (get_mode-alerts, e) refl;
    mode = rw (get_mode-alerts, e) (get_mode_again db p.hub);
    alerts = rw (get_mode-alerts, e) get_mode-alerts;
    noted = rw (get_mode-alerts, e) (record_entry_plain now _ p.audit);
  }

  -- A request to change the mode is either within the rules, and then the target is the mode and the
  -- trail has the change with its mode before; or it is not, and then the answer is 403, the mode and
  -- the alerts are as they were, and the trail has the refusal with the reason given.
  pub set_mode_route_lem :
      IsChanged (set_mode_route db json now request target p)
      ⊎ IsRefused (set_mode_route db json now request target p)
  set_mode_route_lem = elim (Bool-cases verdict.allowed) [
    | inl e ↦ inl (set_mode_route-IsChanged e)
    | inr e ↦ inr (set_mode_route-IsRefused e)
  ]
