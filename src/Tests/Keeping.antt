-- ===== src/Tests/Keeping.antt =====
-- The nightly deletes, browser cameras, and the dashboard's mirror.
use project.Base.{
  Bool, List, String, [], arith, concat, count, if◌then◌else◌, min, none, not, refl, select, suc,
  zero, ℕ, ◌+◌, ◌<◌, ◌∷◌, ◌≡◌, ◌≤◌,
}
use project.Cameras.Browser.{
  BrowserSession, create, is_live, max_browser_cameras, new_browser_camera,
}
use project.Cameras.BrowserLaws.{IsCapped, create-IsCapped}
use project.Contracts.Auth.{operator}
use project.Contracts.Modes.{browser, disarmed}
use project.Dashboard.Mirror.{evaluate_mode_change-can_set_mode}
use project.Dashboard.Permissions.{evaluate_mode_change}
use project.Hub.{Agent}
use project.Maintenance.Retention.{BatchDelete}
use project.Security.Credential.{human}
use project.Security.Policy.{can_set_mode}
use project.Tests.Database.{list_db}
use project.Tests.Samples.{front_agent, open_alert}

-- Deletes the first matching rows.
unfoldable pub drop_first : {R : Type 0} → (R → Bool) → ℕ → List R → List R × ℕ
drop_first p n [] = ([], 0)
drop_first p zero (r ∷ rows) = (r ∷ rows, 0)
drop_first p (suc n) (r ∷ rows) =
    let taken = drop_first p n rows in
    let passed = drop_first p (suc n) rows in
    if p r then (taken.0, suc taken.1) else (r ∷ passed.0, passed.1)

pub drop_first-deleted :
    {R : Type 0} (p : R → Bool) (n : ℕ) (rows : List R)
    → (drop_first p n rows).1 ≡ min n (count p rows)
unfolding drop_first count
drop_first-deleted p n [] = omega arith
drop_first-deleted p zero (r ∷ rows) = omega arith
drop_first-deleted p (suc n) (r ∷ rows) =
    ground (arith, drop_first-deleted p n rows, drop_first-deleted p (suc n) rows)

pub drop_first-matching :
    {R : Type 0} (p : R → Bool) (n : ℕ) (rows : List R)
    → count p (drop_first p n rows).0 + (drop_first p n rows).1 ≡ count p rows
unfolding drop_first count
drop_first-matching p n [] = omega arith
drop_first-matching p zero (r ∷ rows) = omega arith
drop_first-matching p (suc n) (r ∷ rows) =
    ground (arith, drop_first-matching p n rows, drop_first-matching p (suc n) rows)

pub drop_first-others :
    {R : Type 0} (p : R → Bool) (n : ℕ) (rows : List R)
    → select (λ r. not (p r)) (drop_first p n rows).0 ≡ select (λ r. not (p r)) rows
unfolding drop_first select
drop_first-others p n [] = refl
drop_first-others p zero (r ∷ rows) = refl
drop_first-others p (suc n) (r ∷ rows) =
    ground (arith, drop_first-others p n rows, drop_first-others p (suc n) rows)

pub drop_first-fewer :
    {R : Type 0} (p q : R → Bool) (n : ℕ) (rows : List R)
    → count q (drop_first p n rows).0 ≤ count q rows
unfolding drop_first count
drop_first-fewer p q n [] = omega arith
drop_first-fewer p q zero (r ∷ rows) = omega arith
drop_first-fewer p q (suc n) (r ∷ rows) =
    ground (arith, drop_first-fewer p q n rows, drop_first-fewer p q (suc n) rows)

abbrev pub list_sql : BatchDelete
list_sql = record {
  delete_batch = drop_first;
  deleted_lem = drop_first-deleted;
  matching_lem = drop_first-matching;
  others_lem = drop_first-others;
  fewer_lem = drop_first-fewer;
}

abbrev same_text : String → String
same_text s = s

abbrev laptop : Agent
laptop = record front_agent { id = "browser-1"; origin = browser }

abbrev desk : Agent
desk = new_browser_camera 10 "browser-2" "ag_r" "Desk" none

abbrev desk_session : BrowserSession
desk_session = record {
  agent_id = "browser-2";
  token = "ag_r";
  expires_at = 1800010;
  max_fps = 15;
  max_width = 640;
}

create-IsCapped_example :
    (count is_live (laptop ∷ []) < max_browser_cameras) × IsCapped (laptop ∷ desk ∷ [])
unfolding create count concat
create-IsCapped_example =
    create-IsCapped list_db same_text 10 "2" "r" "Desk" none (laptop ∷ []) (laptop ∷ desk ∷ [])
      desk_session refl

evaluate_mode_change-can_set_mode_example :
    evaluate_mode_change (human operator []) disarmed (open_alert ∷ [])
    ≡ can_set_mode list_db (human operator []) disarmed (open_alert ∷ [])
evaluate_mode_change-can_set_mode_example =
    evaluate_mode_change-can_set_mode list_db (human operator []) disarmed (open_alert ∷ [])
