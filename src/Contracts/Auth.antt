-- ===== src/Contracts/Auth.antt =====
-- packages/contracts/src/auth.ts: roles, permissions, the role map, and zones.
use project.Base.{
  Bool, Eq, List, Option, String, [], any, arith, eq_option, eq_string, eq_ℕ, nat_eq, none, true, ℕ,
  ◌++◌, ◌==◌, ◌↔◌, ◌∷◌, ◌≡◌,
}

pub data AuthRole : Type 0 where
  bootstrap agent viewer operator admin : AuthRole

abbrev pub role_index : AuthRole → ℕ
role_index bootstrap = 0
role_index agent = 1
role_index viewer = 2
role_index operator = 3
role_index admin = 4

pub role_index_iff : (a b : AuthRole) → (nat_eq (role_index a) (role_index b) ≡ true) ↔ (a ≡ b)
role_index_iff a b = ground arith

instance abbrev pub eq_role : Eq AuthRole
eq_role = record { same = λ a b. nat_eq (role_index a) (role_index b); same_iff = role_index_iff }

pub data Permission : Type 0 where
  agents_read events_read alerts_read alerts_ack system_mode_read system_arm system_disarm
        notifications_read agents_enroll events_write agents_heartbeat cameras_view cameras_publish
        cameras_provision audit_read schedules_read schedules_write :
      Permission

abbrev pub permission_index : Permission → ℕ
permission_index agents_read = 0
permission_index events_read = 1
permission_index alerts_read = 2
permission_index alerts_ack = 3
permission_index system_mode_read = 4
permission_index system_arm = 5
permission_index system_disarm = 6
permission_index notifications_read = 7
permission_index agents_enroll = 8
permission_index events_write = 9
permission_index agents_heartbeat = 10
permission_index cameras_view = 11
permission_index cameras_publish = 12
permission_index cameras_provision = 13
permission_index audit_read = 14
permission_index schedules_read = 15
permission_index schedules_write = 16

pub permission_index_iff :
    (a b : Permission) → (nat_eq (permission_index a) (permission_index b) ≡ true) ↔ (a ≡ b)
permission_index_iff a b = ground arith

instance abbrev pub eq_permission : Eq Permission
eq_permission = record {
  same = λ a b. nat_eq (permission_index a) (permission_index b);
  same_iff = permission_index_iff;
}

unfoldable pub viewer_permissions : List Permission
viewer_permissions =
    agents_read ∷ events_read ∷ alerts_read ∷ system_mode_read ∷ cameras_view ∷ schedules_read ∷ []

unfoldable pub operator_permissions : List Permission
unfolding viewer_permissions
operator_permissions =
    viewer_permissions ++ alerts_ack ∷ system_arm ∷ system_disarm ∷ schedules_write ∷ []

-- `ROLE_PERMISSIONS[role]`.
unfoldable pub permissions_for_role : AuthRole → List Permission
unfolding viewer_permissions operator_permissions
permissions_for_role bootstrap = agents_enroll ∷ []
permissions_for_role agent = events_write ∷ agents_heartbeat ∷ cameras_publish ∷ []
permissions_for_role viewer = viewer_permissions
permissions_for_role operator = operator_permissions
permissions_for_role admin =
    operator_permissions ++ notifications_read ∷ audit_read ∷ cameras_provision ∷ []

-- `xs.includes(x)`.
unfoldable pub includes {ℓ} : {A : Type ℓ} ⦃e : Eq A⦄ → List A → A → Bool
unfolding any
includes xs x = any (λ y. y == x) xs

unfoldable pub role_has : AuthRole → Permission → Bool
unfolding permissions_for_role includes
role_has role permission = includes (permissions_for_role role) permission

-- `lower` stands for `String.prototype.toLowerCase`.
unfoldable pub zone_allows : (lower : String → String) → List String → String → Bool
unfolding any
zone_allows lower [] location = true
zone_allows lower (z ∷ zones) location = any (λ zone. lower zone == lower location) (z ∷ zones)

-- `PolicyDecision`: a refusal carries its reason, and the role that could act instead.
pub record PolicyDecision : Type 0 where
  pub allowed : Bool
  pub reason : Option String
  pub requires_role : Option AuthRole

abbrev pub allow : PolicyDecision
allow = record { allowed = true; reason = none; requires_role = none }
