-- ===== src/Host/Settings.antt =====
-- The configuration of the runtime host as a function of its variables, `HostConfig::from_env` of
-- cert/beamscale-critical-section/infra-runtime-host/src/lib.rs.
use rust_app.Prelude.{ap, arith, ℕ, ◌≤◌, ◌≡◌, ◌↔◌, Bool, true, Option, none, some, u32_max, u64_max}
use rust_app.Prelude.Text.{Text, bytes, text_eq, text_eq_iff}
use rust_app.Host.Types.{BackendKind}
use rust_app.Host.Path.{decimal}
use rust_app.Host.Decimal.{parse_u32-decimal, parse_u64-decimal}
use rust_app.Host.Config.{Variables, var, unwrap_or, is_one, select_backend, from_env}

chosen :
    (s : Text) (b : Bool)
    → select_backend s b ≡ BackendKind.mock
    → (text_eq s (bytes "mock") ≡ true) × (b ≡ true)
unfolding select_backend
chosen s b h = ground arith

select_backend-mock :
    (asked allowed : Option Text)
    → (select_backend (unwrap_or asked (bytes "firecracker")) (is_one allowed) ≡ BackendKind.mock)
      ↔ ((asked ≡ some (bytes "mock")) × (allowed ≡ some (bytes "1")))
unfolding is_one select_backend
select_backend-mock none allowed = (
  λ h. absurd (cc ((text_eq_iff (bytes "firecracker") (bytes "mock")).0 (chosen _ _ h).0)),
  λ h. cc,
)
select_backend-mock (some x) none = (λ h. absurd (cc ((chosen _ _ h).1)), λ h. cc)
select_backend-mock (some x) (some y) = (
  λ h.
      let (asked, allowed) = chosen _ _ h in
      (
        ap some ((text_eq_iff x (bytes "mock")).0 asked),
        ap some ((text_eq_iff y (bytes "1")).0 allowed),
      ),
  λ h. rw (
    (text_eq_iff x (bytes "mock")).1 (cc h.0),
    (text_eq_iff y (bytes "1")).1 (cc h.1),
    select_backend,
  ),
)

-- The mock backend is chosen exactly if the backend variable asks for it and the variable that
-- allows it is "1".
pub from_env-mock :
    (v : Variables)
    → ((from_env v).backend ≡ BackendKind.mock) ↔ (
        (var v (bytes "BMSCL_RUNTIME_BACKEND") ≡ some (bytes "mock"))
        × (var v (bytes "BMSCL_ALLOW_MOCK_BACKEND") ≡ some (bytes "1")))
unfolding from_env
from_env-mock v =
    select_backend-mock (var v (bytes "BMSCL_RUNTIME_BACKEND"))
      (var v (bytes "BMSCL_ALLOW_MOCK_BACKEND"))

-- Numbers in range that are put into the variables in decimal are the jailer's user and group, the
-- overhead and the timeout of the configuration.
pub from_env-decimal :
    (v : Variables) (uid gid overhead timeout : ℕ)
    → uid ≤ u32_max
    → gid ≤ u32_max
    → overhead ≤ u32_max
    → timeout ≤ u64_max
    → var v (bytes "BMSCL_JAILER_UID") ≡ some (decimal uid)
    → var v (bytes "BMSCL_JAILER_GID") ≡ some (decimal gid)
    → var v (bytes "BMSCL_VMM_OVERHEAD_MIB") ≡ some (decimal overhead)
    → var v (bytes "BMSCL_FIRECRACKER_API_TIMEOUT_MS") ≡ some (decimal timeout)
    → ((from_env v).jailer_uid ≡ uid)
      × ((from_env v).jailer_gid ≡ gid)
      × ((from_env v).vmm_overhead_mib ≡ overhead)
      × ((from_env v).api_socket_timeout_ms ≡ timeout)
unfolding from_env
from_env-decimal v uid gid overhead timeout u g o t e_uid e_gid e_overhead e_timeout = (
  rw (e_uid, parse_u32-decimal uid u),
  rw (e_gid, parse_u32-decimal gid g),
  rw (e_overhead, parse_u32-decimal overhead o),
  rw (e_timeout, parse_u64-decimal timeout t),
)
