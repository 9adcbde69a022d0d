-- ===== src/Tenant/Examples.antt =====
-- The theorems on the tenant runtime at concrete values.
use rust_app.Prelude.{◌≡◌, refl, true, List, [], ◌∷◌}
use rust_app.Prelude.Lists.{All}
use rust_app.Tenant.{TenantRuntimeState, cold, hibernated, terminated}
use rust_app.Tenant.Laws.{is_down, walks, stays_down}

abbrev walk : List TenantRuntimeState
walk = terminated ∷ cold ∷ []

walk-walks : walks hibernated walk ≡ true
unfolding walks
walk-walks = refl

stays_down_example : All (λ t. is_down t ≡ true) walk
stays_down_example = stays_down hibernated walk refl walk-walks (λ e. cc, (λ e. cc, tt))
