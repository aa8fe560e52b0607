-- ===== src/Tests/PermissionRuns.antt =====
-- Runs of app/core/permissions.py.
use scales_infrastructure.Prelude.{◌≡◌, refl, true, false}
use scales_infrastructure.Models.Tables.{admin, singer, kj}
use scales_infrastructure.Permissions.{has_role}

admin_as_kj : has_role admin kj ≡ true
unfolding has_role
admin_as_kj = refl

singer_as_kj : has_role singer kj ≡ false
unfolding has_role
singer_as_kj = refl
