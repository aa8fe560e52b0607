-- ===== src/Permissions.antt =====
-- Who may act as whom (app/core/permissions.py).
pub mod Order
use scales_infrastructure.Prelude.{Bool, true, false, List, [], ◌∷◌, any_of}
use scales_infrastructure.Models.Tables.{Role, admin, kj, singer, owner, account}

-- `ROLE_HIERARCHY`
abbrev pub role_hierarchy : Role → List Role
role_hierarchy admin = admin ∷ owner ∷ kj ∷ singer ∷ []
role_hierarchy owner = owner ∷ kj ∷ singer ∷ []
role_hierarchy kj = kj ∷ singer ∷ []
role_hierarchy singer = singer ∷ []
role_hierarchy account = account ∷ []

abbrev pub same_role : Role → Role → Bool
same_role admin admin = true
same_role kj kj = true
same_role singer singer = true
same_role owner owner = true
same_role account account = true
same_role _ _ = false

-- `has_role` for one required role
unfoldable pub has_role : Role → Role → Bool
has_role user required = any_of (same_role required) (role_hierarchy user)

-- `has_role` for a set of roles, any of which suffices
unfoldable pub has_any_role : Role → List Role → Bool
has_any_role user required = any_of (λ r. any_of (same_role r) required) (role_hierarchy user)
