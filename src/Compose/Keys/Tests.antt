-- ===== src/Compose/Keys/Tests.antt =====
-- The keys of backend/internal/compose/discovery.go at a concrete name.

use compose_manager.Base.{◌≡◌, true, refl, codes}
use compose_manager.Compose.Identifier.{is_identifier}
use compose_manager.Compose.Keys.{normalize_project_key}
use compose_manager.Compose.Keys.Identifiers.{normalize_project_key-is_identifier}

normalize_project_key-is_identifier_example :
    is_identifier (normalize_project_key (λ text. codes "0a1b2c3d") (codes " My App! ")) ≡ true
normalize_project_key-is_identifier_example =
    normalize_project_key-is_identifier (λ text. codes "0a1b2c3d") (codes " My App! ")
      (λ text. refl)
