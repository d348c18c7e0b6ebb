-- ===== src/Compose/Identifier.antt =====
-- The pattern ^[a-zA-Z0-9][a-zA-Z0-9_.-]{0,127}$ of backend/internal/compose/runner.go, which
-- project_removal.go repeats.
use compose_manager.Base.{ℕ}
use compose_manager.Base.{Bool, false, ◌&&◌, ◌||◌, [], ◌∷◌}
use compose_manager.Base.{leb, ◌==◌, length}
use compose_manager.Base.{all}
use compose_manager.Base.{Text}

abbrev pub is_alphanumeric : ℕ → Bool
is_alphanumeric c =
    (leb b'a' c && leb c b'z') || ((leb b'A' c && leb c b'Z') || (leb b'0' c && leb c b'9'))

abbrev pub is_name_byte : ℕ → Bool
is_name_byte c = is_alphanumeric c || ((c == b'_') || ((c == b'.') || (c == b'-')))

unfoldable pub is_identifier : Text → Bool
is_identifier [] = false
is_identifier (c ∷ s) = is_alphanumeric c && (all is_name_byte s && leb (length s) 127)
