-- ===== src/Compose/Keys.antt =====
-- `normalizeProjectKey` of backend/internal/compose/discovery.go, and `safeSegment` of editor.go.
pub mod Identifiers
mod Tests
use compose_manager.Base.{ℕ, zero, suc, ◌-◌}
use compose_manager.Base.{Bool, true, false, not, ◌&&◌, ◌||◌}
use compose_manager.Base.{[], ◌∷◌, ◌++◌, ltb, leb, ◌==◌, if◌then◌else◌}
use compose_manager.Base.{length, take}
use compose_manager.Base.{Text, codes, is_empty}
use compose_manager.Base.{trim_left, trim_right, trim_space, to_lower}

-- A byte that a key keeps.
abbrev pub is_key_byte : ℕ → Bool
is_key_byte c =
    (leb b'a' c && leb c b'z')
    || ((leb b'0' c && leb c b'9') || ((c == b'-') || ((c == b'_') || (c == b'.'))))

-- How many bytes follow the first byte of a rune of UTF-8, and the bounds of the second byte.
abbrev followers : ℕ → ℕ
followers c =
    if leb 194 c && leb c 223
    then 1
    else if leb 224 c && leb c 239
    then 2
    else if leb 240 c && leb c 244
    then 3
    else 0

abbrev second_from : ℕ → ℕ
second_from c = if c == 224 then 160 else if c == 240 then 144 else 128

abbrev second_to : ℕ → ℕ
second_to c = if c == 237 then 159 else if c == 244 then 143 else 191

-- The next bytes, so many, continue a rune.
unfoldable pub continued : ℕ → Text → Bool
continued zero s = true
continued (suc n) [] = false
continued (suc n) (c ∷ s) = (leb 128 c && leb c 191) && continued n s

-- How many bytes belong to the rune that a byte begins, that byte aside: a byte that begins none is a
-- rune of its own, as it is for `range` in Go.
unfoldable pub rest_of_rune : ℕ → Text → ℕ
rest_of_rune c [] = 0
rest_of_rune c (d ∷ s) =
    if (leb (second_from c) d && leb d (second_to c)) && continued (followers c - 1) s
    then followers c
    else 0

-- The builder, with so many bytes of a rune to skip: each other rune is a hyphen, once there is
-- something in front of it.
unfoldable pub spelled : Bool → ℕ → Text → Text
spelled begun skipped [] = []
spelled begun (suc skipped) (c ∷ s) = spelled begun skipped s
spelled begun zero (c ∷ s) =
    let rest = spelled (begun || is_key_byte c) (rest_of_rune c s) s in
    if is_key_byte c then c ∷ rest else if begun then b'-' ∷ rest else rest

abbrev is_edge : ℕ → Bool
is_edge c = (c == b'-') || ((c == b'_') || (c == b'.'))

-- `strings.Trim` with a set of bytes.
unfoldable pub trim : (ℕ → Bool) → Text → Text
unfolding trim_right trim_left
trim p s = trim_right p (trim_left p s)

-- `digest` is the beginning of SHA-256 in hexadecimal, 8 bytes.
unfoldable pub normalize_project_key : (Text → Text) → Text → Text
normalize_project_key digest name =
    let lowered = to_lower (trim_space name) in
    let trimmed = trim is_edge (spelled false 0 lowered) in
    let key = if is_empty trimmed then codes "project-" ++ digest lowered else trimmed in
    if ltb 128 (length key) then take 128 key else key

-- `safeSegment`.
unfoldable pub safe_segment : (Text → Text) → Text → Text
safe_segment digest value = trim (λ c. c == b'.') (normalize_project_key digest value)
