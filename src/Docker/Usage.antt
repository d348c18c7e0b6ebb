-- ===== src/Docker/Usage.antt =====
-- memoryUsage, splitImage, ParseTail and the checks of RemoveProjectResource, of
-- backend/internal/docker/engine.go and removal.go.
mod Tests
use compose_manager.Base.{
  if_cases, text_lt, put_sorted, sort_by, All-sort_by, Never, Exists, Exists-mono, Exists-of_any, ℕ,
  zero, suc, ◌+◌, ◌-◌,
}
use compose_manager.Base.{◌*◌, ◌/◌, ◌%◌, ◌^◌, ◌≤◌, ◌<◌, ◌≡◌, refl, sym, ap, ◌∙◌, ◌≢◌, ◌↔◌, ◌⊎◌}
use compose_manager.Base.{
  inl, inr, Bool, true, false, not, ◌&&◌, ◌||◌, Option, none, some, List, [], ◌∷◌,
}
use compose_manager.Base.{
  ◌++◌, map, arith, ltb, leb, ◌==◌, if◌then◌else◌, ==_iff, Bool-cases, Option-cases, and_true,
  and_intro, or_false, length,
}
use compose_manager.Base.{
  take, drop, all, any, filter, length-append, length-take, length-drop, take-append-drop, All,
  All-append, All-mono, All-filter, All-filter_test,
}
use compose_manager.Base.{
  All-of_all, length-filter, All-of_any, Text, codes, same, same_iff, same_refl, same_sym, is_empty,
  has_prefix, contains, has_byte, split,
}
use compose_manager.Base.{
  join, is_space, trim_left, trim_right, trim_space, lower_byte, to_lower, last_piece, but_last,
  Map, lookup, insert, remove, purge,
}
use compose_manager.Base.{
  lookup-insert, lookup-remove, Unique, Unique-insert, Unique-remove, unless, lookup-purge,
  Unique-purge,
}
use compose_manager.App.Removal.{ItemKind, container, image, volume}
use compose_manager.Compose.Identifier.{is_alphanumeric, is_name_byte}

pub record MemoryStats : Type 0 where
  pub usage : ℕ
  pub active_file : ℕ
  pub inactive_file : ℕ
  pub total_active_file : ℕ
  pub total_inactive_file : ℕ
  pub cache : ℕ
  pub total_cache : ℕ

-- The sum of two unsigned integers of 64 bits.
abbrev pub add64 : ℕ → ℕ → ℕ
add64 a b = (a + b) % 18446744073709551616

abbrev larger : ℕ → ℕ → ℕ
larger candidate best = if ltb best candidate then candidate else best

pub reclaimable : MemoryStats → ℕ
reclaimable m = larger m.total_cache (
    larger m.cache (
      larger (add64 m.total_active_file m.total_inactive_file)
        (add64 m.active_file m.inactive_file)))

pub memory_usage : MemoryStats → ℕ
memory_usage m = if leb m.usage (reclaimable m) then 0 else m.usage - reclaimable m

-- The four figures of file caches; the sums are those of 64 bits.
abbrev pub cache_figures : MemoryStats → List ℕ
cache_figures m =
    add64 m.active_file m.inactive_file
    ∷ add64 m.total_active_file m.total_inactive_file
    ∷ m.cache
    ∷ m.total_cache
    ∷ []

larger-Cases : (a b : ℕ) → (larger a b ≡ a) ⊎ (larger a b ≡ b)
larger-Cases a b = elim (Bool-cases (ltb b a)) [ inl e ↦ inl (rw e refl) | inr e ↦ inr (rw e refl) ]

reclaimable-figure : (m : MemoryStats) → Exists (λ f. reclaimable m ≡ f) (cache_figures m)
unfolding reclaimable
reclaimable-figure m =
    let own = add64 m.active_file m.inactive_file in
    let total = add64 m.total_active_file m.total_inactive_file in
    elim (larger-Cases m.total_cache (larger m.cache (larger total own))) [
      | inl q ↦ inr (inr (inr (inl q)))
      | inr q ↦ (elim (larger-Cases m.cache (larger total own)) [
        | inl q' ↦ inr (inr (inl (q ∙ q')))
        | inr q' ↦ (elim (larger-Cases total own) [
          | inl q'' ↦ inr (inl (q ∙ q' ∙ q''))
          | inr q'' ↦ inl (q ∙ q' ∙ q'')
        ])
      ])
    ]

memory_usage-left : (m : MemoryStats) → memory_usage m ≡ m.usage - reclaimable m
unfolding memory_usage
memory_usage-left m = ground arith

-- Of the four figures of file caches that Docker reports, what is shown is the usage less one of them,
-- and no more than the usage less any of them, each difference stopping at 0.
pub memory_usage-Least :
    (m : MemoryStats)
    → Exists (λ f. memory_usage m ≡ m.usage - f) (cache_figures m)
      × All (λ f. memory_usage m ≤ m.usage - f) (cache_figures m)
unfolding memory_usage reclaimable
memory_usage-Least m = (
  Exists-mono {P = λ f. reclaimable m ≡ f} {Q = λ f. memory_usage m ≡ m.usage - f}
      (λ f q. memory_usage-left m ∙ ap (λ x. m.usage - x) q) (cache_figures m)
      (reclaimable-figure m),
  (ground arith, (ground arith, (ground arith, (ground arith, tt)))),
)

-- `ParseTail`, of the number read, if one was read; it may be negative, which counts as none.
pub parse_tail : Option ℕ → ℕ
parse_tail none = 200
parse_tail (some n) = if ltb n 1 then 200 else if ltb 5000 n then 5000 else n

-- The identifier of a container or an image: 64 hexadecimal digits.
abbrev is_hex : ℕ → Bool
is_hex c = (leb b'0' c && leb c b'9') || (leb b'a' c && leb c b'f')

pub is_resource_id : Text → Bool
is_resource_id id = (length id == 64) && all is_hex id

-- A volume's name: a letter or digit, then at most 255 of them or of `_`, `.` and `-`.
pub is_volume_name : Text → Bool
is_volume_name [] = false
is_volume_name (c ∷ s) = is_alphanumeric c && (all is_name_byte s && leb (length s) 255)

-- Which identifiers `RemoveProjectResource` sends to Docker.
pub is_removable : ItemKind → Text → Bool
is_removable container id = is_resource_id id
is_removable volume id = is_volume_name id
is_removable image id =
    (length id == 71) && (same (take 7 id) (codes "sha256:") && is_resource_id (drop 7 id))

-- A byte that has no meaning of its own in the path of a URL.
abbrev pub is_path_safe : ℕ → Bool
is_path_safe c = not ((c == b'/') || ((c == b'?') || ((c == b'#') || (c == b'%'))))

all_mono :
    (p q : ℕ → Bool) (f : (c : ℕ) → p c ≡ true → q c ≡ true) (xs : Text)
    → all p xs ≡ true
    → all q xs ≡ true
all_mono p q f [] h = refl
all_mono p q f (x ∷ xs) h =
    let (here, later) = and_true (p x) (all p xs) h in
    and_intro (q x) (all q xs) (f x here) (all_mono p q f xs later)

is_hex-safe : (c : ℕ) → is_hex c ≡ true → is_path_safe c ≡ true
is_hex-safe c h = ground arith

is_name_byte-safe : (c : ℕ) → is_name_byte c ≡ true → is_path_safe c ≡ true
is_name_byte-safe c h = ground arith

all_append :
    (q : ℕ → Bool) (xs ys : Text) → all q xs ≡ true → all q ys ≡ true → all q (xs ++ ys) ≡ true
all_append q [] ys h k = k
all_append q (x ∷ xs) ys h k =
    let (here, later) = and_true (q x) (all q xs) h in
    and_intro (q x) (all q (xs ++ ys)) here (all_append q xs ys later k)

is_resource_id-safe : (id : Text) → is_resource_id id ≡ true → all is_path_safe id ≡ true
unfolding is_resource_id
is_resource_id-safe id h =
    let (n, hex) = and_true (length id == 64) (all is_hex id) h in
    all_mono is_hex is_path_safe is_hex-safe id hex

is_volume_name-safe : (id : Text) → is_volume_name id ≡ true → all is_path_safe id ≡ true
unfolding is_volume_name
is_volume_name-safe [] h = refl
is_volume_name-safe (c ∷ s) h =
    let (first, rest) = and_true (is_alphanumeric c) (all is_name_byte s && leb (length s) 255) h in
    let (names, n) = and_true (all is_name_byte s) (leb (length s) 255) rest in
    and_intro (is_path_safe c) (all is_path_safe s) (is_name_byte-safe c (ground (arith, first)))
      (all_mono is_name_byte is_path_safe is_name_byte-safe s names)

-- An identifier that is sent to Docker, of a container, an image or a volume, holds no byte that would
-- end or change the path of the request's URL, whether or not it is escaped.
pub is_removable-safe :
    (kind : ItemKind) (id : Text) → is_removable kind id ≡ true → all is_path_safe id ≡ true
unfolding is_removable
is_removable-safe container id h = is_resource_id-safe id h
is_removable-safe volume id h = is_volume_name-safe id h
is_removable-safe image id h =
    let (n, rest) =
      and_true (length id == 71) (same (take 7 id) (codes "sha256:") && is_resource_id (drop 7 id))
        h in
    let (prefix, digest) =
      and_true (same (take 7 id) (codes "sha256:")) (is_resource_id (drop 7 id)) rest in
    let front : all is_path_safe (take 7 id) ≡ true =
      rw ((same_iff (take 7 id) (codes "sha256:")).0 prefix) refl in
    let whole =
      all_append is_path_safe (take 7 id) (drop 7 id) front
        (is_resource_id-safe (drop 7 id) digest) in
    rw (take-append-drop 7 id) at whole
