-- ===== src/Compose/Guard.antt =====
-- The path guard: backend/internal/compose/pathguard.go, and PathContains and RemovalDirectory of
-- backend/internal/compose/removal.go. The file system at the time of a call is a `System`.
pub mod Ascent
pub mod Roots
pub mod Removal
mod Tests
use compose_manager.Base.{ℕ, zero, suc, ◌+◌, ◌-◌, ◌*◌, ◌/◌, ◌%◌, ◌^◌, ◌≤◌, ◌<◌, ◌≡◌, refl, sym}
use compose_manager.Base.{
  ap, ◌∙◌, ◌≢◌, ◌↔◌, ◌⊎◌, inl, inr, Bool, true, false, not, ◌&&◌, ◌||◌, Option,
}
use compose_manager.Base.{
  none, some, List, [], ◌∷◌, ◌++◌, map, arith, ltb, leb, ◌==◌, if◌then◌else◌, ==_iff, Bool-cases,
}
use compose_manager.Base.{
  Option-cases, and_true, and_intro, or_false, length, take, drop, all, any, filter, length-append,
  length-take, length-drop, take-append-drop,
}
use compose_manager.Base.{
  All, All-append, All-mono, All-filter, All-filter_test, All-of_all, length-filter, All-of_any,
  Text, codes, same, same_iff, same_refl, same_sym,
}
use compose_manager.Base.{
  is_empty, has_prefix, contains, has_byte, split, join, is_space, trim_left, trim_right,
  trim_space, lower_byte, to_lower, last_piece, but_last,
}
use compose_manager.Base.{
  Map, lookup, insert, remove, purge, lookup-insert, lookup-remove, Unique, Unique-insert,
  Unique-remove, unless, lookup-purge, Unique-purge,
}
use compose_manager.Filepath.{clean, join_path, dir, base, rel, elements, is_abs}
use compose_manager.Filepath.Containment.{is_inside}

-- `filepath.EvalSymlinks`: the path found, `os.IsNotExist`, or another error.
pub data Eval : Type 0 where
  found : Text → Eval
  not_exist failed : Eval

-- `os.Stat`: its error, or what stands there.
pub data Kind : Type 0 where
  absent regular directory special : Kind

pub record System : Type 0 where
  pub working_dir : Option Text
  pub eval_symlinks : Text → Eval
  pub stat : Text → Kind
  -- The mount points of /proc/self/mountinfo, unescaped; `none` where it cannot be read.
  pub mount_points : Option (List Text)

pub data PathError : Type 0 where
  no_root outside_roots unresolved unsupported_name not_regular absent_path : PathError
  symlinked contains_root not_directory mounts_unreadable contains_mount out_of_rounds : PathError

pub data Result {ℓ} (A : Type ℓ) : Type ℓ where
  ok : A → Result A
  err : PathError → Result A

infixl 5 ◌>>=◌
abbrev pub ◌>>=◌ {ℓ κ} : {A : Type ℓ} {B : Type κ} → Result A → (A → Result B) → Result B
ok a >>= f = f a
err e >>= f = err e

abbrev pub guard : Bool → PathError → Result (Unit {0})
guard true e = ok tt
guard false e = err e

infixl 5 ◌>>◌
abbrev pub ◌>>◌ {ℓ} : {B : Type ℓ} → Result (Unit {0}) → Result B → Result B
m >> k = m >>= λ _. k

-- `filepath.Abs`.
unfoldable pub abs : System → Text → Result Text
abs sys path =
    if is_abs path
    then ok (clean path)
    else elim sys.working_dir [ none ↦ err unresolved | some wd ↦ ok (join_path wd path) ]

unfoldable pub path_contains : Text → Text → Bool
path_contains parent child = is_inside (rel (clean parent) (clean child))

-- The missing names, put back below what was found, the outermost first.
unfoldable pub rejoin : Text → List Text → Text
rejoin evaluated [] = evaluated
rejoin evaluated (name ∷ missing) = rejoin (join_path evaluated name) missing

-- The round of the loop at a path that does not exist, and the rounds after it.
unfoldable pub ascend : System → ℕ → Text → List Text → Result Text
ascend sys zero current names = err out_of_rounds
ascend sys (suc fuel) current names =
    let next = ascend sys fuel (dir current) (base current ∷ names) in
    elim (sys.eval_symlinks current) [
      | found evaluated ↦ ok (clean (rejoin evaluated names))
      | not_exist ↦ if same (dir current) current then err unresolved else next
      | failed ↦ err unresolved
    ]

-- Each round of the loop drops one element of the path: there are as many rounds as it has elements, and
-- one for the root.
unfoldable pub eval_symlinks_with_missing_tail : System → Text → Result Text
eval_symlinks_with_missing_tail sys path = ascend sys (suc (length (elements path))) path []

-- The test of one root: `relative` stays below it.
unfoldable pub is_below_root : Text → Text → Bool
is_below_root absolute root = is_inside (rel root absolute)

unfoldable pub resolve : System → List Text → Text → Result Text
resolve sys roots path = do
  absolute ← abs sys path
  resolved ← eval_symlinks_with_missing_tail sys (clean absolute)
  guard (any (is_below_root resolved) roots) outside_roots
  ok resolved

-- One root of the configuration.
new_root : System → Text → Result Text
new_root sys root = do
  absolute ← abs sys root
  ok (elim (sys.eval_symlinks (clean absolute)) [
    | found evaluated ↦ evaluated
    | _ ↦ clean absolute
  ])

new_roots : System → List Text → Result (List Text)
new_roots sys [] = ok []
new_roots sys (root ∷ roots) = do
  first ← new_root sys root
  rest ← new_roots sys roots
  ok (first ∷ rest)

pub new_path_guard : System → List Text → Result (List Text)
new_path_guard sys roots = do
  resolved ← new_roots sys roots
  guard (ltb 0 (length resolved)) no_root
  ok resolved

unfoldable pub is_compose_filename : Text → Bool
is_compose_filename name =
    let lower = to_lower name in
    same lower (codes "compose.yaml")
    || (same lower (codes "compose.yml")
        || (same lower (codes "docker-compose.yaml") || same lower (codes "docker-compose.yml")))

unfoldable pub check_regular : Kind → Text → Result Text
check_regular absent resolved = err absent_path
check_regular regular resolved = ok resolved
check_regular directory resolved = err not_regular
check_regular special resolved = err not_regular

unfoldable pub resolve_compose_file : System → List Text → Text → Result Text
resolve_compose_file sys roots path = do
  resolved ← resolve sys roots path
  guard (is_compose_filename (base resolved)) unsupported_name
  check_regular (sys.stat resolved) resolved

pub check_directory : Kind → Result (Unit {0})
check_directory absent = err absent_path
check_directory regular = err not_directory
check_directory directory = ok tt
check_directory special = err not_directory

pub check_removal_mounts : System → Text → Result (Unit {0})
check_removal_mounts sys path = elim sys.mount_points [
  | none ↦ err mounts_unreadable
  | some points ↦ guard (not (any (path_contains path) points)) contains_mount
]

unfoldable pub removal_directory : System → List Text → Text → Result Text
removal_directory sys roots path = do
  resolved ← resolve sys roots path
  absolute ← abs sys path
  guard (same (clean absolute) resolved) symlinked
  guard (not (any (path_contains resolved) roots)) contains_root
  check_directory (sys.stat resolved)
  check_removal_mounts sys resolved
  ok resolved
