-- ===== src/Compose/Guard/Removal.antt =====
-- Which directories the guard offers for removal.
use compose_manager.Base.{Exists}
use compose_manager.Base.{◌≡◌, refl, ◌↔◌, inl, inr, Bool, true, false}
use compose_manager.Base.{not, some, List, [], ◌∷◌, arith}
use compose_manager.Base.{Option-cases, any}
use compose_manager.Base.{All, All-of_any, Text}
use compose_manager.Base.{same, same_iff}
use mathlib.Core.Path.{subst}
use compose_manager.Filepath.{clean, elements, is_abs}
use compose_manager.Filepath.Elements.{is_abs-clean, elements-clean}
use compose_manager.Filepath.Containment.{Within, is_inside-rel_iff}
use compose_manager.Compose.Guard.{
  System, Kind, directory, Result, ok, err, PathError, guard, ◌>>=◌, ◌>>◌,
}
use compose_manager.Compose.Guard.{
  abs, path_contains, resolve, check_directory, check_removal_mounts, removal_directory,
}
use compose_manager.Compose.Guard.Roots.{IsUnix, resolve_sound}

-- `PathContains` of two absolute paths holds exactly when the elements of the child begin with
-- those of the parent, whatever "." and ".." and slashes either path is written with.
pub path_contains_iff :
    (parent child : Text)
    → is_abs parent ≡ true
    → is_abs child ≡ true
    → (path_contains parent child ≡ true) ↔ Within (elements parent) (elements child)
unfolding path_contains
path_contains_iff parent child p c =
    rw (← elements-clean parent p, ← elements-clean child c)
      (is_inside-rel_iff (clean parent) (clean child) (is_abs-clean parent p)
        (is_abs-clean child c))

guard_ok :
    {A : Type 0} (b : Bool) (e : PathError) (k : Result A) (a : A)
    → (guard b e >> k) ≡ ok a
    → (b ≡ true) × (k ≡ ok a)
guard_ok true e k a h = (refl, h)
guard_ok false e k a h = cc

bind_ok :
    {A B : Type 0} (m : Result A) (f : A → Result B) (b : B)
    → (m >>= f) ≡ ok b
    → (a : A) × (m ≡ ok a) × (f a ≡ ok b)
bind_ok (ok a) f b h = (a, refl, h)
bind_ok (err e) f b h = cc

returned_same : {A : Type 0} (a b : A) → ok a ≡ ok b → a ≡ b
returned_same a b h = cc

not-true : (b : Bool) → not b ≡ true → b ≡ false
not-true b h = ground arith

check_directory_ok : (k : Kind) → check_directory k ≡ ok tt → k ≡ directory
unfolding check_directory
check_directory_ok directory h = refl
check_directory_ok _ h = cc

check_mounts_ok :
    (sys : System) (r : Text)
    → check_removal_mounts sys r ≡ ok tt
    → (ps : List Text) × (sys.mount_points ≡ some ps) × (any (path_contains r) ps ≡ false)
unfolding check_removal_mounts
check_mounts_ok sys r h = elim (Option-cases sys.mount_points) [
  | inl q ↦ cc (rw q at h)
  | inr (ps, q) ↦ (ps, q, ground (arith, q, h))
]

-- What was checked of a directory that is offered for removal.
pub record IsRemovable (sys : System) (roots : List Text) (path r : Text) : Type 0 where
  pub resolved : resolve sys roots path ≡ ok r
  pub no_symlink : (a : Text) × (abs sys path ≡ ok a) × (clean a ≡ r)
  pub no_root : any (path_contains r) roots ≡ false
  pub is_directory : sys.stat r ≡ directory
  pub no_mount :
      (ps : List Text) × (sys.mount_points ≡ some ps) × (any (path_contains r) ps ≡ false)

-- A directory that `RemovalDirectory` offers was resolved below a root, is the path itself and no
-- symbolic link to it, holds no scan root and no mount point, and is a directory.
pub removal_directory_lem :
    (sys : System) (roots : List Text) (path r : Text)
    → removal_directory sys roots path ≡ ok r
    → IsRemovable sys roots path r
unfolding removal_directory
removal_directory_lem sys roots path r h =
    let (r', resolved, h₁) = bind_ok (resolve sys roots path) _ r h in
    let (a, absolute, h₂) = bind_ok (abs sys path) _ r h₁ in
    let (linked, h₃) = guard_ok (same (clean a) r') _ _ r h₂ in
    let (rootless, h₄) = guard_ok (not (any (path_contains r') roots)) _ _ r h₃ in
    let (u, is_dir, h₅) = bind_ok (check_directory (sys.stat r')) _ r h₄ in
    let (v, mounts, h₆) = bind_ok (check_removal_mounts sys r') _ r h₅ in
    subst (IsRemovable sys roots path) (returned_same r' r h₆) (record {
      resolved = resolved;
      no_symlink = (a, absolute, (same_iff (clean a) r').0 linked);
      no_root = not-true (any (path_contains r') roots) rootless;
      is_directory = check_directory_ok (sys.stat r') is_dir;
      no_mount = check_mounts_ok sys r' mounts;
    })

not-Within :
    (roots : List Text) (r : Text)
    → is_abs r ≡ true
    → All (λ root. is_abs root ≡ true) roots
    → All (λ root. path_contains r root ≡ false) roots
    → All (λ root. ¬ Within (elements r) (elements root)) roots
not-Within [] r a h k = tt
not-Within (root ∷ roots) r a (h, hs) (k, ks) =
    ((λ w. cc (k, (path_contains_iff r root a h).1 w)), not-Within roots r a hs ks)

-- On a Unix system with absolute roots a directory that may be removed lies below a root, and no
-- root lies in it or is it.
pub removal_directory_below_root :
    (sys : System) (roots : List Text) (path r : Text)
    → IsUnix sys
    → All (λ root. is_abs root ≡ true) roots
    → removal_directory sys roots path ≡ ok r
    → Exists (λ root. Within (elements root) (elements r)) roots
      × All (λ root. ¬ Within (elements r) (elements root)) roots
removal_directory_below_root sys roots path r u a h =
    let v = removal_directory_lem sys roots path r h in
    let (abs_r, below) = resolve_sound sys roots path r u a v.resolved in
    (below, not-Within roots r abs_r a (All-of_any (path_contains r) roots v.no_root))
