-- ===== src/Compose/Guard/Roots.antt =====
-- The results of ResolveDirectory and ResolveComposeFile of backend/internal/compose/pathguard.go.
use compose_manager.Base.{Exists, Exists-of_any, ℕ, zero, suc}
use compose_manager.Base.{◌≡◌, refl, ◌⊎◌, inl, inr, true}
use compose_manager.Base.{some, List, [], ◌∷◌, ◌++◌, arith}
use compose_manager.Base.{Bool-cases, Option-cases, length, any}
use compose_manager.Base.{All, Text}
use compose_manager.Filepath.{clean, join_path, dir, base, elements, is_abs, slash}
use compose_manager.Filepath.Elements.{is_abs-clean}
use compose_manager.Filepath.Parent.{is_abs-dir}
use compose_manager.Filepath.Containment.{Within, is_inside-rel_iff}
use compose_manager.Compose.Guard.{
  System, Eval, found, not_exist, failed, Result, ok, err, PathError,
}
use compose_manager.Compose.Guard.{
  abs, rejoin, ascend, eval_symlinks_with_missing_tail, is_below_root, resolve,
}

-- What the operating system promises: the working directory is absolute, and so is what an
-- absolute path evaluates to.
pub record IsUnix (sys : System) : Type 0 where
  pub working_dir_abs : (wd : Text) → sys.working_dir ≡ some wd → is_abs wd ≡ true
  pub eval_abs : (p e : Text) → is_abs p ≡ true → sys.eval_symlinks p ≡ found e → is_abs e ≡ true

is_abs-join_path : (a b : Text) → is_abs a ≡ true → is_abs (join_path a b) ≡ true
unfolding join_path
is_abs-join_path [] b h = cc
is_abs-join_path (c ∷ a) [] h = is_abs-clean (c ∷ a) h
is_abs-join_path (c ∷ a) (d ∷ b) h = is_abs-clean ((c ∷ a) ++ slash ∷ d ∷ b) h

is_abs-rejoin : (e : Text) (names : List Text) → is_abs e ≡ true → is_abs (rejoin e names) ≡ true
unfolding rejoin
is_abs-rejoin e [] h = h
is_abs-rejoin e (n ∷ names) h = is_abs-rejoin (join_path e n) names (is_abs-join_path e n h)

pub Result-cases {ℓ} :
    {A : Type ℓ} (r : Result A) → ((a : A) × (r ≡ ok a)) ⊎ ((e : PathError) × (r ≡ err e))
Result-cases (ok a) = inl (a, refl)
Result-cases (err e) = inr (e, refl)

Eval-cases : (v : Eval) → ((e : Text) × (v ≡ found e)) ⊎ ((v ≡ not_exist) ⊎ (v ≡ failed))
Eval-cases (found e) = inl (e, refl)
Eval-cases not_exist = inr (inl refl)
Eval-cases failed = inr (inr refl)

abs-is_abs : (sys : System) (path a : Text) → IsUnix sys → abs sys path ≡ ok a → is_abs a ≡ true
unfolding abs
abs-is_abs sys path a u h = elim (Bool-cases (is_abs path)) [
  | inl e ↦ ground (arith, e, is_abs-clean path e)
  | inr e ↦ elim (Option-cases sys.working_dir) [
    | inl w ↦ cc (rw (e, w) at h)
    | inr (wd, w) ↦ ground (arith, e, w, is_abs-join_path wd path, u.working_dir_abs wd w)
  ]
]

ascend-is_abs :
    (sys : System) (fuel : ℕ) (path : Text) (names : List Text) (r : Text)
    → IsUnix sys
    → is_abs path ≡ true
    → ascend sys fuel path names ≡ ok r
    → is_abs r ≡ true
unfolding ascend
ascend-is_abs sys zero path names r u a h = cc
ascend-is_abs sys (suc fuel) path names r u a h = elim (Eval-cases (sys.eval_symlinks path)) [
  | inl (e, q) ↦
      ground (arith, q, u.eval_abs path e a q, is_abs-rejoin e names, is_abs-clean (rejoin e names))
  | inr (inl q) ↦
      ground
        (arith, q, ascend-is_abs sys fuel (dir path) (base path ∷ names) r u (is_abs-dir path a))
  | inr (inr q) ↦ ground (arith, q)
]

tail-is_abs :
    (sys : System) (path r : Text)
    → IsUnix sys
    → is_abs path ≡ true
    → eval_symlinks_with_missing_tail sys path ≡ ok r
    → is_abs r ≡ true
unfolding eval_symlinks_with_missing_tail
tail-is_abs sys path r u a h = ascend-is_abs sys (suc (length (elements path))) path [] r u a h

resolve_parts :
    (sys : System) (roots : List Text) (path r : Text)
    → IsUnix sys
    → resolve sys roots path ≡ ok r
    → (is_abs r ≡ true) × (any (is_below_root r) roots ≡ true)
unfolding resolve
resolve_parts sys roots path r u h = elim (Result-cases (abs sys path)) [
  | inl (a, q) ↦ elim (Result-cases (eval_symlinks_with_missing_tail sys (clean a))) [
    | inl (b, p) ↦ elim (Bool-cases (any (is_below_root b) roots)) [
      | inl t ↦
          let same_path : b ≡ r = ground (arith, q, p, t, h) in
          rw (← same_path)
            (tail-is_abs sys (clean a) b u (is_abs-clean a (abs-is_abs sys path a u q)) p, t)
      | inr t ↦ cc (rw (q, p, t) at h)
    ]
    | inr (x, p) ↦ cc (rw (q, p) at h)
  ]
  | inr (x, q) ↦ cc (rw q at h)
]

below_roots :
    (r : Text) (roots : List Text)
    → is_abs r ≡ true
    → All (λ root. is_abs root ≡ true) roots
    → Exists (λ root. is_below_root r root ≡ true) roots
    → Exists (λ root. Within (elements root) (elements r)) roots
unfolding is_below_root
below_roots r [] a h e = elim e [ ]
below_roots r (root ∷ roots) a (h, hs) (inl e) = inl ((is_inside-rel_iff root r h a).0 e)
below_roots r (root ∷ roots) a (h, hs) (inr e) = inr (below_roots r roots a hs e)

-- A path that the guard accepts is absolute, and its elements begin with those of a root.
pub resolve_sound :
    (sys : System) (roots : List Text) (path r : Text)
    → IsUnix sys
    → All (λ root. is_abs root ≡ true) roots
    → resolve sys roots path ≡ ok r
    → (is_abs r ≡ true) × Exists (λ root. Within (elements root) (elements r)) roots
resolve_sound sys roots path r u abs_roots h =
    let (absolute, below) = resolve_parts sys roots path r u h in
    (absolute, below_roots r roots absolute abs_roots (Exists-of_any (is_below_root r) roots below))
