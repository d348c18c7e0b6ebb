-- ===== src/App/Removal/Delete/Rechecked.antt =====
-- The check between the containers and the files in DeleteProject of
-- backend/internal/app/project_removal.go.
use compose_manager.Base.{◌≡◌, refl}
use compose_manager.Base.{inl, inr, true, false, Option, none, some, List}
use compose_manager.Base.{Bool-cases, and_true}
use compose_manager.Base.{any}
use compose_manager.Base.{same_iff}
use compose_manager.App.Removal.{RemovalPlan, Planned, planned, refused, Blocked}
use compose_manager.App.Removal.Plan.{removal_plan}
use compose_manager.App.Removal.Delete.{
  Effect, Env, RemovalRequest, kept_directory, unchanged, is_container, recheck_fresh,
  recheck_planned, recheck_plan, compose_changed, new_container,
}

kept_directory-none : (o : Option Blocked) → kept_directory o ≡ none → o ≡ none
unfolding kept_directory
kept_directory-none none h = refl
kept_directory-none (some b) h = cc

-- The plan made anew, which the second check accepts.
pub Rechecked : Env → RemovalPlan → RemovalRequest → List Effect → RemovalPlan → Type 0
Rechecked env plan request t fresh =
    (removal_plan (env.world t) plan.key ≡ planned fresh)
    × ((fresh.config_sha ≡ plan.config_sha)
        × ((fresh.file ≡ plan.file)
            × ((fresh.directory ≡ plan.directory)
                × ((any is_container fresh.items ≡ false)
                    × (request.directory ≡ true → fresh.directory_blocked ≡ none)))))

recheck_fresh-none :
    (plan : RemovalPlan) (request : RemovalRequest) (fresh : RemovalPlan)
    → recheck_fresh plan request fresh ≡ none
    → (unchanged fresh plan ≡ true)
      × ((any is_container fresh.items ≡ false)
          × (request.directory ≡ true → fresh.directory_blocked ≡ none))
unfolding recheck_fresh
recheck_fresh-none plan request fresh h = elim (Bool-cases (unchanged fresh plan)) [
  | inr e ↦ (let h' : some compose_changed ≡ none = rw e at h in cc)
  | inl e ↦ elim (Bool-cases (any is_container fresh.items)) [
    | inl c ↦ (let h' : some new_container ≡ none = rw (e, c) at h in cc)
    | inr c ↦ (e, (c, λ d. kept_directory-none fresh.directory_blocked (rw (e, c, d) at h)))
  ]
]

Rechecked-of_planned :
    (env : Env) (plan : RemovalPlan) (request : RemovalRequest) (t : List Effect)
    (o : Planned RemovalPlan)
    → removal_plan (env.world t) plan.key ≡ o
    → recheck_planned plan request o ≡ none
    → (fresh : RemovalPlan) × Rechecked env plan request t fresh
unfolding recheck_planned Rechecked
Rechecked-of_planned env plan request t (refused e) q h = cc
Rechecked-of_planned env plan request t (planned fresh) q h =
    let (same_source, (gone, free)) = recheck_fresh-none plan request fresh h in
    let (digest, rest) = and_true _ _ same_source in
    let (file, directory) = and_true _ _ rest in
    (
      fresh,
      (
        q,
        (
          (same_iff _ _).0 digest,
          ((same_iff _ _).0 file, ((same_iff _ _).0 directory, (gone, free))),
        ),
      ),
    )

-- The second check passes only on a plan that is made from what is read at that time: it has the file,
-- the directory and the digest of the file of the first plan, it lists no container, and its directory
-- is free if the request removes it.
pub recheck_plan-Rechecked :
    (env : Env) (plan : RemovalPlan) (request : RemovalRequest) (t : List Effect)
    → recheck_plan env plan request t ≡ none
    → (fresh : RemovalPlan) × Rechecked env plan request t fresh
unfolding recheck_plan
recheck_plan-Rechecked env plan request t h =
    Rechecked-of_planned env plan request t (removal_plan (env.world t) plan.key) refl h
