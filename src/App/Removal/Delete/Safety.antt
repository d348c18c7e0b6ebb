-- ===== src/App/Removal/Delete/Safety.antt =====
-- DeleteProject of backend/internal/app/project_removal.go as a whole.
use compose_manager.Base.{◌≡◌}
use compose_manager.Base.{inr, []}
use compose_manager.Base.{Text}
use compose_manager.App.Removal.{RemovalPlan, planned}
use compose_manager.App.Removal.Plan.{removal_plan}
use compose_manager.App.Removal.Delete.{Env, RemovalRequest, Report}
use compose_manager.App.Removal.Delete.Steps.{
  AllJustified, execute-AllJustified, start-AllJustified,
}
use compose_manager.App.Removal.Delete.Tickets.{
  Service, delete_project, delete_project-Accepted, start_report,
}

-- For a request that is executed there is a plan, made anew from what is read before any effect, for
-- which every effect on the host is justified by those before it: only containers of the plan are
-- stopped or removed; the directory or the Compose file is removed only as the request says and after
-- the second check; an image or a volume is removed only if the request selects it, the plan lists it
-- with no reason to keep it, and it passes the last check; and all of it only after a backup of the
-- Compose file that succeeded.
pub delete_project-AllJustified :
    (env : Env) (s : Service) (key : Text) (request : RemovalRequest) (report : Report)
    → (delete_project env s key request).0 ≡ inr report
    → (plan : RemovalPlan) × ((removal_plan (env.world []) key ≡ planned plan)
        × AllJustified env plan request report.trace)
delete_project-AllJustified env s key request report h =
    let a = delete_project-Accepted env s key request report h in
    (
      a.plan,
      (
        a.replanned,
        rw a.executed (
            execute-AllJustified env a.plan request start_report
              (start-AllJustified env a.plan request)),
      ),
    )
