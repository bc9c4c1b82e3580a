-- ===== src/Tests/Future.antt =====
-- Examples on futures and their callbacks.
use slurm_manager.Base.{◌≡◌, refl, true, false, none, some, [], ◌∷◌, ◌↔◌}
use slurm_manager.Base.Text.{codes}
use slurm_manager.Base.Result.{ok}
use slurm_manager.Future.{
  running, finished, error, success, wait, update_status, register, remove_callback,
}
use slurm_manager.Future.Lifecycle.{
  IsConsistent, update_status-IsConsistent, run, outcome, run_first_terminal, success_iff_finished,
}
use slurm_manager.Future.Callbacks.{
  LacksAll, NoneEmpty, remove_callback-register, remove_callback-eq-false, registry-NoneEmpty,
}
use slurm_manager.Tests.Data.{job, listener}

job-IsConsistent : IsConsistent job
job-IsConsistent = refl

update_status-IsConsistent_example : IsConsistent (update_status finished none job)
update_status-IsConsistent_example = update_status-IsConsistent finished none job job-IsConsistent

run_first_terminal_example :
    let g = run ((running, none) ∷ (error, some (codes "late")) ∷ (finished, none) ∷ []) job in
    (g.status ≡ error) × (g.future ≡ outcome job error (some (codes "late")))
run_first_terminal_example =
    run_first_terminal ((running, none) ∷ []) ((finished, none) ∷ []) error (some (codes "late"))
      job refl (refl, tt) refl

success_iff_finished_example :
    ((success job ≡ true) ↔ (job.status ≡ finished))
    × ((wait job ≡ ok tt) ↔ (job.status ≡ finished))
success_iff_finished_example = success_iff_finished job job-IsConsistent

remove_callback-register_example : remove_callback (codes "i") (register listener job) ≡ (true, job)
remove_callback-register_example = remove_callback-register listener job tt tt

remove_callback-eq-false_example :
    (((remove_callback (codes "i") job).0 ≡ false) ↔ LacksAll (codes "i") job.callback_registry)
    × ((remove_callback (codes "i") job).0 ≡ false → (remove_callback (codes "i") job).1 ≡ job)
remove_callback-eq-false_example = remove_callback-eq-false (codes "i") job

registry-NoneEmpty_example :
    NoneEmpty (register listener job).callback_registry
    × NoneEmpty (remove_callback (codes "i") job).1.callback_registry
registry-NoneEmpty_example = registry-NoneEmpty listener (codes "i") job tt
