-- ===== src/Tasks/Examples.antt =====
-- The handle of a runner stopped twice.
use sqlxmq.Prelude.{◌≡◌, [], ◌∷◌, some}
use sqlxmq.Runner.{new_options}
use sqlxmq.Tasks.{aborted, awaited}
use sqlxmq.Tasks.Handle.{run, stop_times, stop_times_lem}

stop_times_lem_example : stop_times 2 (run new_options 7) ≡ some (aborted 7 ∷ awaited 7 ∷ [])
stop_times_lem_example = stop_times_lem 2 new_options 7
