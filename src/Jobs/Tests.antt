-- ===== src/Jobs/Tests.antt =====
-- One job from its start to its end.
use tux_bridge.Prelude.{◌≡◌, refl, codes, [], ◌∷◌, arith, length}
use tux_bridge.Prelude.Dict.{insert}
use tux_bridge.Jobs.{
  JobStore, new_jobs, start_job, next_id, insert_job, prune_locked, retain, is_kept, get_snapshot,
}
use tux_bridge.Jobs.Invariant.{IsSound, AreKnown, Step-IsSound, starts, reads}

abbrev empty_jobs : JobStore
empty_jobs = new_jobs 1 60

abbrev started : JobStore
started = (start_job 5 5 (codes "w") (codes "ls" ∷ []) empty_jobs).1

abbrev kept : JobStore
kept = (get_snapshot 1000 (codes "ls") started).1

one_job : length kept.jobs ≡ 1
unfolding start_job next_id insert_job prune_locked insert retain is_kept get_snapshot
one_job = refl

empty_jobs-IsSound : IsSound empty_jobs
unfolding IsSound
empty_jobs-IsSound = (tt, omega arith)

-- The job still runs, so it stays long after the retention time.
Step-IsSound_example : IsSound kept × AreKnown started.jobs kept.jobs
Step-IsSound_example =
    Step-IsSound (reads 1000 (codes "ls"))
      (Step-IsSound (starts 5 5 (codes "w") (codes "ls" ∷ [])) empty_jobs-IsSound).0
