-- ===== src/Core/Supervisor/Restarts.antt =====
-- The monitor of a critical task always comes to an end.
use music_fs.Base.{
  ℕ, zero, suc, ◌+◌, ◌≤◌, ◌<◌, ◌≡◌, refl, ap, ◌∙◌, true, Option, none, some, List, [], ◌∷◌, String,
  length, arith, string_eq, same_iff,
}
use music_fs.Base.Dict.{lookup, lookup-insert}
use music_fs.Core.Supervisor.{
  TaskStatus, running, stopped, failed, TaskEntry, Tasks, change_entry, with_status, restarted,
  backoff, max_restarts, gave_up, monitor, task_status, finish,
}

lookup-change_entry :
    (name : String) (f : TaskEntry → TaskEntry) (tasks : Tasks) {e : TaskEntry}
    → lookup name tasks ≡ some e
    → lookup name (change_entry name f tasks) ≡ some (f e)
unfolding change_entry
lookup-change_entry name f tasks {e} h =
    ground (arith, h, lookup-insert name name (f e) tasks, same_iff name name)

module _ (runs : ℕ → Option String) (now : ℕ → ℕ) (name : String) where
  -- The result of the monitor: how often it slept, and the status that it left.
  abbrev pub Ended : Option (Tasks × List ℕ) → ℕ → TaskStatus → Type 0
  Ended result sleeps status =
      (r : Tasks × List ℕ) × (e : TaskEntry) × (result ≡ some r)
      × (length r.1 ≡ sleeps)
      × (lookup name r.0 ≡ some e)
      × (e.status ≡ status)

  abbrev started : Tasks → Tasks
  started = change_entry name (with_status running)

  later :
      (fuel count sleeps : ℕ) (tasks : Tasks) (x : String) (status : TaskStatus)
      → runs count ≡ some x
      → count + 1 ≤ max_restarts
      → Ended
          (monitor fuel runs now name
            (count + 1)
            (change_entry name (restarted (count + 1) (now count)) (started tasks)))
          sleeps
          status
      → Ended (monitor (suc fuel) runs now name count tasks) (suc sleeps) status
  unfolding monitor
  later fuel count sleeps tasks x status h few (r, e, q, slept, there, left) =
      ((r.0, backoff count ∷ r.1), e, ground (arith, h, few, q), ap suc slept, there, left)

  recovers_from :
      (d count fuel : ℕ) (tasks : Tasks) (e : TaskEntry)
      → count + d ≤ max_restarts
      → d < fuel
      → ((j : ℕ) → j < d → (x : String) × (runs (count + j) ≡ some x))
      → runs (count + d) ≡ none
      → lookup name tasks ≡ some e
      → Ended (monitor fuel runs now name count tasks) d stopped
  unfolding monitor
  recovers_from d count zero tasks e few fuelled fail stop there = absurd (omega arith)
  recovers_from zero count (suc fuel) tasks e few fuelled fail stop there =
      let here : count ≡ count + 0 = omega arith in
      let now_stops : runs count ≡ none = ap runs here ∙ stop in
      (
        (change_entry name (with_status stopped) (started tasks), []),
        with_status stopped (with_status running e),
        ground (arith, now_stops),
        refl,
        lookup-change_entry name (with_status stopped) (started tasks)
            (lookup-change_entry name (with_status running) tasks there),
        refl,
      )
  recovers_from (suc d) count (suc fuel) tasks e few fuelled fail stop there =
      let (x, first) = fail 0 (omega arith) in
      let here : count ≡ count + 0 = omega arith in
      let shifted : (j : ℕ) → count + 1 + j ≡ count + suc j = λ j. omega arith in
      later fuel count d tasks x stopped (ap runs here ∙ first) (omega (arith, few)) (
        recovers_from d (count + 1) fuel
          (change_entry name (restarted (count + 1) (now count)) (started tasks))
          (restarted (count + 1) (now count) (with_status running e)) (omega (arith, few))
          (omega (arith, fuelled))
          (λ j less.
            let (y, failing) = fail (suc j) (omega (arith, less)) in
            (y, ap runs (shifted j) ∙ failing))
          (ap runs (shifted d) ∙ stop)
          (lookup-change_entry name (restarted (count + 1) (now count)) (started tasks)
            (lookup-change_entry name (with_status running) tasks there)))

  gives_up_from :
      (d count fuel : ℕ) (tasks : Tasks) (e : TaskEntry) (x : String)
      → count + d ≡ max_restarts
      → d < fuel
      → ((j : ℕ) → j < d → (y : String) × (runs (count + j) ≡ some y))
      → runs max_restarts ≡ some x
      → lookup name tasks ≡ some e
      → Ended (monitor fuel runs now name count tasks) d (gave_up x (now max_restarts))
  unfolding monitor
  gives_up_from d count zero tasks e x last fuelled fail stop there = absurd (omega arith)
  gives_up_from zero count (suc fuel) tasks e x last fuelled fail stop there =
      let here : count ≡ max_restarts = omega (arith, last) in
      let now_fails : runs count ≡ some x = ap runs here ∙ stop in
      (
        (change_entry name (with_status (gave_up x (now max_restarts))) (started tasks), []),
        with_status (gave_up x (now max_restarts)) (with_status running e),
        ground (arith, now_fails, here),
        refl,
        lookup-change_entry name (with_status (gave_up x (now max_restarts))) (started tasks)
            (lookup-change_entry name (with_status running) tasks there),
        refl,
      )
  gives_up_from (suc d) count (suc fuel) tasks e x last fuelled fail stop there =
      let (y, first) = fail 0 (omega arith) in
      let here : count ≡ count + 0 = omega arith in
      let shifted : (j : ℕ) → count + 1 + j ≡ count + suc j = λ j. omega arith in
      later fuel count d tasks y (gave_up x (now max_restarts)) (ap runs here ∙ first)
        (omega (arith, last))
        (gives_up_from d (count + 1) fuel
          (change_entry name (restarted (count + 1) (now count)) (started tasks))
          (restarted (count + 1) (now count) (with_status running e)) x (omega (arith, last))
          (omega (arith, fuelled))
          (λ j less.
            let (z, failing) = fail (suc j) (omega (arith, less)) in
            (z, ap runs (shifted j) ∙ failing))
          stop
          (lookup-change_entry name (restarted (count + 1) (now count)) (started tasks)
            (lookup-change_entry name (with_status running) tasks there)))

  module _ (tasks : Tasks) (e : TaskEntry) (there : lookup name tasks ≡ some e) where
    -- The monitor of a task that is registered and whose runs fail at most five times and then
    -- succeed comes to an end, sleeps once for each failure, and leaves the task as stopped.
    pub monitor-recovers :
        (restarts : ℕ)
        → restarts ≤ max_restarts
        → ((j : ℕ) → j < restarts → (x : String) × (runs j ≡ some x))
        → runs restarts ≡ none
        → Ended (monitor 6 runs now name 0 tasks) restarts stopped
    monitor-recovers restarts few fail stop =
        let shifted : (j : ℕ) → 0 + j ≡ j = λ j. omega arith in
        recovers_from restarts 0 6 tasks e (omega (arith, few)) (omega (arith, few))
          (λ j less. let (x, failing) = fail j less in (x, ap runs (shifted j) ∙ failing))
          (ap runs (shifted restarts) ∙ stop) there

    -- The monitor of a task that is registered and fails six times comes to an end after five
    -- sleeps, and leaves the task as failed with the last error.
    pub monitor-gives_up :
        (x : String)
        → ((j : ℕ) → j < max_restarts → (y : String) × (runs j ≡ some y))
        → runs max_restarts ≡ some x
        → Ended (monitor 6 runs now name 0 tasks) max_restarts (gave_up x (now max_restarts))
    monitor-gives_up x fail stop =
        let shifted : (j : ℕ) → 0 + j ≡ j = λ j. omega arith in
        gives_up_from 5 0 6 tasks e x (omega arith) (omega arith)
          (λ j less. let (y, failing) = fail j less in (y, ap runs (shifted j) ∙ failing)) stop
          there

task_status-finished :
    (at : ℕ) (name : String) (tasks : Tasks) (e : TaskEntry)
    → lookup name tasks ≡ some e
    → (task_status at name (finish name tasks)).1 ≡ failed "Task exited" at
unfolding task_status finish
task_status-finished at name tasks e there =
    let marked =
      lookup-change_entry name (λ (x : TaskEntry). record x { finished = true }) tasks there in
    ground (arith, marked)

-- Once the monitor of a registered task has ended because the task stopped after at most five
-- failures, the status that is reported is a failure, that the task exited, and not that it
-- stopped.
pub task_status-recovered :
    (runs : ℕ → Option String) (now : ℕ → ℕ) (name : String) (tasks : Tasks) (e : TaskEntry)
    → lookup name tasks ≡ some e
    → (restarts : ℕ) → restarts ≤ max_restarts
    → ((j : ℕ) → j < restarts → (x : String) × (runs j ≡ some x))
    → runs restarts ≡ none
    → (at : ℕ)
    → (r : Tasks × List ℕ) × (monitor 6 runs now name 0 tasks ≡ some r)
      × ((task_status at name (finish name r.0)).1 ≡ failed "Task exited" at)
task_status-recovered runs now name tasks e there restarts few fail stop at =
    let (r, left, q, slept, found, status) =
      monitor-recovers runs now name tasks e there restarts few fail stop in
    (r, q, task_status-finished at name r.0 left found)
