-- ===== src/Core/Supervisor.antt =====
-- `TaskSupervisor` of crates/musicfs-core/src/supervisor.rs. What a task comes to, run by run, is
-- given: nothing, or the error of its panic. Instants are nanoseconds.
pub mod Restarts
use Prim.Native.String
use music_fs.Base.{
  ℕ, zero, suc, ◌+◌, ◌*◌, ◌-◌, ◌≤◌, ◌<◌, ◌≡◌, refl, sym, ap, ◌∙◌, Bool, true, false, Option, none,
  some, List, [], ◌∷◌, ◌++◌, String, if◌then◌else◌, ltb, leb, min, length, arith, string_eq, same,
  same_iff, Option-cases, Bool-cases, inl, inr,
}
use music_fs.Base.Dict.{lookup, insert, lookup-insert}

pub data TaskStatus : Type 0 where
  running stopped : TaskStatus
  failed : String → ℕ → TaskStatus
  restarting : ℕ → TaskStatus

-- Of the handle, whether it is finished.
pub record TaskEntry : Type 0 where
  pub finished : Bool
  pub status : TaskStatus
  pub restart_count : ℕ
  pub last_restart : Option ℕ

abbrev pub Tasks : Type 0
Tasks = List (String × TaskEntry)

abbrev pub new_entry : TaskEntry
new_entry = record { finished = false; status = running; restart_count = 0; last_restart = none }

-- The entry of a task that is spawned, of either kind.
unfoldable pub spawn : String → Tasks → Tasks
spawn name tasks = insert name new_entry tasks

-- `if let Some(entry) = tasks.get_mut(name)`
unfoldable pub change_entry : String → (TaskEntry → TaskEntry) → Tasks → Tasks
change_entry name f tasks = elim (lookup name tasks) [
  | none ↦ tasks
  | some e ↦ insert name (f e) tasks
]

abbrev pub with_status : TaskStatus → TaskEntry → TaskEntry
with_status s e = record e { status = s }

abbrev pub max_restarts : ℕ
max_restarts = 5

-- In seconds; the last one stays.
unfoldable pub backoff : ℕ → ℕ
backoff zero = 1
backoff (suc zero) = 5
backoff (suc (suc n)) = 30

abbrev pub restarted : ℕ → ℕ → TaskEntry → TaskEntry
restarted count now e = record e {
  status = restarting count;
  restart_count = count;
  last_restart = some now;
}

abbrev pub gave_up : String → ℕ → TaskStatus
gave_up e now = failed (String.◌++◌ "Exceeded max restarts: " e) now

-- The loop of the monitor of a critical task: the tasks in the end, and how long it slept each
-- time. `runs` is what the task comes to, by the number of restarts before, `now` the clock.
unfoldable pub monitor :
    ℕ → (ℕ → Option String) → (ℕ → ℕ) → String → ℕ → Tasks → Option (Tasks × List ℕ)
unfolding change_entry backoff
monitor zero runs now name count tasks = none
monitor (suc fuel) runs now name count tasks =
    let started = change_entry name (with_status running) tasks in
    elim (runs count) [
      | none ↦ some (change_entry name (with_status stopped) started, [])
      | some e ↦ elim (ltb max_restarts (count + 1)) [
        | true ↦ some (change_entry name (with_status (gave_up e (now count))) started, [])
        | false ↦
            elim (monitor fuel runs now name (count + 1)
              (change_entry name (restarted (count + 1) (now count)) started)) [
                | none ↦ none
                | some r ↦ some (r.0, backoff count ∷ r.1)
              ]
      ]
    ]

abbrev pub exited : ℕ → TaskEntry → TaskEntry
exited now e = if e.finished then with_status (failed "Task exited" now) e else e

unfoldable pub task_status : ℕ → String → Tasks → Tasks × TaskStatus
task_status now name tasks = elim (lookup name tasks) [
  | none ↦ (tasks, stopped)
  | some e ↦ (insert name (exited now e) tasks, (exited now e).status)
]

unfoldable pub check_all : ℕ → Tasks → Tasks × List (String × TaskStatus)
check_all now [] = ([], [])
check_all now ((name, e) ∷ tasks) =
    let (rest, statuses) = check_all now tasks in
    ((name, exited now e) ∷ rest, (name, (exited now e).status) ∷ statuses)

-- The runtime marks the handle of a task that has ended.
unfoldable pub finish : String → Tasks → Tasks
unfolding change_entry
finish name tasks = change_entry name (λ e. record e { finished = true }) tasks
