-- ===== src/Tests/Supervision.antt =====
-- The theorems of the supervisor, at a task that fails at first.
use music_fs.Base.{
  ℕ, ◌≡◌, ◌<◌, refl, none, some, Option, List, [], ◌∷◌, String, if◌then◌else◌, ltb, arith,
  string_eq,
}
use music_fs.Base.Dict.{lookup}
use music_fs.Core.Supervisor.{
  stopped, failed, Tasks, new_entry, gave_up, max_restarts, monitor, task_status, finish,
}
use music_fs.Core.Supervisor.Restarts.{
  Ended, monitor-recovers, monitor-gives_up, task_status-recovered,
}

abbrev scan : Tasks
scan = ("scan", new_entry) ∷ []

-- Two runs fail.
abbrev shaky : ℕ → Option String
shaky n = if ltb n 2 then some "disk" else none

abbrev hopeless : ℕ → Option String
hopeless n = some "disk"

abbrev clock : ℕ → ℕ
clock n = n

shaky-fails : (j : ℕ) → j < 2 → (x : String) × (shaky j ≡ some x)
shaky-fails j less = ("disk", ground (arith, less))

hopeless-fails : (j : ℕ) → j < max_restarts → (x : String) × (hopeless j ≡ some x)
hopeless-fails j less = ("disk", refl)

monitor-recovers_example : Ended shaky clock "scan" (monitor 6 shaky clock "scan" 0 scan) 2 stopped
unfolding lookup
monitor-recovers_example =
    monitor-recovers shaky clock "scan" scan new_entry refl 2 (omega arith) shaky-fails refl

monitor-gives_up_example :
    Ended hopeless clock "scan"
      (monitor 6 hopeless clock "scan" 0 scan)
      max_restarts
      (gave_up "disk" (clock max_restarts))
unfolding lookup
monitor-gives_up_example =
    monitor-gives_up hopeless clock "scan" scan new_entry refl "disk" hopeless-fails refl

task_status-recovered_example :
    (r : Tasks × List ℕ) × (monitor 6 shaky clock "scan" 0 scan ≡ some r)
    × ((task_status 9 "scan" (finish "scan" r.0)).1 ≡ failed "Task exited" 9)
unfolding lookup
task_status-recovered_example =
    task_status-recovered shaky clock "scan" scan new_entry refl 2 (omega arith) shaky-fails refl 9
