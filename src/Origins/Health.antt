-- ===== src/Origins/Health.antt =====
-- `HealthMonitor` of crates/musicfs-origins/src/health.rs. What the clock, the network and the
-- timeout give to one check is its `Answer`; the background task calls `check_all` at each tick.
pub mod History
pub mod Snapshot
use music_fs.Base.{
  ℕ, zero, suc, ◌+◌, ◌%◌, ◌*◌, ◌≡◌, ◌↔◌, Bool, true, false, not, ◌&&◌, Option, none, some, List, [],
  ◌∷◌, length, ◌++◌, if◌then◌else◌, leb, Eq, same, string_eq, arith,
}
use music_fs.Base.Dict.{lookup, insert, remove}
use music_fs.Base.Words.{as_u32}
use music_fs.Core.Types.{
  OriginId, HealthStatus, healthy, degraded, unhealthy, unknown, OriginType, local, nfs, smb, s3,
  sftp,
}
use music_fs.Core.Events.{Event, origin_health_changed}

pub record OriginHealthState : Type 0 where
  pub status : HealthStatus
  pub last_check : ℕ
  pub consecutive_failures : ℕ
  pub last_latency_ms : Option ℕ

-- `OriginHealthState::default()`, at a time
abbrev pub default_state : ℕ → OriginHealthState
default_state now = record {
  status = unknown;
  last_check = now;
  consecutive_failures = 0;
  last_latency_ms = none;
}

pub record HealthSnapshot : Type 0 where
  pub healthy_ids : List OriginId
  pub degraded_ids : List OriginId
  pub unhealthy_ids : List OriginId
  pub failure_counts : List (OriginId × ℕ)

-- `Vec::contains`
unfoldable pub contains : List OriginId → OriginId → Bool
contains [] id = false
contains (x ∷ xs) id = let rest = contains xs id in if same x id then true else rest

unfoldable pub is_healthy : HealthSnapshot → OriginId → Bool
is_healthy s id = contains s.healthy_ids id

unfoldable pub is_degraded : HealthSnapshot → OriginId → Bool
is_degraded s id = contains s.degraded_ids id

unfoldable pub is_unhealthy : HealthSnapshot → OriginId → Bool
is_unhealthy s id = contains s.unhealthy_ids id

unfoldable pub failure_count : HealthSnapshot → OriginId → Option ℕ
failure_count s id = lookup id s.failure_counts

abbrev is_empty : List OriginId → Bool
is_empty [] = true
is_empty (x ∷ xs) = false

unfoldable pub all_unhealthy : HealthSnapshot → Bool
all_unhealthy s = is_empty s.healthy_ids && is_empty s.degraded_ids

unfoldable pub total_candidates : HealthSnapshot → ℕ
total_candidates s = length s.healthy_ids + length s.degraded_ids + length s.unhealthy_ids

-- Equality of the derived `Eq`.
abbrev pub type_beq : OriginType → OriginType → Bool
type_beq local local = true
type_beq nfs nfs = true
type_beq smb smb = true
type_beq s3 s3 = true
type_beq sftp sftp = true
type_beq _ _ = false

abbrev pub is_healthy_status : HealthStatus → Bool
is_healthy_status healthy = true
is_healthy_status _ = false

pub type_beq_iff : (a b : OriginType) → (type_beq a b ≡ true) ↔ (a ≡ b)
type_beq_iff a b = ground arith

instance abbrev pub type_eq : Eq OriginType
type_eq = record { beq = type_beq; beq_iff = type_beq_iff }

-- The origins with their types, in the order of the map.
pub record HealthMonitor : Type 0 where
  pub origins : List (OriginId × OriginType)
  pub state : List (OriginId × OriginHealthState)
  pub check_interval : ℕ
  pub default_threshold : ℕ
  pub per_type_thresholds : List (OriginType × ℕ)
  pub has_event_bus : Bool
  pub events : List Event

abbrev pub new_monitor : ℕ → HealthMonitor
new_monitor check_interval = record {
  origins = [];
  state = [];
  check_interval = check_interval;
  default_threshold = 3;
  per_type_thresholds = (local, 1) ∷ (nfs, 3) ∷ (smb, 3) ∷ (s3, 3) ∷ (sftp, 3) ∷ [];
  has_event_bus = false;
  events = [];
}

unfoldable pub with_threshold : ℕ → HealthMonitor → HealthMonitor
with_threshold threshold m = record m { default_threshold = threshold }

unfoldable pub with_per_type_thresholds : List (OriginType × ℕ) → HealthMonitor → HealthMonitor
with_per_type_thresholds thresholds m = record m { per_type_thresholds = thresholds }

unfoldable pub with_event_bus : HealthMonitor → HealthMonitor
with_event_bus m = record m { has_event_bus = true }

unfoldable pub threshold_for : HealthMonitor → OriginType → ℕ
threshold_for m type = elim (lookup type m.per_type_thresholds) [
  | some threshold ↦ threshold
  | none ↦ m.default_threshold
]

unfoldable pub add_origin : ℕ → OriginId → OriginType → HealthMonitor → HealthMonitor
add_origin now id type m = record m {
  origins = insert id type m.origins;
  state = insert id (default_state now) m.state;
}

unfoldable pub remove_origin : OriginId → HealthMonitor → HealthMonitor
remove_origin id m = record m { origins = remove id m.origins; state = remove id m.state }

-- One round of the loop of `snapshot`: an origin of unknown health counts as degraded.
unfoldable pub tally : OriginId → OriginHealthState → HealthSnapshot → HealthSnapshot
tally id h s =
    let counted : HealthSnapshot = record s {
      failure_counts = insert id h.consecutive_failures s.failure_counts;
    } in
    elim h.status [
      | healthy ↦ record counted { healthy_ids = s.healthy_ids ++ (id ∷ []) }
      | degraded ↦ record counted { degraded_ids = s.degraded_ids ++ (id ∷ []) }
      | unhealthy ↦ record counted { unhealthy_ids = s.unhealthy_ids ++ (id ∷ []) }
      | unknown ↦ record counted { degraded_ids = s.degraded_ids ++ (id ∷ []) }
    ]

unfoldable pub collect : List (OriginId × OriginHealthState) → HealthSnapshot → HealthSnapshot
collect [] s = s
collect ((id, h) ∷ entries) s = collect entries (tally id h s)

abbrev pub empty_snapshot : HealthSnapshot
empty_snapshot = record {
  healthy_ids = [];
  degraded_ids = [];
  unhealthy_ids = [];
  failure_counts = [];
}

unfoldable pub snapshot : HealthMonitor → HealthSnapshot
unfolding collect tally
snapshot m = collect m.state empty_snapshot

-- What one check meets: the origin's answer, or none before the timeout of 1500 ms; the time; how
-- long it took.
pub record Answer : Type 0 where
  pub status : Option HealthStatus
  pub now : ℕ
  pub latency_ms : ℕ

-- A check that times out counts as unhealthy.
unfoldable pub answered : Option HealthStatus → HealthStatus
answered none = unhealthy
answered (some status) = status

-- The match of `check_one` on the status.
unfoldable pub transition : ℕ → HealthStatus → OriginHealthState → OriginHealthState
transition threshold healthy s = record s { status = healthy; consecutive_failures = 0 }
transition threshold degraded s = record s { status = degraded }
transition threshold unhealthy s =
    let failures = as_u32 (s.consecutive_failures + 1) in
    if leb threshold failures
    then record s { status = unhealthy; consecutive_failures = failures }
    else record s { status = degraded; consecutive_failures = failures }
transition threshold unknown s = record s { status = unknown }

abbrev pub differ : Bool → Bool → Bool
differ true b = not b
differ false b = b

-- Whether a state that may be missing is healthy.
abbrev pub was_healthy : Option OriginHealthState → Bool
was_healthy none = false
was_healthy (some s) = is_healthy_status s.status

-- `entry(id).or_default()`
abbrev pub or_default : ℕ → Option OriginHealthState → OriginHealthState
or_default now none = default_state now
or_default now (some s) = s

-- The entry that `check_one` leaves for an origin.
unfoldable pub after_check : ℕ → Answer → Option OriginHealthState → OriginHealthState
after_check threshold a before =
    let moved = transition threshold (answered a.status) (or_default a.now before) in
    record moved { last_check = a.now; last_latency_ms = some a.latency_ms }

unfoldable pub check_one : HealthMonitor → OriginId → OriginType → Answer → HealthMonitor
check_one m id type a =
    let before = lookup id m.state in
    let after = after_check (threshold_for m type) a before in
    let now_healthy = is_healthy_status after.status in
    let checked : HealthMonitor = record m { state = insert id after m.state } in
    if differ (was_healthy before) now_healthy && m.has_event_bus
    then record checked { events = origin_health_changed id now_healthy ∷ m.events }
    else checked

-- `join_all` of the checks; each one touches the state of its own origin.
unfoldable pub check_each :
    List (OriginId × OriginType) → (OriginId → Answer) → HealthMonitor → HealthMonitor
check_each [] answers m = m
check_each ((id, type) ∷ origins) answers m =
    check_each origins answers (check_one m id type (answers id))

unfoldable pub check_all : (OriginId → Answer) → HealthMonitor → HealthMonitor
unfolding check_each
check_all answers m = check_each m.origins answers m

unfoldable pub check_now : OriginId → Answer → HealthMonitor → HealthMonitor
check_now id a m = elim (lookup id m.origins) [ none ↦ m | some type ↦ check_one m id type a ]

unfoldable pub get_state : HealthMonitor → OriginId → Option OriginHealthState
get_state m id = lookup id m.state
