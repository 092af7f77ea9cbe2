-- ===== src/Origins/Failover.antt =====
-- `FailoverExecutor` of crates/musicfs-origins/src/failover.rs. A run gives the registry, the
-- durations slept in milliseconds, and the result; it is none if the code panics.
pub mod Retries
pub mod Single
use music_fs.Base.{
  ℕ, zero, suc, ◌+◌, ◌≡◌, Bool, true, false, Option, none, some, List, [], ◌∷◌, ◌++◌, Result, ok,
  err, if◌then◌else◌, ltb, get_elem?, length,
}
use music_fs.Core.Types.{OriginId, RealPath, FilePath}
use music_fs.Core.Errors.{Error, no_origin_available, max_retries_exceeded}
use music_fs.Origins.Registry.{
  Origin, OriginRegistry, route_all, route_with_fallback, record_latency,
}

pub record RetryConfig : Type 0 where
  pub max_attempts : ℕ
  pub delays : List ℕ

abbrev pub spec_compliant : RetryConfig
spec_compliant = record { max_attempts = 3; delays = 100 ∷ 500 ∷ 2000 ∷ [] }

unfoldable pub with_delays : List ℕ → RetryConfig
with_delays delays = record { max_attempts = length delays; delays = delays }

-- `*delays.last().unwrap_or(&100ms)`
unfoldable pub last_delay : List ℕ → ℕ
last_delay [] = 100
last_delay (x ∷ []) = x
last_delay (x ∷ y ∷ xs) = last_delay (y ∷ xs)

unfoldable pub delay_for_attempt : RetryConfig → ℕ → ℕ
unfolding last_delay
delay_for_attempt c attempt = elim (get_elem? c.delays attempt) [
  | some d ↦ d
  | none ↦ last_delay c.delays
]

-- The loop over the attempts, `left` of them to go; `call` is the origin's answer to each.
unfoldable pub retry_loop :
    RetryConfig → (ℕ → Result Error (List ℕ)) → ℕ → ℕ → List ℕ × Result Error (List ℕ)
retry_loop c call zero attempt = ([], err max_retries_exceeded)
retry_loop c call (suc left) attempt =
    let (slept, later) = retry_loop c call left (attempt + 1) in
    elim (call attempt) [
      | ok content ↦ ([], ok content)
      | err e ↦
          if ltb (attempt + 1) c.max_attempts
          then (delay_for_attempt c attempt ∷ slept, later)
          else ([], err e)
    ]

unfoldable pub with_retry :
    RetryConfig → (ℕ → Result Error (List ℕ)) → List ℕ × Result Error (List ℕ)
with_retry c call = retry_loop c call c.max_attempts 0

-- What one request is, of an origin: `read` with its range, or `read_full`.
abbrev pub Request : Type 0
Request = Origin → ℕ → Result Error (List ℕ)

abbrev pub read_request : FilePath → ℕ → ℕ → Request
read_request path offset size o attempt = o.read attempt path offset size

abbrev pub read_full_request : FilePath → Request
read_full_request path o attempt = o.read_full attempt path

abbrev pub Run : Type 0
Run = Option (OriginRegistry × List ℕ × Result Error (List ℕ))

-- How long the reads take, and the time.
pub record Timing : Type 0 where
  pub now : ℕ
  pub latency : OriginId → ℕ

-- The loop over the origins, with the last error.
unfoldable pub try_each :
    RetryConfig → Timing → Request → List Origin → Option Error → OriginRegistry → Run
try_each c t request [] none r = some (r, [], err no_origin_available)
try_each c t request [] (some e) r = some (r, [], err e)
try_each c t request (o ∷ os) last r =
    let (slept, result) = with_retry c (request o) in
    elim result [
      | ok content ↦ elim (record_latency t.now o.id (t.latency o.id) r) [
        | none ↦ none
        | some r' ↦ some (r', slept, ok content)
      ]
      | err e ↦
          let later = try_each c t request os (some e) r in
          elim later [
            | none ↦ none
            | some (r', slept', result') ↦ some (r', slept ++ slept', result')
          ]
    ]

-- `read_with_failover` and `read_full_with_failover` differ in the request alone.
unfoldable pub with_failover : RetryConfig → Timing → Request → RealPath → OriginRegistry → Run
with_failover c t request path r = elim (route_all r path) [
  | o ∷ os ↦ try_each c t request (o ∷ os) none r
  | [] ↦
      let (r', fallback) = route_with_fallback r path in
      elim fallback [
        | some o ↦ let (slept, result) = with_retry c (request o) in some (r', slept, result)
        | none ↦ some (r', [], err no_origin_available)
      ]
]

unfoldable pub read_with_failover : RetryConfig → Timing → RealPath → ℕ → ℕ → OriginRegistry → Run
unfolding with_failover
read_with_failover c t path offset size r =
    with_failover c t (read_request path.path offset size) path r

unfoldable pub read_full_with_failover : RetryConfig → Timing → RealPath → OriginRegistry → Run
unfolding with_failover
read_full_with_failover c t path r = with_failover c t (read_full_request path.path) path r
