-- ===== src/Origins/Failover/Single.antt =====
-- A read with failover is a read, with retries, of the one origin that the path names.
use music_fs.Base.{
  ℕ, ◌≤◌, ◌≡◌, refl, Option, none, some, List, [], ◌∷◌, append-nil, Result, ok, err, string_eq,
  arith, Option-cases, inl, inr, length,
}
use music_fs.Base.Dict.{lookup, insert, Unique}
use music_fs.Core.Types.{OriginId, RealPath}
use music_fs.Core.Errors.{Error, no_origin_available}
use music_fs.Origins.Router
use music_fs.Origins.Router.{LatencyStats, no_latency, record_sample}
use music_fs.Origins.Router.Latency.{record_sample_total}
use music_fs.Origins.Registry.{Origin, OriginRegistry, record_latency}
use music_fs.Origins.Registry.Routes.{route_all-eq-if_healthy, route_with_fallback-eq-lookup}
use music_fs.Origins.Failover.{
  RetryConfig, Timing, Request, Run, with_retry, try_each, with_failover,
}

-- What a run returned: the durations slept and the result, if it did not panic.
abbrev pub outcome : Run → Option (List ℕ × Result Error (List ℕ))
outcome none = none
outcome (some (r, slept, result)) = some (slept, result)

-- The statistics of every origin hold at most a hundred samples.
abbrev pub FewSamples : OriginRegistry → Type 0
FewSamples r =
    (id : OriginId) (s : LatencyStats)
    → lookup id r.router.latency_stats ≡ some s
    → length s.samples ≤ 100

record_latency_total :
    (now : ℕ) (id : OriginId) (latency : ℕ) (r : OriginRegistry)
    → FewSamples r
    → (r' : OriginRegistry) × (record_latency now id latency r ≡ some r')
unfolding record_latency Router.record_latency
record_latency_total now id latency r few = elim (Option-cases (lookup id r.router.latency_stats)) [
  | inl e ↦
      let (s', recorded, _, _, _) = record_sample_total now latency no_latency (omega arith) in
      (
        record r {
          router = record r.router { latency_stats = insert id s' r.router.latency_stats };
        },
        ground (arith, e, recorded),
      )
  | inr (s, e) ↦
      let (s', recorded, _, _, _) = record_sample_total now latency s (few id s e) in
      (
        record r {
          router = record r.router { latency_stats = insert id s' r.router.latency_stats };
        },
        ground (arith, e, recorded),
      )
]

-- The read, with its retries, of the origin, if there is one.
abbrev pub single : RetryConfig → Request → Option Origin → List ℕ × Result Error (List ℕ)
single c request none = ([], err no_origin_available)
single c request (some o) = with_retry c (request o)

module _ (c : RetryConfig) (t : Timing) (request : Request) (path : RealPath) (r : OriginRegistry)
    (unique : Unique r.origins) (few : FewSamples r) where
  try_one :
      (o : Origin)
      → outcome (try_each c t request (o ∷ []) none r) ≡ some (with_retry c (request o))
  unfolding try_each
  try_one o = go (with_retry c (request o)) refl
    where
      go :
          (run : List ℕ × Result Error (List ℕ))
          → with_retry c (request o) ≡ run
          → outcome (try_each c t request (o ∷ []) none r) ≡ some run
      go (slept, ok content) e =
          let (r', recorded) = record_latency_total t.now o.id (t.latency o.id) r few in
          ground (arith, e, recorded)
      go (slept, err x) e = ground (arith, e, append-nil slept)

  -- If no origin is registered twice and no statistics hold more than a hundred samples, a read
  -- with failover does not panic and is the read, with its retries, of the one origin that the path
  -- names, or the error NoOriginAvailable if that is not registered; no other origin is tried.
  pub with_failover-single :
      outcome (with_failover c t request path r)
      ≡ some (single c request (lookup path.origin_id r.origins))
  unfolding with_failover
  with_failover-single = elim (Option-cases (lookup path.origin_id r.origins)) [
    | inl e ↦
        let all = route_all-eq-if_healthy r path unique in
        let fallback = route_with_fallback-eq-lookup r path unique in
        ground (arith, all, fallback, e)
    | inr (o, e) ↦
        let all = route_all-eq-if_healthy r path unique in
        let fallback = route_with_fallback-eq-lookup r path unique in
        ground (arith, all, fallback, e, try_one o)
  ]
