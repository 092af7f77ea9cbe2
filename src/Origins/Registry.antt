-- ===== src/Origins/Registry.antt =====
-- `OriginRegistry` of crates/musicfs-origins/src/registry.rs. An origin is its identity with what
-- its reads answer, attempt by attempt; a watch handle is a number.
pub mod Routes
use music_fs.Base.{
  ℕ, zero, suc, ◌+◌, ◌≡◌, Bool, true, false, ◌&&◌, Option, none, some, List, [], ◌∷◌, ◌++◌, map,
  Result, ok, err, if◌then◌else◌, ltb, keep, same, string_eq,
}
use music_fs.Base.Dict.{lookup, insert, remove}
use music_fs.Base.Choose.{sort_by}
use music_fs.Core.Types.{OriginId, OriginType, RealPath, FilePath}
use music_fs.Core.Errors.{Error}
use music_fs.Origins.Health
use music_fs.Origins.Health.{HealthMonitor, HealthSnapshot, snapshot, is_healthy}
use music_fs.Origins.Router
use music_fs.Origins.Router.{Router, get_priority, select, select_with_fallback}

pub record Origin : Type 0 where
  pub id : OriginId
  pub origin_type : OriginType
  pub read : ℕ → FilePath → ℕ → ℕ → Result Error (List ℕ)
  pub read_full : ℕ → FilePath → Result Error (List ℕ)

pub record OriginRegistry : Type 0 where
  pub origins : List (OriginId × Origin)
  pub router : Router
  pub monitor : HealthMonitor
  pub watch_handles : List (OriginId × List ℕ)

abbrev pub new_registry : HealthMonitor → OriginRegistry
new_registry monitor = record {
  origins = [];
  router = Router.new_router;
  monitor = monitor;
  watch_handles = [];
}

unfoldable pub register : ℕ → Origin → ℕ → OriginRegistry → OriginRegistry
register now origin priority r = record r {
  router = Router.set_priority origin.id priority r.router;
  monitor = Health.add_origin now origin.id origin.origin_type r.monitor;
  origins = insert origin.id origin r.origins;
}

unfoldable pub unregister : OriginId → OriginRegistry → OriginRegistry
unregister id r = record r {
  watch_handles = remove id r.watch_handles;
  origins = remove id r.origins;
  router = Router.remove_priority id r.router;
  monitor = Health.remove_origin id r.monitor;
}

unfoldable pub register_watch : OriginId → ℕ → OriginRegistry → OriginRegistry
register_watch id handle r =
    let handles = elim (lookup id r.watch_handles) as (λ _. List ℕ) [ none ↦ [] | some hs ↦ hs ] in
    record r { watch_handles = insert id (handles ++ (handle ∷ [])) r.watch_handles }

unfoldable pub get : OriginId → OriginRegistry → Option Origin
get id r = lookup id r.origins

unfoldable pub list : OriginRegistry → List Origin
list r = map (λ e. e.1) r.origins

abbrev pub can_serve : RealPath → OriginId × Origin → Bool
can_serve path e = same path.origin_id e.0

-- The origins that can serve a path, with their identities.
unfoldable pub candidates : OriginRegistry → RealPath → List (OriginId × Origin)
candidates r path = keep (can_serve path) r.origins

abbrev pub ids : List (OriginId × Origin) → List OriginId
ids = map (λ e. e.0)

unfoldable pub route : OriginRegistry → RealPath → Option Origin
unfolding candidates
route r path = elim (select r.router (ids (candidates r path)) (snapshot r.monitor)) [
  | none ↦ none
  | some id ↦ lookup id (candidates r path)
]

-- The router may publish that all origins are unhealthy.
unfoldable pub route_with_fallback : OriginRegistry → RealPath → OriginRegistry × Option Origin
route_with_fallback r path = elim (candidates r path) [
  | [] ↦ (r, none)
  | e ∷ es ↦
      let (router, selected) = select_with_fallback r.router (ids (e ∷ es)) (snapshot r.monitor) in
      (record r { router = router }, elim selected [ none ↦ none | some id ↦ lookup id (e ∷ es) ])
]

unfoldable pub route_all : OriginRegistry → RealPath → List Origin
route_all r path =
    sort_by (λ a b. ltb (get_priority r.router a.id) (get_priority r.router b.id))
      (map (λ e. e.1)
        (keep (λ e. can_serve path e && is_healthy (snapshot r.monitor) e.0) r.origins))

unfoldable pub record_latency : ℕ → OriginId → ℕ → OriginRegistry → Option OriginRegistry
record_latency now id latency r = elim (Router.record_latency now id latency r.router) [
  | none ↦ none
  | some router ↦ some (record r { router = router })
]
