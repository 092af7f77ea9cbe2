-- ===== src/Origins/Registry/Routes.antt =====
-- Where the registry routes a path: only ever to the origin that the path names.
use music_fs.Base.{
  ◌≡◌, refl, Bool, true, false, ◌&&◌, Option, none, some, List, [], ◌∷◌, map, if◌then◌else◌, keep,
  same_iff, string_eq, arith, inl, inr, Option-cases,
}
use music_fs.Base.Dict.{lookup, Unique}
use music_fs.Base.Choose.{min_by, sort_by, insert_by}
use music_fs.Core.Types.{OriginId, RealPath}
use music_fs.Origins.Health.{HealthSnapshot, snapshot, is_healthy}
use music_fs.Origins.Router.{
  Router, select, select_with_fallback, select_degraded, select_least_bad,
}
use music_fs.Origins.Registry.{
  Origin, OriginRegistry, candidates, can_serve, route_all, route_with_fallback,
}

-- At most one origin, with its identity, passes a test that includes the path's.
abbrev at_most : Bool → OriginId → Option Origin → List (OriginId × Origin)
at_most p id none = []
at_most p id (some o) = if p then (id, o) ∷ [] else []

keep-at_most :
    (path : RealPath) (p : OriginId → Bool) (m : List (OriginId × Origin))
    → Unique m
    → keep (λ e. can_serve path e && p e.0) m
      ≡ at_most (p path.origin_id) path.origin_id (lookup path.origin_id m)
unfolding lookup
keep-at_most path p [] u = refl
keep-at_most path p ((id, o) ∷ m) u =
    ground
      (arith, same_iff id path.origin_id, same_iff path.origin_id id, keep-at_most path p m u.1)

candidates-at_most :
    (path : RealPath) (m : List (OriginId × Origin))
    → Unique m
    → keep (can_serve path) m ≡ at_most true path.origin_id (lookup path.origin_id m)
unfolding lookup
candidates-at_most path [] u = refl
candidates-at_most path ((id, o) ∷ m) u =
    ground
      (arith, same_iff id path.origin_id, same_iff path.origin_id id, candidates-at_most path m u.1)

-- The origin, if it is there and healthy.
abbrev pub if_healthy : Bool → Option Origin → List Origin
if_healthy p none = []
if_healthy p (some o) = if p then o ∷ [] else []

sorted_at_most :
    (less : Origin → Origin → Bool) (p : Bool) (id : OriginId) (o : Option Origin)
    → sort_by less (map (λ e. e.1) (at_most p id o)) ≡ if_healthy p o
unfolding sort_by insert_by
sorted_at_most less p id none = refl
sorted_at_most less true id (some o) = refl
sorted_at_most less false id (some o) = refl

select_one :
    (router : Router) (id : OriginId) (health : HealthSnapshot)
    → (select_with_fallback router (id ∷ []) health).1 ≡ some id
unfolding select_with_fallback select select_degraded select_least_bad min_by
select_one router id health = ground arith

module _ (r : OriginRegistry) (path : RealPath) (unique : Unique r.origins) where
  -- If no origin is registered twice, the routes of a path are the one origin that the path names,
  -- if it is healthy, and none otherwise.
  pub route_all-eq-if_healthy :
      route_all r path
      ≡ if_healthy
          (is_healthy (snapshot r.monitor) path.origin_id)
          (lookup path.origin_id r.origins)
  unfolding route_all
  route_all-eq-if_healthy =
      rw (keep-at_most path (is_healthy (snapshot r.monitor)) r.origins unique) (
        sorted_at_most _ (is_healthy (snapshot r.monitor) path.origin_id) path.origin_id
          (lookup path.origin_id r.origins))

  candidates-eq : candidates r path ≡ at_most true path.origin_id (lookup path.origin_id r.origins)
  unfolding candidates
  candidates-eq = candidates-at_most path r.origins unique

  -- If no origin is registered twice, with the fallback a path is routed to the origin that it
  -- names, healthy or not.
  pub route_with_fallback-eq-lookup :
      (route_with_fallback r path).1 ≡ lookup path.origin_id r.origins
  unfolding route_with_fallback lookup
  route_with_fallback-eq-lookup = elim (Option-cases (lookup path.origin_id r.origins)) [
    | inl e ↦ ground (arith, candidates-eq, e)
    | inr (o, e) ↦ ground (
      arith,
      candidates-eq,
      e,
      select_one r.router path.origin_id (snapshot r.monitor),
      same_iff path.origin_id path.origin_id,
    )
  ]
