-- ===== src/Cache/Patterns/Counts.antt =====
-- The counters in memory are those of the table.
use music_fs.Base.{
  ok, Bool, ℕ, ◌+◌, ◌-◌, ◌%◌, ◌<◌, ◌≡◌, false, Option, none, List, if◌then◌else◌, arith, nat_eq,
  Option-cases, Bool-cases, inl, inr,
}
use music_fs.Base.Dict.{lookup, lookup-insert}
use music_fs.Base.Words.{u32_mod}
use music_fs.Core.Types.{FileId}
use music_fs.Cache.Patterns.{
  Follow, Follow_eq, AccessRow, PatternStore, RecordFaults, open_patterns, max_id, file_of_id,
  count_of, count_up, upsert, log_access, forget_old, clean_up, record_pattern,
}

-- What is opened again then counts what was counted before.
abbrev pub IsSynced : PatternStore → Type 0
IsSynced s = (k : Follow) → lookup k s.sequence_counts ≡ lookup k s.sequence_table

pub open_patterns-IsSynced :
    (database_fails : Bool) (log : List AccessRow) (table : List (Follow × ℕ)) (max_history : ℕ)
    {s : PatternStore}
    → open_patterns database_fails log table max_history ≡ ok s
    → IsSynced s
unfolding open_patterns
open_patterns-IsSynced database_fails log table max_history e k = ground (arith, e)

log_access-IsSynced :
    (timestamp : ℕ) (file : FileId) (s : PatternStore)
    → IsSynced s
    → IsSynced (log_access timestamp file s)
unfolding log_access
log_access-IsSynced timestamp file s synced = synced

clean_up-IsSynced :
    (f : RecordFaults) (timestamp : ℕ) (s : PatternStore)
    → IsSynced s
    → IsSynced (clean_up f timestamp s).0
unfolding clean_up forget_old
clean_up-IsSynced f timestamp s synced k = ground (arith, synced k)

count-IsSynced :
    (j : Follow) (s : PatternStore)
    → IsSynced s
    → count_of j s.sequence_counts + 1 < u32_mod
    → IsSynced (upsert j (count_up j s))
unfolding upsert count_up count_of
count-IsSynced j s synced room k = ground (
  arith,
  room,
  synced j,
  synced k,
  lookup-insert k j ((count_of j s.sequence_counts + 1) % u32_mod) s.sequence_counts,
  lookup-insert k j (count_of j s.sequence_table + 1) s.sequence_table,
)

module _ (f : RecordFaults) (timestamp : ℕ) (file : FileId) (s : PatternStore) where
  abbrev s1 : PatternStore
  s1 = log_access timestamp file s

  abbrev found : Option FileId
  found = if f.query_fails then none else file_of_id (max_id s1.access_log - 1) s1.access_log

  kept :
      ((k : Follow) → count_of k s.sequence_counts + 1 < u32_mod)
      → (k : Follow) → count_of k s1.sequence_counts + 1 < u32_mod
  unfolding log_access
  kept room k = room k

  -- Recording an access keeps the counters in memory equal to those of the table, so that a store
  -- that is opened again counts alike; if the statement that writes the counter does not fail and
  -- no counter is at the end of its 32 bits, whatever else fails.
  pub record_pattern-IsSynced :
      IsSynced s
      → ((k : Follow) → count_of k s.sequence_counts + 1 < u32_mod)
      → f.upsert_fails ≡ false
      → IsSynced (record_pattern f timestamp file s).0
  unfolding record_pattern
  record_pattern-IsSynced synced room works = elim (Bool-cases f.insert_fails) [
    | inl e ↦
        let same_store : (record_pattern f timestamp file s).0 ≡ s = ground (arith, e) in
        rw same_store synced
    | inr e ↦ elim (Option-cases found) [
      | inl q ↦
          let result : record_pattern f timestamp file s ≡ clean_up f timestamp s1 =
            ground (arith, e, q) in
          rw result (clean_up-IsSynced f timestamp s1 (log_access-IsSynced timestamp file s synced))
      | inr (prev, q) ↦
          let k : Follow = record { prev = prev; next = file } in
          let result : record_pattern f timestamp file s
              ≡ clean_up f timestamp (upsert k (count_up k s1)) =
            ground (arith, e, q, works) in
          rw result (
            clean_up-IsSynced f timestamp (upsert k (count_up k s1))
              (count-IsSynced k s1 (log_access-IsSynced timestamp file s synced) (kept room k)))
    ]
  ]
