-- ===== src/Tests/Histories.antt =====
-- The theorem of the pattern store, at a store that has seen one file.
use music_fs.Base.{err, ok, ◌≡◌, ◌+◌, ◌<◌, refl, false, [], ◌∷◌, arith, nat_eq}
use music_fs.Base.Dict.{lookup}
use music_fs.Base.Words.{u32_mod}
use music_fs.Cache.Patterns.{
  Follow, Follow_eq, PatternStore, RecordFaults, open_patterns, counts_fit, count_of,
  record_pattern,
}
use music_fs.Cache.Patterns.Counts.{IsSynced, open_patterns-IsSynced, record_pattern-IsSynced}

abbrev seen_one : PatternStore
seen_one = record {
  access_log = record { id = 1; file_id = 5; access_time = 7200; hour_of_day = 2 } ∷ [];
  sequence_table = [];
  sequence_counts = [];
  time_patterns = [];
  max_history = 30;
}

opened : open_patterns false seen_one.access_log [] 30 ≡ ok seen_one
unfolding open_patterns counts_fit
opened = refl

abbrev no_fault : RecordFaults
no_fault = record {
  insert_fails = false;
  query_fails = false;
  upsert_fails = false;
  delete_fails = false;
}

few : (k : Follow) → count_of k seen_one.sequence_counts + 1 < u32_mod
unfolding count_of lookup
few k = omega arith

record_pattern-IsSynced_example : IsSynced (record_pattern no_fault 10_800 6 seen_one).0
record_pattern-IsSynced_example =
    record_pattern-IsSynced no_fault 10_800 6 seen_one
      (open_patterns-IsSynced false seen_one.access_log [] 30 opened) few refl

-- A count that is no `u32` keeps the store from opening.
not_opened : open_patterns false [] ((record { prev = 1; next = 2 }, u32_mod) ∷ []) 30 ≡ err tt
unfolding open_patterns counts_fit
not_opened = refl
