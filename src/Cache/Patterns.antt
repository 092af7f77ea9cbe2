-- ===== src/Cache/Patterns.antt =====
-- `PatternStore` of crates/musicfs-cache/src/patterns.rs: which file follows which, in memory and in
-- a table of the database. The tables are lists; whether a statement fails is given.
pub mod Counts
use music_fs.Base.{
  ℕ, ◌+◌, ◌-◌, ◌*◌, ◌/◌, ◌%◌, ◌≤◌, ◌<◌, ◌≡◌, ◌↔◌, refl, sym, ap, ◌∙◌, ◌&&◌, Bool, true, false, not,
  Option, none, some, List, [], ◌∷◌, ◌++◌, map, Result, ok, err, if◌then◌else◌, ltb, leb, min, max,
  keep, take, length, length-take, All, arith, Eq, same, same_iff, nat_eq, Option-cases, Bool-cases,
  inl, inr,
}
use music_fs.Base.Choose.{sort_by, sort_by-All, keep-All, keep-passes}
use music_fs.Base.Dict.{lookup, insert, lookup-insert}
use music_fs.Base.Words.{u32_mod}
use music_fs.Core.Types.{FileId}

-- A file, and the one that was opened after it.
pub record Follow : Type 0 where
  pub prev : FileId
  pub next : FileId

abbrev follow_beq : Follow → Follow → Bool
follow_beq a b = same a.prev b.prev && same a.next b.next

pub Follow_iff : (a b : Follow) → (follow_beq a b ≡ true) ↔ (a ≡ b)
Follow_iff a b = ground (arith, same_iff a.prev b.prev, same_iff a.next b.next)

instance abbrev pub Follow_eq : Eq Follow
Follow_eq = record { beq = follow_beq; beq_iff = Follow_iff }

-- A row of `access_log`.
pub record AccessRow : Type 0 where
  pub id : ℕ
  pub file_id : FileId
  pub access_time : ℕ
  pub hour_of_day : ℕ

pub record PatternStore : Type 0 where
  pub access_log : List AccessRow
  pub sequence_table : List (Follow × ℕ)
  pub sequence_counts : List (Follow × ℕ)
  pub time_patterns : List (ℕ × List FileId)
  pub max_history : ℕ

-- Which of the statements of `record` fail; of a query that fails there is no result.
pub record RecordFaults : Type 0 where
  pub insert_fails : Bool
  pub query_fails : Bool
  pub upsert_fails : Bool
  pub delete_fails : Bool

-- Whether each count is read as a `u32`.
unfoldable pub counts_fit : List (Follow × ℕ) → Bool
counts_fit [] = true
counts_fit ((k, count) ∷ rows) = ltb count u32_mod && counts_fit rows

-- Opening the store over the tables that are there: an error if the database does not open or one
-- of the statements fails, or if a count of the table is no `u32`.
unfoldable pub open_patterns :
    Bool → List AccessRow → List (Follow × ℕ) → ℕ → Result (Unit {0}) PatternStore
unfolding counts_fit
open_patterns database_fails log table max_history =
    if database_fails
    then err tt
    else if counts_fit table
    then ok (record {
      access_log = log;
      sequence_table = table;
      sequence_counts = table;
      time_patterns = [];
      max_history = max_history;
    })
    else err tt

-- `SELECT MAX(id)`, and the file of an identity
unfoldable pub max_id : List AccessRow → ℕ
max_id [] = 0
max_id (r ∷ rows) = max r.id (max_id rows)

unfoldable pub file_of_id : ℕ → List AccessRow → Option FileId
file_of_id id [] = none
file_of_id id (r ∷ rows) =
    let rest = file_of_id id rows in if same r.id id then some r.file_id else rest

unfoldable pub count_of : Follow → List (Follow × ℕ) → ℕ
count_of k counts = elim (lookup k counts) [ none ↦ 0 | some c ↦ c ]

unfoldable pub push_hour : ℕ → FileId → List (ℕ × List FileId) → List (ℕ × List FileId)
push_hour hour file patterns = elim (lookup hour patterns) [
  | none ↦ insert hour (file ∷ []) patterns
  | some files ↦ insert hour (files ++ (file ∷ [])) patterns
]

-- The counter in memory is a `u32`, that of the table is not.
unfoldable pub count_up : Follow → PatternStore → PatternStore
unfolding count_of
count_up k s = record s {
  sequence_counts = insert k ((count_of k s.sequence_counts + 1) % u32_mod) s.sequence_counts;
}

unfoldable pub upsert : Follow → PatternStore → PatternStore
unfolding count_of
upsert k s = record s {
  sequence_table = insert k (count_of k s.sequence_table + 1) s.sequence_table;
}

-- The log and the hours get the file.
unfoldable pub log_access : ℕ → FileId → PatternStore → PatternStore
unfolding max_id push_hour
log_access timestamp file s =
    let hour = (timestamp / 3600) % 24 in
    record s {
      access_log =
          s.access_log
          ++ (record {
            id = max_id s.access_log + 1;
            file_id = file;
            access_time = timestamp;
            hour_of_day = hour;
          }
              ∷ []);
      time_patterns = push_hour hour file s.time_patterns;
    }

unfoldable pub forget_old : ℕ → PatternStore → PatternStore
forget_old timestamp s = record s {
  access_log = keep (λ r. leb (timestamp - s.max_history * 86_400) r.access_time) s.access_log;
}

-- The last statement of `record`.
unfoldable pub clean_up :
    RecordFaults → ℕ → PatternStore → PatternStore × Result (Unit {0}) (Unit {0})
unfolding forget_old
clean_up f timestamp s = if f.delete_fails then (s, err tt) else (forget_old timestamp s, ok tt)

-- `record`, at a time in seconds since the epoch; the only error is one of the database.
unfoldable pub record_pattern :
    RecordFaults → ℕ → FileId → PatternStore → PatternStore × Result (Unit {0}) (Unit {0})
unfolding log_access max_id file_of_id count_up upsert clean_up
record_pattern f timestamp file s =
    if f.insert_fails
    then (s, err tt)
    else let s1 = log_access timestamp file s in
      let found = file_of_id (max_id s1.access_log - 1) s1.access_log in
      elim (if f.query_fails then none else found) [
        | none ↦ clean_up f timestamp s1
        | some prev ↦
            let k : Follow = record { prev = prev; next = file } in
            if f.upsert_fails
            then (count_up k s1, err tt)
            else clean_up f timestamp (upsert k (count_up k s1))
      ]

abbrev pub more_often : FileId × ℕ → FileId × ℕ → Bool
more_often a b = ltb b.1 a.1

abbrev pub follows : FileId → Follow × ℕ → Bool
follows current e = same e.0.prev current && leb 2 e.1

abbrev pub as_prediction : Follow × ℕ → FileId × ℕ
as_prediction e = (e.0.next, e.1)

unfoldable pub predict_next : PatternStore → FileId → ℕ → List FileId
predict_next s current limit =
    map (λ (p : FileId × ℕ). p.0)
      (take limit
        (sort_by more_often (map as_prediction (keep (follows current) s.sequence_counts))))

unfoldable pub reverse_onto : List FileId → List FileId → List FileId
reverse_onto [] done = done
reverse_onto (x ∷ xs) done = reverse_onto xs (x ∷ done)

unfoldable pub predict_for_time : PatternStore → ℕ → ℕ → List FileId
unfolding reverse_onto
predict_for_time s hour limit = elim (lookup hour s.time_patterns) [
  | none ↦ []
  | some files ↦ take limit (reverse_onto files [])
]
