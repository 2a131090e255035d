-- ===== src/Database/Open.antt =====
-- app/core/db_manager.c: opening the database and its upkeep.
use edge_omni.Common.{
  ◌≡◌, ◌⊎◌, some, ◌↔◌, ◌∙◌, refl, ap, arith, inl, inr, Bool, true, false, not, List, [], ◌∷◌, ◌++◌,
  All, if◌then◌else◌, length, Bool-cases,
}
use mathlib.Core.List.{append-nil}
use edge_omni.Common.Int.{ℤ, pos, negsuc}
use edge_omni.Database.{
  Timespec, Statement, create_sensor_data, create_alarm_log, create_system_log, journal_mode_wal,
  synchronous_normal, vacuum, statement, Db, batch_size,
}
use edge_omni.Database.Batch.{
  IsOpen, accepted, rows_of, rows_of-append, in_transaction, in_transaction-append,
}

-- What sqlite3_open answers; after a failure there may be a handle all the same.
pub data Opening : Type 0 where
  opens : Opening
  fails : (handle : Bool) → Opening

abbrev pub has_handle : Opening → Bool
has_handle opens = true
has_handle (fails handle) = handle

abbrev pub is_open : Opening → Bool
is_open opens = true
is_open (fails handle) = false

-- `exec_sql`, for a statement and whether SQLite runs it.
unfoldable pub exec_sql : Statement → Bool → Db → Bool × Db
exec_sql q done d = (done, record d { calls = d.calls ++ (statement q ∷ []) })

-- One statement after the other, up to the first that fails.
unfoldable pub exec_each : (Statement → Bool) → List Statement → Db → Bool × Db
unfolding exec_sql
exec_each runs [] d = (true, d)
exec_each runs (q ∷ qs) d =
    let (done, d') = exec_sql q (runs q) d in
    let rest = exec_each runs qs d' in if done then rest else (false, d')

abbrev pub set_up : List Statement
set_up =
    create_sensor_data ∷ create_alarm_log ∷ create_system_log ∷ journal_mode_wal
    ∷ synchronous_normal ∷ []

-- `db_init`, with the time that it reads at its end.
unfoldable pub db_init : Opening → (Statement → Bool) → Timespec → Db → ℤ × Db
unfolding exec_each
db_init opening runs now d =
    let handled = record d { opened = has_handle opening } in
    let (done, d') = exec_each runs set_up handled in
    if not (is_open opening)
    then (negsuc 0, handled)
    else if not done
    then (negsuc 0, d')
    else (pos 0, record d' { batch_count = 0; last_flush_time = now })

-- `db_vacuum`
unfoldable pub db_vacuum : Bool → Db → ℤ × Db
unfolding exec_sql
db_vacuum done d =
    let (ok, d') = exec_sql vacuum done d in if ok then (pos 0, d') else (negsuc 0, d')

-- What statements leave as it was.
abbrev Untouched : Db → Db → Type 0
Untouched d d' =
    (d'.opened ≡ d.opened)
    × (d'.batch_buffer ≡ d.batch_buffer)
    × (rows_of d'.calls ≡ rows_of d.calls)
    × (in_transaction false d.calls ≡ some false → in_transaction false d'.calls ≡ some false)

exec_each-Untouched :
    (runs : Statement → Bool) (qs : List Statement) (d : Db)
    → Untouched d (exec_each runs qs d).1
      × (((exec_each runs qs d).0 ≡ true) ↔ All (λ q. runs q ≡ true) qs)
unfolding exec_each exec_sql
exec_each-Untouched runs [] d = ((refl, refl, refl, λ h. h), ((λ h. tt), (λ h. refl)))
exec_each-Untouched runs (q ∷ qs) d =
    let d' : Db = record d { calls = d.calls ++ (statement q ∷ []) } in
    let rows : rows_of d'.calls ≡ rows_of d.calls =
      rows_of-append d.calls (statement q ∷ []) ∙ append-nil (rows_of d.calls) in
    let balanced : in_transaction false d.calls ≡ some false
        → in_transaction false d'.calls ≡ some false =
      λ h. in_transaction-append false false d.calls (statement q ∷ []) h in
    let ((opened, buffer, more, keeps), all_run) = exec_each-Untouched runs qs d' in
    elim (Bool-cases (runs q)) [
      | inl runs_now ↦ rw runs_now (
        (opened, buffer, more ∙ rows, λ h. keeps (balanced h)),
        ((λ h. (refl, all_run.0 h)), (λ h. all_run.1 h.1)),
      )
      | inr stops ↦
          rw stops ((refl, refl, rows, balanced), ((λ h. absurd (cc)), (λ h. absurd (cc (h.0)))))
    ]

-- With the places of the batch there and no transaction begun, db_init returns 0 exactly when the
-- database opens and all five statements run, and then the database is open, with nothing in the
-- batch and no transaction begun; else it returns -1.
pub db_init_cases :
    (opening : Opening) (runs : Statement → Bool) (now : Timespec) (d : Db)
    → length d.batch_buffer ≡ batch_size
    → in_transaction false d.calls ≡ some false
    → let (ret, d') = db_init opening runs now d in
      ((ret ≡ pos 0)
        × ((opening ≡ opens) × All (λ q. runs q ≡ true) set_up)
        × IsOpen d'
        × (accepted d' ≡ rows_of d.calls))
      ⊎ ((ret ≡ negsuc 0) × ¬ ((opening ≡ opens) × All (λ q. runs q ≡ true) set_up))
unfolding db_init
db_init_cases (fails handle) runs now d places balanced = inr (refl, λ h. cc)
db_init_cases opens runs now d places balanced =
    let handled : Db = record d { opened = true } in
    let ((opened, buffer, rows, keeps), all_run) = exec_each-Untouched runs set_up handled in
    elim (Bool-cases (exec_each runs set_up handled).0) [
      | inl done ↦ rw done (
          inl (
            refl,
            (refl, all_run.0 done),
            record {
              is_opened = opened;
              places = ap length buffer ∙ places;
              fits = omega arith;
              balanced = keeps balanced;
            },
            append-nil _ ∙ rows,
          ))
      | inr stopped ↦ rw stopped (inr (refl, λ h. cc (all_run.1 h.1)))
    ]
