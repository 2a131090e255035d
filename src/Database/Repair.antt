-- ===== src/Database/Repair.antt =====
-- app/core/db_manager.c: the check of the file, its backup, and how one is put back from the other.
-- SQLite and the file system are given by their answers; the contents of a file are of any type,
-- and take in what a journal of SQLite holds for it, which closing the database writes back.
use edge_omni.Common.{
  ◌≡◌, ◌≢◌, ◌∙◌, ◌⊎◌, inl, inr, refl, Bool, true, false, not, ◌&&◌, Option, none, some,
  if◌then◌else◌, Bool-cases, Option-cases,
}
use edge_omni.Common.Int.{ℤ, pos, negsuc}
use edge_omni.Database.Open.{Opening, opens, is_open}

-- What `PRAGMA integrity_check` answers: it cannot be prepared, a step gives no row, or a row, that
-- says "ok" or not.
pub data Integrity : Type 0 where
  unprepared no_row : Integrity
  row : (says_ok : Bool) → Integrity

-- The two files, /var/lib/sensor/data.db and its backup, and whether `db` can be used.
pub record Files {ℓ} (A : Type ℓ) : Type ℓ where
  pub usable : Bool
  pub data_file : A
  pub backup : Option A

module _ {ℓ} {A : Type ℓ} where
  -- The part of `db_check_and_repair` after the check: `access`, `sqlite3_close`, `rename` and
  -- `sqlite3_open`. A database that has been closed cannot be used.
  unfoldable pub restore : Bool → Opening → Files A → ℤ × Files A
  restore renames reopening f = elim f.backup [
    | none ↦ (negsuc 0, f)
    | some saved ↦
        let moved : Files A = record { usable = false; data_file = saved; backup = none } in
        if not renames
        then (negsuc 0, record f { usable = false })
        else if is_open reopening
        then (pos 0, record moved { usable = true })
        else (negsuc 0, moved)
  ]

  -- `db_check_and_repair`
  unfoldable pub db_check_and_repair : Integrity → Bool → Opening → Files A → ℤ × Files A
  unfolding restore
  db_check_and_repair unprepared renames reopening f = (negsuc 0, f)
  db_check_and_repair no_row renames reopening f = restore renames reopening f
  db_check_and_repair (row says_ok) renames reopening f =
      let restored = restore renames reopening f in if says_ok then (pos 0, f) else restored

  -- `db_backup`, for a database in use: whether the file of the backup can be opened, and
  -- sqlite3_backup_init succeeds, and the copy of all pages. A file that is opened anew is
  -- `blank`. None of the answers changes the result.
  unfoldable pub db_backup : Bool → A → Bool → Bool → Bool → Files A → ℤ × Files A
  db_backup opened blank file_opens begins copies f =
      let opened_file : A = elim f.backup [ none ↦ blank | some old ↦ old ] in
      if not opened
      then (negsuc 0, f)
      else if not file_opens
      then (pos 0, f)
      else if begins && copies
      then (pos 0, record f { backup = some f.data_file })
      else (pos 0, record f { backup = some opened_file })

  -- After a check that has not passed.
  restore_cases :
      (renames : Bool) (reopening : Opening) (f : Files A)
      → let (ret, f') = restore renames reopening f in
        ((ret ≡ pos 0) × (f'.usable ≡ true) × ((f.backup ≡ some f'.data_file) × (f'.backup ≡ none)))
        ⊎ ((ret ≡ negsuc 0) × ((f'.data_file ≡ f.data_file) ⊎ (f.backup ≡ some f'.data_file)))
  unfolding restore
  restore_cases renames reopening f = elim (Option-cases f.backup) [
    | inl missing ↦ rw missing (inr (refl, inl refl))
    | inr (saved, there) ↦ elim (Bool-cases renames) [
      | inr stays ↦ rw (there, stays) (inr (refl, inl refl))
      | inl moved ↦ elim (Bool-cases (is_open reopening)) [
        | inl reopened ↦ rw (there, moved, reopened) (inl (refl, refl, (refl, refl)))
        | inr fails_again ↦ rw (there, moved, fails_again) (inr (refl, inr refl))
      ]
    ]
  ]

  -- db_check_and_repair returns 0 only with a database that can be used, if it could before: either
  -- the check has passed and no file has changed, or the file is what the backup was, and the backup
  -- is gone. It returns -1 with the data file unchanged, or with the backup in its place that could
  -- not be opened.
  pub db_check_and_repair_cases :
      (integrity : Integrity) (renames : Bool) (reopening : Opening) (f : Files A)
      → f.usable ≡ true
      → let (ret, f') = db_check_and_repair integrity renames reopening f in
        ((ret ≡ pos 0)
          × (f'.usable ≡ true)
          × (((integrity ≡ row true) × (f' ≡ f))
              ⊎ ((f.backup ≡ some f'.data_file) × (f'.backup ≡ none))))
        ⊎ ((ret ≡ negsuc 0)
            × (integrity ≢ row true)
            × ((f'.data_file ≡ f.data_file) ⊎ (f.backup ≡ some f'.data_file)))
  unfolding db_check_and_repair
  db_check_and_repair_cases unprepared renames reopening f h =
      inr (refl, (λ e. absurd (cc)), inl refl)
  db_check_and_repair_cases no_row renames reopening f h =
      elim (restore_cases renames reopening f) [
        | inl (done, usable, restored) ↦ inl (done, usable, inr restored)
        | inr (failed, files) ↦ inr (failed, (λ e. absurd (cc)), files)
      ]
  db_check_and_repair_cases (row true) renames reopening f h = inl (refl, h, inl (refl, refl))
  db_check_and_repair_cases (row false) renames reopening f h =
      elim (restore_cases renames reopening f) [
        | inl (done, usable, restored) ↦ inl (done, usable, inr restored)
        | inr (failed, files) ↦ inr (failed, (λ e. absurd (cc)), files)
      ]

  -- When there is no backup yet, one that does not get as far as its copy returns 0 like one that
  -- succeeds; the blank file that it leaves is what a later repair puts in the place of the
  -- database.
  pub failed_backup_replaces :
      (blank : A) (f later : Files A) (begins copies : Bool)
      → f.backup ≡ none
      → (begins && copies) ≡ false
      → later.backup ≡ (db_backup true blank true begins copies f).1.backup
      → ((db_backup true blank true begins copies f).0 ≡ pos 0)
        × ((db_check_and_repair (row false) true opens later).0 ≡ pos 0)
        × ((db_check_and_repair (row false) true opens later).1.data_file ≡ blank)
  unfolding db_check_and_repair restore db_backup
  failed_backup_replaces blank f later begins copies none_yet broken kept =
      let left : later.backup ≡ some blank = kept ∙ rw (broken, none_yet) refl in
      (rw broken refl, rw left refl, rw left refl)
