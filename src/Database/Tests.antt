-- ===== src/Database/Tests.antt =====
-- A batch that is written when it is full, and the theorems there.
mod Answers
use edge_omni.Common.{
  ◌≢◌, ◌⊎◌, none, ℕ, ◌*◌, ◌≡◌, refl, arith, true, false, some, List, [], ◌∷◌, map, replicate,
}
use edge_omni.Common.Int.{ℤ, pos, negsuc}
use edge_omni.Database.{
  SensorRecord, Timespec, Db, Insertion, stored, insert_all, db_close, db_flush_batch,
}
use edge_omni.Database.Open.{opens, fails}
use edge_omni.Database.Repair.{
  row, no_row, Files, db_check_and_repair, db_backup, db_check_and_repair_cases,
  failed_backup_replaces,
}
use edge_omni.Database.Saved.{Disk, Sqlite, IsPart, rows, run_all, saved_once, all_saved}
use edge_omni.Database.Tests.Answers.{answer, heard, empty_disk, refusing, willing, willing_fine}
use edge_omni.Database.Batch.{rows_of, accepted, in_transaction, IsOpen, insert_all-Keeps}

abbrev blank_record : SensorRecord
blank_record = record { timestamp = pos 0; sensor_type = []; channel = []; value = pos 0 }

abbrev at_ms : ℕ → Timespec
at_ms ms = record { tv_sec = 100; tv_nsec = ms * 1000000 }

abbrev fresh : Db
fresh = record {
  opened = true;
  batch_buffer = replicate 10 blank_record;
  batch_count = 0;
  last_flush_time = at_ms 0;
  calls = [];
}

-- The bytes of "sht30" and of the first two letters of "temperature".
abbrev insertion : ℕ → ℤ → Insertion
insertion ms value = record {
  timestamp = pos 1700000000;
  sensor_type = 115 ∷ 104 ∷ 116 ∷ 51 ∷ 48 ∷ [];
  channel = 116 ∷ 101 ∷ [];
  value = value;
  flushed_full = at_ms ms;
  now = at_ms ms;
  flushed_due = at_ms ms;
}

abbrev eleven : List Insertion
eleven =
    insertion 1 (pos 1)
    ∷ insertion 2 (pos 2)
    ∷ insertion 3 (pos 3)
    ∷ insertion 4 (pos 4)
    ∷ insertion 5 (pos 5)
    ∷ insertion 6 (pos 6)
    ∷ insertion 7 (pos 7)
    ∷ insertion 8 (pos 8)
    ∷ insertion 9 (pos 9)
    ∷ insertion 10 (pos 10)
    ∷ insertion 11 (negsuc 10)
    ∷ []

abbrev two_waiting : Db
two_waiting = record fresh {
  batch_buffer =
      stored (insertion 1 (pos 1)) ∷ stored (insertion 2 (pos 2)) ∷ replicate 8 blank_record;
  batch_count = 2;
}

fresh-IsOpen : IsOpen fresh
fresh-IsOpen = record { is_opened = refl; places = refl; fits = omega arith; balanced = refl }

insert_all-Keeps_example :
    (s' : Db) × (insert_all eleven fresh ≡ some s') × (accepted s' ≡ map stored eleven) × IsOpen s'
insert_all-Keeps_example = insert_all-Keeps eleven fresh fresh-IsOpen

abbrev copied : Files ℕ
copied = record { usable = true; data_file = 7; backup = none }

abbrev broken : Files ℕ
broken = record { usable = true; data_file = 3; backup = some 7 }

saved_once_example :
    (s' : Db) × (insert_all eleven fresh ≡ some s')
    × IsPart
        (refusing.view
          (run_all refusing (db_close (at_ms 60) s').calls (empty_disk, true ∷ false ∷ []))).saved
        (map stored eleven)
saved_once_example =
    saved_once refusing eleven (at_ms 60) fresh (empty_disk, true ∷ false ∷ []) fresh-IsOpen

-- SQLite refuses everything: what is there stays, and nobody learns of it.
nothing_saved :
    let answers = false ∷ false ∷ false ∷ false ∷ [] in
    (refusing.view
      (run_all refusing (db_flush_batch (at_ms 9) two_waiting).calls (empty_disk, answers))).saved
    ≡ []
unfolding run_all db_flush_batch heard answer
nothing_saved = refl

all_saved_example :
    (s' : Db) × (insert_all eleven fresh ≡ some s')
    × ((willing.view (run_all willing (db_close (at_ms 60) s').calls empty_disk)).saved
        ≡ map stored eleven)
all_saved_example =
    all_saved willing willing_fine eleven (at_ms 60) fresh empty_disk fresh-IsOpen refl

abbrev blanked : Files ℕ
blanked = record { usable = true; data_file = 7; backup = some 0 }

failed_backup_replaces_example :
    ((db_backup true 0 true false true copied).0 ≡ pos 0)
    × ((db_check_and_repair (row false) true opens blanked).0 ≡ pos 0)
    × ((db_check_and_repair (row false) true opens blanked).1.data_file ≡ 0)
unfolding db_backup
failed_backup_replaces_example = failed_backup_replaces 0 copied blanked false true refl refl refl

db_check_and_repair_cases_example :
    let (ret, f') = db_check_and_repair no_row true (fails true) broken in
    ((ret ≡ pos 0)
      × (f'.usable ≡ true)
      × (((no_row ≡ row true) × (f' ≡ broken))
          ⊎ ((broken.backup ≡ some f'.data_file) × (f'.backup ≡ none))))
    ⊎ ((ret ≡ negsuc 0)
        × (no_row ≢ row true)
        × ((f'.data_file ≡ broken.data_file) ⊎ (broken.backup ≡ some f'.data_file)))
db_check_and_repair_cases_example = db_check_and_repair_cases no_row true (fails true) broken refl
