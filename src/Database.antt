-- ===== src/Database.antt =====
-- app/core/db_manager.c: the batch of samples in front of SQLite. What is asked of SQLite is logged,
-- the oldest call first; its results are not looked at by the code of the batch, so that the log does not
-- depend on them; Database.Saved says what becomes of the rows. A text is the list of its bytes.
pub mod Batch
pub mod Open
pub mod Repair
pub mod Saved
mod Tests
use edge_omni.Common.{
  ℕ, zero, suc, ◌+◌, ◌-◌, ◌*◌, ◌/◌, ◌≤◌, ◌<◌, Bool, true, false, not, ◌||◌, Option, none, some,
  List, [], ◌∷◌, ◌++◌, map, ltb, leb, ◌==◌, if◌then◌else◌, take, set, length, replicate,
}
use edge_omni.Common.Int.{ℤ, pos, negsuc}

abbrev pub batch_size : ℕ
batch_size = 10

abbrev pub batch_timeout_ms : ℕ
batch_timeout_ms = 50

abbrev pub Text : Type 0
Text = List ℕ

-- `SensorRecord`. The collector passes only integers for the `double`.
pub record SensorRecord : Type 0 where
  pub timestamp : ℤ
  pub sensor_type : Text
  pub channel : Text
  pub value : ℤ

pub record Timespec : Type 0 where
  pub tv_sec : ℕ
  pub tv_nsec : ℕ

-- The statements that are run for what they do to the database as a whole.
pub data Statement : Type 0 where
  create_sensor_data create_alarm_log create_system_log : Statement
  journal_mode_wal synchronous_normal vacuum : Statement

-- BEGIN TRANSACTION, BEGIN IMMEDIATE, COMMIT, a row of sensor_data, a row of alarm_log, and a
-- checkpoint of the journal.
pub data Call : Type 0 where
  begin_transaction begin_immediate commit checkpoint : Call
  statement : Statement → Call
  insert_sensor : SensorRecord → Call
  insert_alarm : (timestamp : ℤ) (alarm_type : Text) (level : ℤ) (message : Text) → Call

-- `db != NULL` and the static variables, with the log.
pub record Db : Type 0 where
  pub opened : Bool
  pub batch_buffer : List SensorRecord
  pub batch_count : ℕ
  pub last_flush_time : Timespec
  pub calls : List Call

-- What the loop over the batch asks for.
abbrev pub batch_calls : Db → List Call
batch_calls s = map insert_sensor (take s.batch_count s.batch_buffer)

-- `db_flush_batch`, with the time that it reads at its end.
unfoldable pub db_flush_batch : Timespec → Db → Db
db_flush_batch now s = if s.batch_count == 0 || not s.opened then s else record s {
  batch_count = 0;
  last_flush_time = now;
  calls = s.calls ++ (begin_transaction ∷ (batch_calls s ++ (commit ∷ [])));
}

-- `elapsed_ms >= BATCH_TIMEOUT_MS`: the nanoseconds may run backwards, and are divided towards zero.
abbrev pub is_due : Timespec → Timespec → Bool
is_due now last =
    leb (batch_timeout_ms + (last.tv_nsec - now.tv_nsec) / 1000000)
      ((now.tv_sec - last.tv_sec) * 1000 + (now.tv_nsec - last.tv_nsec) / 1000000)

-- The arguments of a call of `db_insert_sensor`, and the three times that may be read in it.
pub record Insertion : Type 0 where
  pub timestamp : ℤ
  pub sensor_type : Text
  pub channel : Text
  pub value : ℤ
  pub flushed_full : Timespec
  pub now : Timespec
  pub flushed_due : Timespec

-- What is stored: a field has room for 15 bytes.
abbrev pub stored : Insertion → SensorRecord
stored i = record {
  timestamp = i.timestamp;
  sensor_type = take 15 i.sensor_type;
  channel = take 15 i.channel;
  value = i.value;
}

-- `db_insert_sensor`. `none` is a store past the end of the buffer.
unfoldable pub db_insert_sensor : Insertion → Db → Option Db
unfolding db_flush_batch
db_insert_sensor i s =
    let ready = if leb batch_size s.batch_count then db_flush_batch i.flushed_full s else s in
    let added = record ready {
      batch_buffer = set ready.batch_buffer ready.batch_count (stored i);
      batch_count = ready.batch_count + 1;
    } in
    if ltb ready.batch_count batch_size
    then some
        (if is_due i.now added.last_flush_time then db_flush_batch i.flushed_due added else added)
    else none

unfoldable pub insert_all : List Insertion → Db → Option Db
unfolding db_insert_sensor
insert_all [] s = some s
insert_all (i ∷ is) s = elim (db_insert_sensor i s) [ none ↦ none | some s' ↦ insert_all is s' ]

-- `db_close`
unfoldable pub db_close : Timespec → Db → Db
unfolding db_flush_batch
db_close now s = if s.opened then record (db_flush_batch now s) { opened = false } else s

-- `db_insert_alarm`
unfoldable pub db_insert_alarm : ℤ → Text → ℤ → Text → Db → ℤ × Db
db_insert_alarm timestamp alarm_type level message s = if not s.opened then (negsuc 0, s) else (
  pos 0,
  record s {
    calls =
        s.calls
        ++ (begin_immediate
            ∷ insert_alarm timestamp alarm_type level message
            ∷ commit
            ∷ checkpoint
            ∷ []);
  },
)
