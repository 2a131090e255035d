-- ===== src/Database/Batch.antt =====
-- Every sample is asked of SQLite once, in order, inside a transaction.
use edge_omni.Common.{
  ◌⊎◌, ℕ, zero, suc, ◌+◌, ◌≤◌, ◌<◌, ◌≡◌, ◌∙◌, refl, sym, ap, arith, Bool, true, false, not, ◌||◌,
  Option, none, some, List, [], ◌∷◌, ◌++◌, map, ltb, leb, ◌==◌, if◌then◌else◌, take, set, length,
  length-set, Bool-cases, inl, inr,
}
use mathlib.Core.List.{append_assoc, append-nil}
use edge_omni.Database.{
  SensorRecord, Timespec, Call, begin_transaction, begin_immediate, commit, checkpoint, statement,
  insert_sensor, insert_alarm, Db, Insertion, batch_size, stored, is_due, db_flush_batch,
  db_insert_sensor, insert_all, db_close,
}

-- The rows of sensor_data that a log has asked for.
abbrev pub rows_of : List Call → List SensorRecord
rows_of [] = []
rows_of (insert_sensor r ∷ cs) = r ∷ rows_of cs
rows_of (_ ∷ cs) = rows_of cs

-- The samples that have been accepted: those in the database, then those in the batch.
abbrev pub accepted : Db → List SensorRecord
accepted s = rows_of s.calls ++ take s.batch_count s.batch_buffer

-- Whether a log leaves a transaction open, or `none` for a row outside one or a begin inside one.
abbrev pub in_transaction : Bool → List Call → Option Bool
in_transaction b [] = some b
in_transaction false (begin_transaction ∷ cs) = in_transaction true cs
in_transaction false (begin_immediate ∷ cs) = in_transaction true cs
in_transaction true (commit ∷ cs) = in_transaction false cs
in_transaction false (checkpoint ∷ cs) = in_transaction false cs
in_transaction false (statement q ∷ cs) = in_transaction false cs
in_transaction true (insert_sensor r ∷ cs) = in_transaction true cs
in_transaction true (insert_alarm t a l m ∷ cs) = in_transaction true cs
in_transaction _ _ = none

-- An open database with a buffer of ten places, and nothing left half done.
pub record IsOpen (s : Db) : Type 0 where
  pub is_opened : s.opened ≡ true
  pub places : length s.batch_buffer ≡ batch_size
  pub fits : s.batch_count ≤ batch_size
  pub balanced : in_transaction false s.calls ≡ some false

pub rows_of-append : (cs ds : List Call) → rows_of (cs ++ ds) ≡ rows_of cs ++ rows_of ds
rows_of-append [] ds = refl
rows_of-append (insert_sensor r ∷ cs) ds = ap (◌∷◌ r) (rows_of-append cs ds)
rows_of-append (begin_transaction ∷ cs) ds = rows_of-append cs ds
rows_of-append (begin_immediate ∷ cs) ds = rows_of-append cs ds
rows_of-append (commit ∷ cs) ds = rows_of-append cs ds
rows_of-append (checkpoint ∷ cs) ds = rows_of-append cs ds
rows_of-append (statement q ∷ cs) ds = rows_of-append cs ds
rows_of-append (insert_alarm t a l m ∷ cs) ds = rows_of-append cs ds

rows_of-batch : (rs : List SensorRecord) → rows_of (map insert_sensor rs ++ (commit ∷ [])) ≡ rs
rows_of-batch [] = refl
rows_of-batch (r ∷ rs) = ap (◌∷◌ r) (rows_of-batch rs)

pub in_transaction-append :
    (b c : Bool) (cs ds : List Call)
    → in_transaction b cs ≡ some c
    → in_transaction b (cs ++ ds) ≡ in_transaction c ds
in_transaction-append b c [] ds h = ap (λ x. in_transaction x ds) (ground arith)
in_transaction-append false c (begin_transaction ∷ cs) ds h = in_transaction-append true c cs ds h
in_transaction-append false c (begin_immediate ∷ cs) ds h = in_transaction-append true c cs ds h
in_transaction-append true c (commit ∷ cs) ds h = in_transaction-append false c cs ds h
in_transaction-append false c (checkpoint ∷ cs) ds h = in_transaction-append false c cs ds h
in_transaction-append false c (statement q ∷ cs) ds h = in_transaction-append false c cs ds h
in_transaction-append true c (insert_sensor r ∷ cs) ds h = in_transaction-append true c cs ds h
in_transaction-append true c (insert_alarm t a l m ∷ cs) ds h = in_transaction-append true c cs ds h
in_transaction-append true c (begin_transaction ∷ cs) ds h = absurd (cc)
in_transaction-append true c (begin_immediate ∷ cs) ds h = absurd (cc)
in_transaction-append true c (checkpoint ∷ cs) ds h = absurd (cc)
in_transaction-append true c (statement q ∷ cs) ds h = absurd (cc)
in_transaction-append false c (commit ∷ cs) ds h = absurd (cc)
in_transaction-append false c (insert_sensor r ∷ cs) ds h = absurd (cc)
in_transaction-append false c (insert_alarm t a l m ∷ cs) ds h = absurd (cc)

batch-in_transaction :
    (rs : List SensorRecord)
    → in_transaction true (map insert_sensor rs ++ (commit ∷ [])) ≡ some false
batch-in_transaction [] = refl
batch-in_transaction (r ∷ rs) = batch-in_transaction rs

take-set :
    (rs : List SensorRecord) (n : ℕ) (r : SensorRecord)
    → n < length rs
    → take (suc n) (set rs n r) ≡ take n rs ++ (r ∷ [])
take-set [] n r h = absurd (omega arith)
take-set (x ∷ rs) zero r h = refl
take-set (x ∷ rs) (suc n) r h = ap (◌∷◌ x) (take-set rs n r (omega arith))

-- What an operation keeps: the samples, and the order of the database.
abbrev Keeps : Db → Db → List SensorRecord → Type 0
Keeps s s' more = (accepted s' ≡ accepted s ++ more) × IsOpen s'

db_flush_batch-Keeps :
    (now : Timespec) (s : Db)
    → IsOpen s
    → Keeps s (db_flush_batch now s) [] × ((db_flush_batch now s).batch_count ≡ 0)
unfolding db_flush_batch
db_flush_batch-Keeps now s o = elim (Bool-cases (s.batch_count == 0 || not s.opened)) [
  | inl nothing ↦ rw nothing ((sym (append-nil (accepted s)), o), ground (arith, o.is_opened))
  | inr some_rows ↦
      let batch : List SensorRecord = take s.batch_count s.batch_buffer in
      let written : List Call = begin_transaction ∷ (map insert_sensor batch ++ (commit ∷ [])) in
      rw some_rows (
        (
          append-nil (rows_of (s.calls ++ written))
              ∙ rows_of-append s.calls written
              ∙ ap (◌++◌ (rows_of s.calls)) (rows_of-batch batch)
              ∙ sym (append-nil (accepted s)),
          record {
            is_opened = o.is_opened;
            places = o.places;
            fits = omega arith;
            balanced =
                in_transaction-append false false s.calls written o.balanced
                ∙ batch-in_transaction batch;
          },
        ),
        refl,
      )
]

added-Keeps :
    (r : SensorRecord) (s : Db)
    → IsOpen s
    → s.batch_count < batch_size
    → Keeps s
        (record s {
          batch_buffer = set s.batch_buffer s.batch_count r;
          batch_count = s.batch_count + 1;
        })
        (r ∷ [])
added-Keeps r s o room =
    let next : s.batch_count + 1 ≡ suc s.batch_count = omega arith in
    (
      ap (λ n. rows_of s.calls ++ take n (set s.batch_buffer s.batch_count r)) next
          ∙ ap (◌++◌ (rows_of s.calls))
              (take-set s.batch_buffer s.batch_count r (omega (arith, o.places, room)))
          ∙ sym (append_assoc (rows_of s.calls) (take s.batch_count s.batch_buffer) (r ∷ [])),
      record {
        is_opened = o.is_opened;
        places = length-set s.batch_buffer s.batch_count r ∙ o.places;
        fits = omega arith;
        balanced = o.balanced;
      },
    )

Keeps-trans :
    (s t u : Db) (xs ys : List SensorRecord) → Keeps s t xs → Keeps t u ys → Keeps s u (xs ++ ys)
Keeps-trans s t u xs ys (a, o) (b, p) =
    (b ∙ ap (λ l. l ++ ys) a ∙ append_assoc (accepted s) xs ys, p)

-- A call of `db_insert_sensor` stores within the buffer, and accepts its sample behind all others.
db_insert_sensor-Keeps :
    (i : Insertion) (s : Db)
    → IsOpen s
    → (s' : Db) × (db_insert_sensor i s ≡ some s') × Keeps s s' (stored i ∷ [])
unfolding db_insert_sensor
db_insert_sensor-Keeps i s o =
    let ready : Db = if leb batch_size s.batch_count then db_flush_batch i.flushed_full s else s in
    let (before, room) = go (Bool-cases (leb batch_size s.batch_count)) in
    let added : Db = record ready {
      batch_buffer = set ready.batch_buffer ready.batch_count (stored i);
      batch_count = ready.batch_count + 1;
    } in
    let after = added-Keeps (stored i) ready before.1 room in
    let to_added = Keeps-trans s ready added [] (stored i ∷ []) before after in
    let has_room : ltb ready.batch_count batch_size ≡ true = ground arith in
    elim (Bool-cases (is_due i.now added.last_flush_time)) [
      | inl due ↦ (
        db_flush_batch i.flushed_due added,
        rw (has_room, due) refl,
        Keeps-trans s added (db_flush_batch i.flushed_due added) (stored i ∷ []) [] to_added
            (db_flush_batch-Keeps i.flushed_due added to_added.1).0,
      )
      | inr not_due ↦ (added, rw (has_room, not_due) refl, to_added)
    ]
  where
    go :
        (leb batch_size s.batch_count ≡ true) ⊎ (leb batch_size s.batch_count ≡ false)
        → let ready : Db =
            if leb batch_size s.batch_count then db_flush_batch i.flushed_full s else s in
          Keeps s ready [] × (ready.batch_count < batch_size)
    go (inl full) =
        let (kept, none_left) = db_flush_batch-Keeps i.flushed_full s o in
        rw full (kept, omega (arith, none_left))
    go (inr room) = rw room ((sym (append-nil (accepted s)), o), ground arith)

-- Whatever the times at which the batch is written, a run of db_insert_sensor on an open database
-- never stores past the end of the buffer; each sample is accepted once and in the order of the
-- calls, behind those before the run, and every row asked of SQLite stands in a transaction.
pub insert_all-Keeps :
    (is : List Insertion) (s : Db)
    → IsOpen s
    → (s' : Db) × (insert_all is s ≡ some s')
      × (accepted s' ≡ accepted s ++ map stored is)
      × IsOpen s'
unfolding insert_all
insert_all-Keeps [] s o = (s, refl, sym (append-nil (accepted s)), o)
insert_all-Keeps (i ∷ is) s o =
    let (next, stored_now, kept) = db_insert_sensor-Keeps i s o in
    let (last, runs, all_kept, o') = insert_all-Keeps is next kept.1 in
    (
      last,
      rw (stored_now, insert_all) runs,
      all_kept
          ∙ ap (λ l. l ++ map stored is) kept.0
          ∙ append_assoc (accepted s) (stored i ∷ []) (map stored is),
      o',
    )

-- A run on an open database and db_close ask SQLite for exactly the accepted samples as rows, in
-- order, and for a COMMIT after every BEGIN.
pub insert_all-db_close :
    (is : List Insertion) (now : Timespec) (s : Db)
    → IsOpen s
    → (s' : Db) × (insert_all is s ≡ some s')
      × (rows_of (db_close now s').calls ≡ accepted s ++ map stored is)
      × (in_transaction false (db_close now s').calls ≡ some false)
unfolding db_close
insert_all-db_close is now s o =
    let (last, runs, all_kept, o') = insert_all-Keeps is s o in
    let (kept, none_left) = db_flush_batch-Keeps now last o' in
    let closed : Db = db_flush_batch now last in
    let empty_batch : rows_of closed.calls ≡ accepted closed =
      sym (append-nil (rows_of closed.calls))
      ∙ ap (λ n. rows_of closed.calls ++ take n closed.batch_buffer) (sym none_left) in
    let written : rows_of closed.calls ≡ accepted s ++ map stored is =
      empty_batch ∙ kept.0 ∙ append-nil (accepted last) ∙ all_kept in
    (
      last,
      runs,
      ap (λ b. rows_of (if b then record closed { opened = false } else last).calls) o'.is_opened
          ∙ written,
      ap (λ b. in_transaction false (if b then record closed { opened = false } else last).calls)
            o'.is_opened
          ∙ kept.1.balanced,
    )
