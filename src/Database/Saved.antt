-- ===== src/Database/Saved.antt =====
-- app/core/db_manager.c: what becomes of the samples that the batch asks SQLite to store, when SQLite
-- may refuse any call and the code looks at no result. SQLite is given by what its manual says of
-- transactions.
use edge_omni.Common.{
  ◌≡◌, ◌≢◌, ◌⊎◌, inl, inr, refl, sym, ◌∙◌, ap, arith, Bool, true, false, Option, none, some, List,
  [], ◌∷◌, ◌++◌, map,
}
use mathlib.Core.List.{append_assoc, append-nil}
use edge_omni.Database.{
  SensorRecord, Timespec, Call, begin_transaction, begin_immediate, commit, checkpoint, statement,
  insert_sensor, insert_alarm, Db, Insertion, stored, insert_all, db_close,
}
use edge_omni.Database.Batch.{
  rows_of, rows_of-append, in_transaction, accepted, IsOpen, insert_all-db_close,
}

-- The rows of sensor_data that are committed, and those of the open transaction, if there is one.
-- Closing keeps the first and drops the second.
pub record Disk : Type 0 where
  pub saved : List SensorRecord
  pub pending : Option (List SensorRecord)

abbrev pub inserted : SensorRecord → Disk → Disk
inserted r d = elim d.pending [
  | none ↦ record d { saved = d.saved ++ (r ∷ []) }
  | some rs ↦ record d { pending = some (rs ++ (r ∷ [])) }
]

-- What a call does that succeeds: a transaction begins only where none is open, and only one that is
-- open can be committed; a row outside a transaction is committed at once.
abbrev pub Done : Call → Disk → Disk → Type 0
Done begin_transaction d d' = (d.pending ≡ none) × (d' ≡ record d { pending = some [] })
Done begin_immediate d d' = (d.pending ≡ none) × (d' ≡ record d { pending = some [] })
Done commit d d' =
    (rs : List SensorRecord) × (d.pending ≡ some rs)
    × (d' ≡ record { saved = d.saved ++ rs; pending = none })
Done (insert_sensor r) d d' = d' ≡ inserted r d
Done (insert_alarm t a l m) d d' = d' ≡ d
Done checkpoint d d' = d' ≡ d
Done (statement q) d d' = d' ≡ d

-- One that fails has done nothing, or has rolled the transaction back.
abbrev pub Failed : Disk → Disk → Type 0
Failed d d' = (d' ≡ d) ⊎ (d' ≡ record d { pending = none })

pub record Sqlite (Store : Type 0) : Type 0 where
  pub view : Store → Disk
  pub run : Call → Store → Store
  pub documented :
      (c : Call) (s : Store) → Done c (view s) (view (run c s)) ⊎ Failed (view s) (view (run c s))

-- A transaction can be begun where none is open, and committed where one is.
abbrev pub IsAllowed : Call → Disk → Type 0
IsAllowed begin_transaction d = d.pending ≡ none
IsAllowed begin_immediate d = d.pending ≡ none
IsAllowed commit d = d.pending ≢ none
IsAllowed (insert_sensor r) d = Unit
IsAllowed (insert_alarm t a l m) d = Unit
IsAllowed checkpoint d = Unit
IsAllowed (statement q) d = Unit

-- The first list with some elements left out of the second, in the same order.
pub data IsPart : List SensorRecord → List SensorRecord → Type 0 where
  nothing : IsPart [] []
  lost : {r : SensorRecord} {xs ys : List SensorRecord} → IsPart xs ys → IsPart xs (r ∷ ys)
  kept : {r : SensorRecord} {xs ys : List SensorRecord} → IsPart xs ys → IsPart (r ∷ xs) (r ∷ ys)

IsPart-none : (ys : List SensorRecord) → IsPart [] ys
IsPart-none [] = nothing
IsPart-none (y ∷ ys) = lost (IsPart-none ys)

IsPart-refl : (xs : List SensorRecord) → IsPart xs xs
IsPart-refl [] = nothing
IsPart-refl (x ∷ xs) = kept (IsPart-refl xs)

IsPart-more :
    {xs ys : List SensorRecord} (zs : List SensorRecord) → IsPart xs ys → IsPart xs (ys ++ zs)
IsPart-more zs nothing = IsPart-none zs
IsPart-more zs (lost h) = lost (IsPart-more zs h)
IsPart-more zs (kept h) = kept (IsPart-more zs h)

IsPart-both :
    {xs ys : List SensorRecord} (zs : List SensorRecord)
    → IsPart xs ys
    → IsPart (xs ++ zs) (ys ++ zs)
IsPart-both zs nothing = IsPart-refl zs
IsPart-both zs (lost h) = lost (IsPart-both zs h)
IsPart-both zs (kept h) = kept (IsPart-both zs h)

IsPart-first : (xs ys zs : List SensorRecord) → IsPart (xs ++ ys) zs → IsPart xs zs
IsPart-first [] ys zs h = IsPart-none zs
IsPart-first (x ∷ xs) ys [] h = elim h [ ]
IsPart-first (x ∷ xs) ys (z ∷ zs) (lost h) = lost (IsPart-first (x ∷ xs) ys zs h)
IsPart-first (x ∷ xs) ys (z ∷ zs) (kept h) = kept (IsPart-first xs ys zs h)

abbrev pending_rows : Option (List SensorRecord) → List SensorRecord
pending_rows none = []
pending_rows (some rs) = rs

-- The rows that are committed, and then those that may still be.
abbrev pub rows : Disk → List SensorRecord
rows d = d.saved ++ pending_rows d.pending

rows-inserted :
    (r : SensorRecord) (saved : List SensorRecord) (pending : Option (List SensorRecord))
    → let d : Disk = record { saved = saved; pending = pending } in
      rows (inserted r d) ≡ rows d ++ (r ∷ [])
rows-inserted r saved none =
    append-nil (saved ++ (r ∷ [])) ∙ ap (λ l. l ++ (r ∷ [])) (sym (append-nil saved))
rows-inserted r saved (some rs) = sym (append_assoc saved rs (r ∷ []))

pending_begun : (d : Disk) → d.pending ≡ none → rows (record d { pending = some [] }) ≡ rows d
pending_begun d h = rw h refl

-- A call that succeeds adds its row and no other.
rows-Done : (c : Call) (d d' : Disk) → Done c d d' → rows d' ≡ rows d ++ rows_of (c ∷ [])
rows-Done begin_transaction d d' (idle, e) = rw e (pending_begun d idle ∙ sym (append-nil (rows d)))
rows-Done begin_immediate d d' (idle, e) = rw e (pending_begun d idle ∙ sym (append-nil (rows d)))
rows-Done commit d d' (rs, there, e) = rw (e, there) (refl)
rows-Done (insert_sensor r) d d' e = rw e (rows-inserted r d.saved d.pending)
rows-Done (insert_alarm t a l m) d d' e = rw e (sym (append-nil (rows d)))
rows-Done checkpoint d d' e = rw e (sym (append-nil (rows d)))
rows-Done (statement q) d d' e = rw e (sym (append-nil (rows d)))

-- Whether a transaction is open, after a call that succeeds.
abbrev is_some : Option (List SensorRecord) → Bool
is_some none = false
is_some (some rs) = true

-- In a log that keeps to its transactions each call can be made, and then the rest of it.
IsAllowed-next :
    (c : Call) (cs : List Call) (saved : List SensorRecord) (pending : Option (List SensorRecord))
    → let d : Disk = record { saved = saved; pending = pending } in
      in_transaction (is_some pending) (c ∷ cs) ≡ some false
      → IsAllowed c d
        × ((d' : Disk) → Done c d d' → in_transaction (is_some d'.pending) cs ≡ some false)
IsAllowed-next begin_transaction cs saved none h = (refl, λ d' done. rw done.1 h)
IsAllowed-next begin_transaction cs saved (some rs) h = absurd (cc)
IsAllowed-next begin_immediate cs saved none h = (refl, λ d' done. rw done.1 h)
IsAllowed-next begin_immediate cs saved (some rs) h = absurd (cc)
IsAllowed-next commit cs saved none h = absurd (cc)
IsAllowed-next commit cs saved (some rs) h = ((λ e. absurd (cc)), λ d' done. rw done.2 h)
IsAllowed-next (insert_sensor r) cs saved none h = absurd (cc)
IsAllowed-next (insert_sensor r) cs saved (some rs) h = (tt, λ d' done. rw done h)
IsAllowed-next (insert_alarm t a l m) cs saved none h = absurd (cc)
IsAllowed-next (insert_alarm t a l m) cs saved (some rs) h = (tt, λ d' done. rw done h)
IsAllowed-next checkpoint cs saved none h = (tt, λ d' done. rw done h)
IsAllowed-next checkpoint cs saved (some rs) h = absurd (cc)
IsAllowed-next (statement q) cs saved none h = (tt, λ d' done. rw done h)
IsAllowed-next (statement q) cs saved (some rs) h = absurd (cc)

committed : (d : Disk) → is_some d.pending ≡ false → rows d ≡ d.saved
committed d h = go d.saved d.pending h
  where
    go :
        (saved : List SensorRecord) (pending : Option (List SensorRecord))
        → is_some pending ≡ false
        → saved ++ pending_rows pending ≡ saved
    go saved none h = append-nil saved
    go saved (some rs) h = absurd (cc)

module _ {Store : Type 0} (sqlite : Sqlite Store) where
  open sqlite use {view, run, documented}

  unfoldable pub run_all : List Call → Store → Store
  run_all [] s = s
  run_all (c ∷ cs) s = run_all cs (run c s)

  run-IsPart :
      (c : Call) (s : Store) (all : List SensorRecord)
      → IsPart (rows (view s)) all
      → IsPart (rows (view (run c s))) (all ++ rows_of (c ∷ []))
  run-IsPart c s all h = elim (documented c s) [
    | inl done ↦ rw (rows-Done c (view s) (view (run c s)) done) (IsPart-both (rows_of (c ∷ [])) h)
    | inr (inl same) ↦ rw same (IsPart-more (rows_of (c ∷ [])) h)
    | inr (inr rolled_back) ↦
        rw (rolled_back, append-nil)
          (IsPart-more (rows_of (c ∷ []))
            (IsPart-first (view s).saved (pending_rows (view s).pending) all h))
  ]

  run_all-IsPart :
      (cs : List Call) (s : Store) (all : List SensorRecord)
      → IsPart (rows (view s)) all
      → IsPart (rows (view (run_all cs s))) (all ++ rows_of cs)
  unfolding run_all
  run_all-IsPart [] s all h = rw append-nil h
  run_all-IsPart (c ∷ cs) s all h =
      let rest = run_all-IsPart cs (run c s) (all ++ rows_of (c ∷ [])) (run-IsPart c s all h) in
      let split : rows_of (c ∷ cs) ≡ rows_of (c ∷ []) ++ rows_of cs = rows_of-append (c ∷ []) cs in
      rw (split, ← append_assoc all (rows_of (c ∷ [])) (rows_of cs)) rest

  -- Whatever SQLite answers, and whatever the times at which the batch is written: what a run on
  -- an open database and db_close leave committed are rows that were there or accepted samples,
  -- each at most once and in their order; some may be lost.
  pub saved_once :
      (is : List Insertion) (now : Timespec) (s : Db) (store : Store)
      → IsOpen s
      → (s' : Db) × (insert_all is s ≡ some s')
        × IsPart
            (view (run_all (db_close now s').calls store)).saved
            (rows (view store) ++ (accepted s ++ map stored is))
  saved_once is now s store o =
      let (last, runs, written, balanced) = insert_all-db_close is now s o in
      let d : Disk = view (run_all (db_close now last).calls store) in
      let part =
        run_all-IsPart (db_close now last).calls store (rows (view store))
          (IsPart-refl (rows (view store))) in
      (
        last,
        runs,
        IsPart-first d.saved (pending_rows d.pending)
            (rows (view store) ++ (accepted s ++ map stored is)) (rw written at part),
      )

  run_all-rows :
      ((c : Call) (s : Store) → IsAllowed c (view s) → Done c (view s) (view (run c s)))
      → (cs : List Call) (s : Store) → in_transaction (is_some (view s).pending) cs ≡ some false
      → (rows (view (run_all cs s)) ≡ rows (view s) ++ rows_of cs)
        × (is_some (view (run_all cs s)).pending ≡ false)
  unfolding run_all
  run_all-rows fine [] s h = (sym (append-nil (rows (view s))), ground arith)
  run_all-rows fine (c ∷ cs) s h =
      let (can, next) = IsAllowed-next c cs (view s).saved (view s).pending h in
      let done = fine c s can in
      let (all, closed) = run_all-rows fine cs (run c s) (next (view (run c s)) done) in
      let split : rows_of (c ∷ cs) ≡ rows_of (c ∷ []) ++ rows_of cs = rows_of-append (c ∷ []) cs in
      (
        all
            ∙ ap (λ l. l ++ rows_of cs) (rows-Done c (view s) (view (run c s)) done)
            ∙ append_assoc (rows (view s)) (rows_of (c ∷ [])) (rows_of cs)
            ∙ ap (◌++◌ (rows (view s))) (sym split),
        closed,
      )

  -- If SQLite runs every call that can be made, a run on an open database and db_close leave
  -- committed the rows that were there and behind them every accepted sample, in order.
  pub all_saved :
      ((c : Call) (s : Store) → IsAllowed c (view s) → Done c (view s) (view (run c s)))
      → (is : List Insertion) (now : Timespec) (s : Db) (store : Store) → IsOpen s
      → (view store).pending ≡ none
      → (s' : Db) × (insert_all is s ≡ some s')
        × ((view (run_all (db_close now s').calls store)).saved
            ≡ (view store).saved ++ (accepted s ++ map stored is))
  all_saved fine is now s store o idle =
      let (last, runs, written, balanced) = insert_all-db_close is now s o in
      let d : Disk = view (run_all (db_close now last).calls store) in
      let none_open : is_some (view store).pending ≡ false = rw idle refl in
      let (all, closed) =
        run_all-rows fine (db_close now last).calls store (rw none_open balanced) in
      (
        last,
        runs,
        sym (committed d closed)
            ∙ all
            ∙ ap (λ l. l ++ rows_of (db_close now last).calls) (committed (view store) none_open)
            ∙ ap (◌++◌ (view store).saved) written,
      )
