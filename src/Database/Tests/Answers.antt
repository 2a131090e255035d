-- ===== src/Database/Tests/Answers.antt =====
-- Two concrete databases: one that runs every call it can, and one that refuses calls.
use edge_omni.Common.{
  ◌⊎◌, inl, inr, refl, Bool, true, false, Option, none, some, List, [], ◌∷◌, ◌++◌,
}
use edge_omni.Database.{
  SensorRecord, Call, begin_transaction, begin_immediate, commit, checkpoint, statement,
  insert_sensor, insert_alarm,
}
use edge_omni.Database.Saved.{Disk, inserted, Done, Failed, Sqlite, IsAllowed}

abbrev pub empty_disk : Disk
empty_disk = record { saved = []; pending = none }

abbrev begun : Disk → Disk
begun d = elim d.pending [ none ↦ record d { pending = some [] } | some rs ↦ d ]

unfoldable pub answer : Call → Disk → Disk
answer begin_transaction d = begun d
answer begin_immediate d = begun d
answer commit d = elim d.pending [
  | none ↦ d
  | some rs ↦ record { saved = d.saved ++ rs; pending = none }
]
answer (insert_sensor r) d = inserted r d
answer (insert_alarm t a l m) d = d
answer checkpoint d = d
answer (statement q) d = d

pub answered :
    (c : Call) (saved : List SensorRecord) (pending : Option (List SensorRecord))
    → let d : Disk = record { saved = saved; pending = pending } in
      Done c d (answer c d) ⊎ Failed d (answer c d)
unfolding answer
answered begin_transaction saved none = inl (refl, refl)
answered begin_transaction saved (some rs) = inr (inl refl)
answered begin_immediate saved none = inl (refl, refl)
answered begin_immediate saved (some rs) = inr (inl refl)
answered commit saved none = inr (inl refl)
answered commit saved (some rs) = inl (rs, refl, refl)
answered (insert_sensor r) saved pending = inl refl
answered (insert_alarm t a l m) saved pending = inl refl
answered checkpoint saved pending = inl refl
answered (statement q) saved pending = inl refl

allowed_done :
    (c : Call) (saved : List SensorRecord) (pending : Option (List SensorRecord))
    → let d : Disk = record { saved = saved; pending = pending } in
      IsAllowed c d → Done c d (answer c d)
unfolding answer
allowed_done begin_transaction saved none h = (refl, refl)
allowed_done begin_transaction saved (some rs) h = absurd (cc)
allowed_done begin_immediate saved none h = (refl, refl)
allowed_done begin_immediate saved (some rs) h = absurd (cc)
allowed_done commit saved none h = absurd (h refl)
allowed_done commit saved (some rs) h = (rs, refl, refl)
allowed_done (insert_sensor r) saved pending h = refl
allowed_done (insert_alarm t a l m) saved pending h = refl
allowed_done checkpoint saved pending h = refl
allowed_done (statement q) saved pending h = refl

-- It runs every call that can be made.
abbrev pub willing : Sqlite Disk
willing = record { view = λ d. d; run = answer; documented = λ c d. answered c d.saved d.pending }

pub willing_fine : (c : Call) (d : Disk) → IsAllowed c d → Done c d (answer c d)
willing_fine c d = allowed_done c d.saved d.pending

-- A list says which of the next calls it runs; after that it runs all.
unfoldable pub heard : Call → Disk → List Bool → Disk × List Bool
heard c d [] = (answer c d, [])
heard c d (true ∷ later) = (answer c d, later)
heard c d (false ∷ later) = (d, later)

pub heard_documented :
    (c : Call) (d : Disk) (answers : List Bool)
    → Done c d (heard c d answers).0 ⊎ Failed d (heard c d answers).0
unfolding heard
heard_documented c d [] = answered c d.saved d.pending
heard_documented c d (true ∷ later) = answered c d.saved d.pending
heard_documented c d (false ∷ later) = inr (inl refl)

abbrev pub refusing : Sqlite (Disk × List Bool)
refusing = record {
  view = λ s. s.0;
  run = λ c s. heard c s.0 s.1;
  documented = λ c s. heard_documented c s.0 s.1;
}
