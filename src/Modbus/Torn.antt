-- ===== src/Modbus/Torn.antt =====
-- app/modbus/modbus_server.c: the four stores of modbus_server_update_data and the four loads of
-- handle_client, one by one. The collector stores while the server loads. The accesses are atomic
-- and relaxed: here they take effect in one order, which is any.
use edge_omni.Common.{
  ℕ, zero, suc, ◌+◌, ◌≡◌, ◌⊎◌, inl, inr, refl, sym, Bool, true, false, Option, none, some, List, [],
  ◌∷◌, ltb, if◌then◌else◌, All, Any,
}
use mathlib.Core.Path.{subst}
use edge_omni.Modbus.Server.{RegData}

-- A field of g_reg_data by the number of its register.
abbrev pub field : ℕ → RegData → ℕ
field zero d = d.temperature
field (suc zero) d = d.humidity
field (suc (suc zero)) d = d.accel_x
field (suc (suc (suc k))) d = d.accel_y

abbrev pub store_field : ℕ → RegData → RegData → RegData
store_field zero new d = record d { temperature = new.temperature }
store_field (suc zero) new d = record d { humidity = new.humidity }
store_field (suc (suc zero)) new d = record d { accel_x = new.accel_x }
store_field (suc (suc (suc k))) new d = record d { accel_y = new.accel_y }

-- g_reg_data; the data that modbus_server_update_data is storing, if it is called, and the number of
-- its stores; the register that handle_client loads next, and its loads, each with its register, the
-- newest first.
pub record Shared : Type 0 where
  pub reg_data : RegData
  pub updating : Option RegData
  pub stored : ℕ
  pub next_load : ℕ
  pub loads : List (ℕ × ℕ)

-- modbus_server_update_data is called, it stores the next field; handle_client loads the next one.
pub data Access : Type 0 where
  call : RegData → Access
  store load : Access

-- A store of `new`; the fourth is the last one.
unfoldable pub store_next : RegData → Shared → Shared
store_next new s = record s {
  reg_data = store_field s.stored new s.reg_data;
  updating = if ltb s.stored 3 then some new else none;
  stored = if ltb s.stored 3 then s.stored + 1 else 0;
}

unfoldable pub load_next : Shared → Shared
load_next s = record s {
  next_load = if ltb s.next_load 3 then s.next_load + 1 else 0;
  loads = (s.next_load, field s.next_load s.reg_data) ∷ s.loads;
}

unfoldable pub access : Access → Shared → Shared
unfolding load_next store_next
access (call new) s = elim s.updating [
  | none ↦ record s { updating = some new; stored = 0 }
  | some old ↦ s
]
access store s = elim s.updating [ none ↦ s | some new ↦ store_next new s ]
access load s = load_next s

-- The accesses in the order in which they take effect.
unfoldable pub access_all : List Access → Shared → Shared
unfolding access
access_all [] s = s
access_all (a ∷ rest) s = access_all rest (access a s)

-- The data of the calls.
abbrev pub called : List Access → List RegData
called [] = []
called (call new ∷ rest) = new ∷ called rest
called (store ∷ rest) = called rest
called (load ∷ rest) = called rest

-- The value of a register in one of the data.
abbrev pub IsOf : List RegData → ℕ → ℕ → Type 0
IsOf ds k v = Any (λ d. v ≡ field k d) ds

abbrev IsAmong : List RegData → RegData → Type 0
IsAmong ds d = (k : ℕ) → IsOf ds k (field k d)

abbrev Calls : List RegData → Access → Type 0
Calls ds (call new) = IsAmong ds new
Calls ds store = Unit {0}
Calls ds load = Unit {0}

abbrev Pending : List RegData → Option RegData → Type 0
Pending ds none = Unit {0}
Pending ds (some new) = IsAmong ds new

-- What is there, what is being stored and what has been loaded is all of the data `ds`.
abbrev IsFrom : List RegData → Shared → Type 0
IsFrom ds s =
    IsAmong ds s.reg_data × Pending ds s.updating × All (λ (l : ℕ × ℕ). IsOf ds l.0 l.1) s.loads

field-store_field :
    (i k : ℕ) (new d : RegData)
    → (field k (store_field i new d) ≡ field k new) ⊎ (field k (store_field i new d) ≡ field k d)
field-store_field zero zero new d = inl refl
field-store_field zero (suc zero) new d = inr refl
field-store_field zero (suc (suc zero)) new d = inr refl
field-store_field zero (suc (suc (suc k))) new d = inr refl
field-store_field (suc zero) zero new d = inr refl
field-store_field (suc zero) (suc zero) new d = inl refl
field-store_field (suc zero) (suc (suc zero)) new d = inr refl
field-store_field (suc zero) (suc (suc (suc k))) new d = inr refl
field-store_field (suc (suc zero)) zero new d = inr refl
field-store_field (suc (suc zero)) (suc zero) new d = inr refl
field-store_field (suc (suc zero)) (suc (suc zero)) new d = inl refl
field-store_field (suc (suc zero)) (suc (suc (suc k))) new d = inr refl
field-store_field (suc (suc (suc i))) zero new d = inr refl
field-store_field (suc (suc (suc i))) (suc zero) new d = inr refl
field-store_field (suc (suc (suc i))) (suc (suc zero)) new d = inr refl
field-store_field (suc (suc (suc i))) (suc (suc (suc k))) new d = inl refl

-- A store puts one field of the one in the place of the other's.
store_field-IsAmong :
    (ds : List RegData) (i : ℕ) (new d : RegData)
    → IsAmong ds new
    → IsAmong ds d
    → IsAmong ds (store_field i new d)
store_field-IsAmong ds i new d hn hd k = elim (field-store_field i k new d) [
  | inl e ↦ subst (IsOf ds k) (sym e) (hn k)
  | inr e ↦ subst (IsOf ds k) (sym e) (hd k)
]

Pending-if :
    (ds : List RegData) (b : Bool) (new : RegData)
    → IsAmong ds new
    → Pending ds (if b then some new else none)
Pending-if ds true new h = h
Pending-if ds false new h = tt

access-IsFrom :
    (ds : List RegData) (a : Access) (d : RegData) (u : Option RegData) (i j : ℕ)
    (loads : List (ℕ × ℕ))
    → let s : Shared = record {
      reg_data = d;
      updating = u;
      stored = i;
      next_load = j;
      loads = loads;
    } in
      Calls ds a → IsFrom ds s → IsFrom ds (access a s)
unfolding access store_next load_next
access-IsFrom ds (call new) d none i j loads ha h = (h.0, ha, h.2)
access-IsFrom ds (call new) d (some old) i j loads ha h = h
access-IsFrom ds store d none i j loads ha h = h
access-IsFrom ds store d (some new) i j loads ha h =
    (store_field-IsAmong ds i new d h.1 h.0, Pending-if ds (ltb i 3) new h.1, h.2)
access-IsFrom ds load d u i j loads ha h = (h.0, h.1, (h.0 j, h.2))

access_all-IsFrom :
    (ds : List RegData) (accesses : List Access) (s : Shared)
    → All (Calls ds) accesses
    → IsFrom ds s
    → IsFrom ds (access_all accesses s)
unfolding access_all
access_all-IsFrom ds [] s ha h = h
access_all-IsFrom ds (a ∷ accesses) s ha h =
    access_all-IsFrom ds accesses (access a s) ha.1
      (access-IsFrom ds a s.reg_data s.updating s.stored s.next_load s.loads ha.0 h)

called-Calls :
    (ds : List RegData) (accesses : List Access)
    → ((k v : ℕ) → IsOf (called accesses) k v → IsOf ds k v)
    → All (Calls ds) accesses
called-Calls ds [] h = tt
called-Calls ds (call new ∷ accesses) h =
    (λ k. h k (field k new) (inl refl), called-Calls ds accesses (λ k v e. h k v (inr e)))
called-Calls ds (store ∷ accesses) h = (tt, called-Calls ds accesses h)
called-Calls ds (load ∷ accesses) h = (tt, called-Calls ds accesses h)

-- From a state in which no update runs and nothing has been loaded, in whatever order the calls
-- and stores of modbus_server_update_data and the loads of handle_client take effect, each load of
-- a register has the value of that register in the data that was there or in that of one of the
-- calls.
pub loads_are_published :
    (accesses : List Access) (s : Shared)
    → s.updating ≡ none
    → s.loads ≡ []
    → All (λ (l : ℕ × ℕ). IsOf (s.reg_data ∷ called accesses) l.0 l.1) (access_all accesses s).loads
loads_are_published accesses s idle fresh =
    let ds = s.reg_data ∷ called accesses in
    let from : IsFrom ds s = (
      λ k. inl refl,
      subst (Pending ds) (sym idle) tt,
      subst (All (λ (l : ℕ × ℕ). IsOf ds l.0 l.1)) (sym fresh) tt,
    ) in
    (access_all-IsFrom ds accesses s (called-Calls ds accesses (λ k v e. inr e)) from).2
