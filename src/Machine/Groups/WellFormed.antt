-- ===== src/Machine/Groups/WellFormed.antt =====
-- What holds of every dispatch group: its completed slots are its own, each counted once, and each
-- either succeeded or failed (internal/statemachine/statemachine.go).
use workbuddy.Prelude.{
  String, ◌≡◌, refl, inl, inr, Bool, true, false, ◌&&◌, ◌||◌, List, ◌∷◌, arith, str_eq, str_eq_iff,
  contains, Bool-cases,
}
use workbuddy.Machine.Sets.{Subset, Distinct}
use workbuddy.Machine.Groups.{DispatchGroup, slot_keys, new_dispatch_group, mark_slot, mark_task}

pub record IsWellFormed (g : DispatchGroup) : Type 0 where
  pub keyed : Distinct (slot_keys g)
  pub distinct : Distinct g.completed_slots
  pub within : Subset g.completed_slots (slot_keys g)
  pub split :
      (k : String)
      → contains g.completed_slots k ≡ (contains g.success_slots k || contains g.failed_slots k)
  pub apart : (k : String) → (contains g.success_slots k && contains g.failed_slots k) ≡ false

pub new_dispatch_group-IsWellFormed :
    (g : DispatchGroup)
    → Distinct (slot_keys g)
    → IsWellFormed (new_dispatch_group g.workflow g.state g.mode g.join g.slots)
unfolding new_dispatch_group contains
new_dispatch_group-IsWellFormed g d = record {
  keyed = d;
  distinct = tt;
  within = λ k h. absurd (ground arith);
  split = λ k. refl;
  apart = λ k. refl;
}

pub mark_task-IsWellFormed :
    (key : String) (g : DispatchGroup) → IsWellFormed g → IsWellFormed (mark_task key g)
unfolding mark_task
mark_task-IsWellFormed key g w = elim (Bool-cases (str_eq key "")) [
  | inl blank ↦ rw blank w
  | inr named ↦ rw named (record {
    keyed = w.keyed;
    distinct = w.distinct;
    within = w.within;
    split = w.split;
    apart = w.apart;
  })
]

cons-within :
    (k : String) (g : DispatchGroup)
    → IsWellFormed g
    → contains (slot_keys g) k ≡ true
    → Subset (k ∷ g.completed_slots) (slot_keys g)
unfolding contains
cons-within k g w own j h = elim (Bool-cases (str_eq k j)) [
  | inl same ↦ rw (← (str_eq_iff k j).0 same) own
  | inr other ↦ w.within j (ground arith)
]

-- Recording the outcome of one of the group's slots keeps all of it.
pub mark_slot-IsWellFormed :
    (k : String) (passed : Bool) (g : DispatchGroup)
    → contains (slot_keys g) k ≡ true
    → IsWellFormed g
    → IsWellFormed (mark_slot k passed g)
unfolding mark_slot
mark_slot-IsWellFormed k passed g own w = elim (Bool-cases (contains g.completed_slots k)) [
  | inl seen ↦ rw seen w
  | inr fresh ↦ elim (Bool-cases passed) [
    | inl yes_p ↦
        rw (fresh, yes_p)
          (record {
            keyed = w.keyed;
            distinct = (fresh, w.distinct);
            within = cons-within k g w own;
            split = λ j. unfold contains in ground (arith, w.split j);
            apart = λ j.
                unfold contains in
                ground (
                  arith,
                  w.split j,
                  w.apart j,
                  w.split k,
                  fresh,
                  str_eq_iff k j,
                  ap_contains k j g.failed_slots,
                );
          })
    | inr no_p ↦
        rw (fresh, no_p)
          (record {
            keyed = w.keyed;
            distinct = (fresh, w.distinct);
            within = cons-within k g w own;
            split = λ j. unfold contains in ground (arith, w.split j);
            apart = λ j.
                unfold contains in
                ground (
                  arith,
                  w.split j,
                  w.apart j,
                  w.split k,
                  fresh,
                  str_eq_iff k j,
                  ap_contains k j g.success_slots,
                );
          })
  ]
]
  where
    ap_contains : (i j : String) (xs : List String) → i ≡ j → contains xs i ≡ contains xs j
    ap_contains i j xs e = rw e refl
