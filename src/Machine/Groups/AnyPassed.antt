-- ===== src/Machine/Groups/AnyPassed.antt =====
-- When a dispatch group is done, and with which outcome, under the join that takes the first success
-- (internal/statemachine/statemachine.go, MarkAgentCompletedWithDecision).
use workbuddy.Prelude.{
  ◌<◌, String, ◌≡◌, refl, ap, ◌∙◌, ◌⊎◌, inl, inr, Bool, true, false, not, ◌&&◌, some, [], ◌∷◌,
  arith, if◌then◌else◌, str_eq, length, contains, Bool-cases, trim_space, is_zero, ℤ,
}
use workbuddy.Store.Tasks.Queue.{Tasks}
use workbuddy.Machine.Config.{join_any_passed}
use workbuddy.Machine.Sets.{Subset, contains_head}
use workbuddy.Machine.Groups.{
  DispatchGroup, slot_keys, Completed, identify, waiting, advance, all_completed, is_nil,
  join_verdict, mark_task, mark_slot, Completion, no_group, seen_task, foreign_slot, recorded,
  complete_slot, complete_in_group, completion_of, mark_agent_completed,
}
use workbuddy.Machine.Groups.Reported.{Reported, mark_agent_completed-Reported}
use workbuddy.Machine.Groups.WellFormed.{
  IsWellFormed, mark_task-IsWellFormed, mark_slot-IsWellFormed,
}
use workbuddy.Machine.Groups.Joins.{SomeIn, whole, any≠rollouts, str_eq_refl, mark_slot-joins}

abbrev pub AllFailed : DispatchGroup → Type 0
AllFailed g = Subset (slot_keys g) g.failed_slots

-- A group that joins by `any_passed` and is still in flight.
pub record IsAnyOpen (g : DispatchGroup) : Type 0 where
  pub joins : g.join.strategy ≡ join_any_passed
  pub formed : IsWellFormed g
  pub unpassed : g.success_slots ≡ []

-- What one completion of it comes to.
abbrev pub AnyDecided : Completion → Type 0
AnyDecided no_group = ⊥
AnyDecided seen_task = Unit
AnyDecided (foreign_slot g) = IsAnyOpen g
AnyDecided (recorded g v) =
    ((v ≡ advance true) × SomeIn g.success_slots g)
    ⊎ ((v ≡ advance false) × AllFailed g)
    ⊎ ((v ≡ waiting) × IsAnyOpen g × (length g.completed_slots < length g.slots))

verdict_any :
    (fresh passed : Bool) (group : String) (tasks : Tasks) (g : DispatchGroup)
    → g.join.strategy ≡ join_any_passed
    → join_verdict fresh passed group tasks g ≡ (
        if fresh && passed && not (is_nil g.success_slots)
        then advance true
        else if all_completed g
        then advance false
        else waiting)
unfolding join_verdict
verdict_any fresh passed group tasks g e = rw (e, any≠rollouts, str_eq_refl join_any_passed) refl

mark_slot-passed :
    (k : String) (p : Bool) (g : DispatchGroup)
    → (not (contains g.completed_slots k) && p) ≡ false
    → (mark_slot k p g).success_slots ≡ g.success_slots
unfolding mark_slot
mark_slot-passed k p g e = ground arith

mark_slot-passes :
    (k : String) (p : Bool) (g : DispatchGroup)
    → (not (contains g.completed_slots k) && p) ≡ true
    → (mark_slot k p g).success_slots ≡ k ∷ g.success_slots
unfolding mark_slot
mark_slot-passes k p g e = ground arith

all_failed :
    (g : DispatchGroup)
    → IsWellFormed g
    → all_completed g ≡ true
    → g.success_slots ≡ []
    → AllFailed g
unfolding contains
all_failed g w e s k h =
    let passed_not : contains g.success_slots k ≡ false = rw s refl in
    ground (arith, whole g w e k h, w.split k, passed_not)

any_outcome :
    (k : String) (fresh passed : Bool) (group : String) (tasks : Tasks) (g : DispatchGroup)
    → g.join.strategy ≡ join_any_passed
    → IsWellFormed g
    → contains (slot_keys g) k ≡ true
    → ((fresh && passed) ≡ true → contains g.success_slots k ≡ true)
    → ((fresh && passed) ≡ true → is_nil g.success_slots ≡ false)
    → ((fresh && passed) ≡ false → g.success_slots ≡ [])
    → AnyDecided (recorded g (join_verdict fresh passed group tasks g))
any_outcome k fresh passed group tasks g j w own passes there keeps =
    rw (verdict_any fresh passed group tasks g j) (elim (Bool-cases (fresh && passed)) [
      | inl success ↦ inl (ground (arith, there success), (k, own, passes success))
      | inr fine ↦ elim (Bool-cases (all_completed g)) [
        | inl done ↦ inr (inl (ground arith, all_failed g w done (keeps fine)))
        | inr open_g ↦ inr (
            inr
              (ground arith, record { joins = j; formed = w; unpassed = keeps fine }, ground arith))
      ]
    ])

mark_slot-slots : (k : String) (p : Bool) (g : DispatchGroup) → (mark_slot k p g).slots ≡ g.slots
unfolding mark_slot
mark_slot-slots k p g = ground arith

slot-AnyDecided :
    (c : Completed) (passed : Bool) (tasks : Tasks) (g : DispatchGroup)
    → IsAnyOpen g
    → AnyDecided (complete_slot c passed tasks g)
unfolding complete_slot
slot-AnyDecided c passed tasks g o = elim (Bool-cases (contains (slot_keys g) c.slot_key)) [
  | inr foreign ↦ rw foreign o
  | inl own ↦ rw own (
      any_outcome c.slot_key _ passed _ tasks (mark_slot c.slot_key passed g)
        (ap (λ j. j.strategy) (mark_slot-joins c.slot_key passed g) ∙ o.joins)
        (mark_slot-IsWellFormed c.slot_key passed g own o.formed)
        (rw (mark_slot-slots c.slot_key passed g) own)
        (λ e.
          rw (mark_slot-passes c.slot_key passed g e) (contains_head c.slot_key g.success_slots))
        (λ e. rw (mark_slot-passes c.slot_key passed g e) refl)
        (λ e. mark_slot-passed c.slot_key passed g e ∙ o.unpassed))
]

mark_task-IsAnyOpen : (key : String) (g : DispatchGroup) → IsAnyOpen g → IsAnyOpen (mark_task key g)
unfolding mark_task
mark_task-IsAnyOpen key g o = elim (Bool-cases (str_eq key "")) [
  | inl blank ↦ rw blank o
  | inr named ↦
      let formed = mark_task-IsWellFormed key g o.formed in
      rw named (record { joins = o.joins; formed = rw named at formed; unpassed = o.unpassed })
]

group-AnyDecided :
    (task_id agent_name : String) (exit_code : ℤ) (tasks : Tasks) (g : DispatchGroup)
    → IsAnyOpen g
    → AnyDecided (mark_agent_completed task_id agent_name exit_code tasks (some g)).0
unfolding mark_agent_completed completion_of complete_in_group
group-AnyDecided task_id agent_name exit_code tasks g o =
    elim (Bool-cases (
      not (str_eq (trim_space task_id) "") && contains g.completed_task_ids (trim_space task_id))) [
        | inl seen ↦ rw seen tt
        | inr new ↦ rw new (
            slot-AnyDecided (identify task_id agent_name tasks) (is_zero exit_code) tasks
              (mark_task (trim_space task_id) g) (mark_task-IsAnyOpen (trim_space task_id) g o))
      ]

-- `MarkAgentCompleted` on a group that joins by `any_passed` and is in flight. The task was reported before; or its slot,
-- which the store's row of the task or else the agent names, is none of the group and no outcome changes; or the slot
-- has succeeded where the exit code is 0 and failed where it is not, unless it has an outcome already, which stays:
-- then the group is done as passed with a slot that succeeded, or done as failed with every slot having failed, or it
-- stays open, without a success and with a slot that has no outcome.
pub mark_agent_completed-AnyDecided :
    (task_id agent_name : String) (exit_code : ℤ) (tasks : Tasks) (g : DispatchGroup)
    → IsAnyOpen g
    → let done = (mark_agent_completed task_id agent_name exit_code tasks (some g)).0 in
      Reported task_id agent_name exit_code tasks g done × AnyDecided done
mark_agent_completed-AnyDecided task_id agent_name exit_code tasks g o = (
  mark_agent_completed-Reported task_id agent_name exit_code tasks g,
  group-AnyDecided task_id agent_name exit_code tasks g o,
)
