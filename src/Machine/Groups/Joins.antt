-- ===== src/Machine/Groups/Joins.antt =====
-- When a dispatch group is done, and with which outcome, under the joins that count slots
-- (internal/statemachine/statemachine.go, MarkAgentCompletedWithDecision).
use workbuddy.Prelude.{
  ◌<◌, String, ◌≡◌, refl, ap, ◌∙◌, ◌⊎◌, inl, inr, Bool, true, false, not, ◌&&◌, some, List, [], ◌∷◌,
  map, arith, if◌then◌else◌, str_eq, str_eq_iff, length, contains, Bool-cases, trim_space, is_zero,
  ℤ,
}
use workbuddy.Store.Tasks.Queue.{Tasks}
use workbuddy.Machine.Config.{join_all_passed, join_any_passed, join_rollouts}
use workbuddy.Machine.Sets.{Subset, Subset_whole, contains_head}
use workbuddy.Machine.Groups.{
  DispatchGroup, slot_keys, Completed, identify, waiting, advance, all_completed, is_nil,
  join_verdict, mark_task, mark_slot, Completion, no_group, seen_task, foreign_slot, recorded,
  complete_slot, complete_in_group, completion_of, mark_agent_completed,
}
use workbuddy.Machine.Groups.Reported.{Reported, mark_agent_completed-Reported}
use workbuddy.Machine.Groups.WellFormed.{
  IsWellFormed, mark_task-IsWellFormed, mark_slot-IsWellFormed,
}

-- Every slot of the group succeeded; some slot of the group failed.
abbrev pub AllSucceeded : DispatchGroup → Type 0
AllSucceeded g = Subset (slot_keys g) g.success_slots

abbrev pub SomeIn : List String → DispatchGroup → Type 0
SomeIn xs g = (k : String) × (contains (slot_keys g) k ≡ true) × (contains xs k ≡ true)

length-slot_keys : (g : DispatchGroup) → length (slot_keys g) ≡ length g.slots
length-slot_keys g = go g.slots
  where
    go : (xs : List (String × String)) → length (map (λ (s : String × String). s.0) xs) ≡ length xs
    go [] = refl
    go (x ∷ xs) = omega (arith, go xs)

module _ (g : DispatchGroup) (w : IsWellFormed g) where
  pub whole : all_completed g ≡ true → Subset (slot_keys g) g.completed_slots
  whole e =
      Subset_whole g.completed_slots (slot_keys g) w.distinct w.within
        (ground (arith, length-slot_keys g))

  pub whole-AllSucceeded : all_completed g ≡ true → g.failed_slots ≡ [] → AllSucceeded g
  unfolding contains
  whole-AllSucceeded e f k h =
      let failed_not : contains g.failed_slots k ≡ false = rw f refl in
      ground (arith, whole e k h, w.split k, failed_not)

  pub first_failed : is_nil g.failed_slots ≡ false → SomeIn g.failed_slots g
  first_failed e = go g.failed_slots refl e
    where
      go : (xs : List String) → xs ≡ g.failed_slots → is_nil xs ≡ false → SomeIn g.failed_slots g
      go [] s e = absurd (ground arith)
      go (k ∷ xs) s e =
          let here : contains g.failed_slots k ≡ true = rw (← s) (contains_head k xs) in
          (k, w.within k (ground (arith, w.split k, here)), here)

pub is_nil_iff : (xs : List String) → is_nil xs ≡ true → xs ≡ []
is_nil_iff [] e = refl
is_nil_iff (x ∷ xs) e = absurd (ground arith)

all≠rollouts : str_eq join_all_passed join_rollouts ≡ false
unfolding str_eq
all≠rollouts = refl

all≠any : str_eq join_all_passed join_any_passed ≡ false
unfolding str_eq
all≠any = refl

pub any≠rollouts : str_eq join_any_passed join_rollouts ≡ false
unfolding str_eq
any≠rollouts = refl

pub str_eq_refl : (s : String) → str_eq s s ≡ true
str_eq_refl s = (str_eq_iff s s).1 refl

-- A group that joins by `all_passed` and is still in flight.
pub record IsAllOpen (g : DispatchGroup) : Type 0 where
  pub joins : g.join.strategy ≡ join_all_passed
  pub formed : IsWellFormed g
  pub unfailed : g.failed_slots ≡ []

-- What one completion of it comes to: done as passed, every slot having succeeded; done as failed,
-- some slot having failed; or still in flight, some slot being without an outcome.
abbrev pub AllDecided : Completion → Type 0
AllDecided no_group = ⊥
AllDecided seen_task = Unit
AllDecided (foreign_slot g) = IsAllOpen g
AllDecided (recorded g v) =
    ((v ≡ advance true) × AllSucceeded g)
    ⊎ ((v ≡ advance false) × SomeIn g.failed_slots g)
    ⊎ ((v ≡ waiting) × IsAllOpen g × (length g.completed_slots < length g.slots))

verdict_all :
    (fresh passed : Bool) (group : String) (tasks : Tasks) (g : DispatchGroup)
    → g.join.strategy ≡ join_all_passed
    → join_verdict fresh passed group tasks g ≡ (
        if all_completed g
        then advance (is_nil g.failed_slots)
        else if fresh && not passed
        then advance false
        else waiting)
unfolding join_verdict
verdict_all fresh passed group tasks g e =
    rw (e, all≠rollouts, all≠any, str_eq_refl join_all_passed) refl

pub mark_slot-joins : (k : String) (p : Bool) (g : DispatchGroup) → (mark_slot k p g).join ≡ g.join
unfolding mark_slot
mark_slot-joins k p g = ground arith

mark_slot-failed :
    (k : String) (p : Bool) (g : DispatchGroup)
    → (not (contains g.completed_slots k) && not p) ≡ false
    → (mark_slot k p g).failed_slots ≡ g.failed_slots
unfolding mark_slot
mark_slot-failed k p g e = ground arith

mark_slot-fails :
    (k : String) (p : Bool) (g : DispatchGroup)
    → (not (contains g.completed_slots k) && not p) ≡ true
    → (mark_slot k p g).failed_slots ≡ k ∷ g.failed_slots
unfolding mark_slot
mark_slot-fails k p g e = ground arith

all_outcome :
    (fresh passed : Bool) (group : String) (tasks : Tasks) (g : DispatchGroup)
    → g.join.strategy ≡ join_all_passed
    → IsWellFormed g
    → ((fresh && not passed) ≡ true → is_nil g.failed_slots ≡ false)
    → ((fresh && not passed) ≡ false → g.failed_slots ≡ [])
    → AllDecided (recorded g (join_verdict fresh passed group tasks g))
all_outcome fresh passed group tasks g j w fails keeps =
    rw (verdict_all fresh passed group tasks g j) (elim (Bool-cases (all_completed g)) [
      | inl done ↦ elim (Bool-cases (is_nil g.failed_slots)) [
        | inl none_failed ↦
            rw (done, none_failed)
              (inl (refl, whole-AllSucceeded g w done (is_nil_iff _ none_failed)))
        | inr some_failed ↦ rw (done, some_failed) (inr (inl (refl, first_failed g w some_failed)))
      ]
      | inr open_g ↦ elim (Bool-cases (fresh && not passed)) [
        | inl failing ↦ rw (open_g, failing) (inr (inl (refl, first_failed g w (fails failing))))
        | inr fine ↦
            rw (open_g, fine)
              (inr
                (inr (refl, record { joins = j; formed = w; unfailed = keeps fine }, ground arith)))
      ]
    ])

slot-AllDecided :
    (c : Completed) (passed : Bool) (tasks : Tasks) (g : DispatchGroup)
    → IsAllOpen g
    → AllDecided (complete_slot c passed tasks g)
unfolding complete_slot
slot-AllDecided c passed tasks g o = elim (Bool-cases (contains (slot_keys g) c.slot_key)) [
  | inr foreign ↦ rw foreign o
  | inl own ↦ rw own (
      all_outcome _ passed _ tasks (mark_slot c.slot_key passed g)
        (ap (λ j. j.strategy) (mark_slot-joins c.slot_key passed g) ∙ o.joins)
        (mark_slot-IsWellFormed c.slot_key passed g own o.formed)
        (λ e. rw (mark_slot-fails c.slot_key passed g e) refl)
        (λ e. mark_slot-failed c.slot_key passed g e ∙ o.unfailed))
]

mark_task-IsAllOpen : (key : String) (g : DispatchGroup) → IsAllOpen g → IsAllOpen (mark_task key g)
unfolding mark_task
mark_task-IsAllOpen key g o = elim (Bool-cases (str_eq key "")) [
  | inl blank ↦ rw blank o
  | inr named ↦
      let formed = mark_task-IsWellFormed key g o.formed in
      rw named (record { joins = o.joins; formed = rw named at formed; unfailed = o.unfailed })
]

group-AllDecided :
    (task_id agent_name : String) (exit_code : ℤ) (tasks : Tasks) (g : DispatchGroup)
    → IsAllOpen g
    → AllDecided (mark_agent_completed task_id agent_name exit_code tasks (some g)).0
unfolding mark_agent_completed completion_of complete_in_group
group-AllDecided task_id agent_name exit_code tasks g o =
    elim (Bool-cases (
      not (str_eq (trim_space task_id) "") && contains g.completed_task_ids (trim_space task_id))) [
        | inl seen ↦ rw seen tt
        | inr new ↦ rw new (
            slot-AllDecided (identify task_id agent_name tasks) (is_zero exit_code) tasks
              (mark_task (trim_space task_id) g) (mark_task-IsAllOpen (trim_space task_id) g o))
      ]

-- `MarkAgentCompleted` on a group that joins by `all_passed` and is in flight. The task was reported before; or its slot,
-- which the store's row of the task or else the agent names, is none of the group and no outcome changes; or the slot
-- has succeeded where the exit code is 0 and failed where it is not, unless it has an outcome already, which stays:
-- then the group is done as passed with every slot having succeeded, or done as failed with a slot that failed, or it
-- stays open, without a failure and with a slot that has no outcome.
pub mark_agent_completed-AllDecided :
    (task_id agent_name : String) (exit_code : ℤ) (tasks : Tasks) (g : DispatchGroup)
    → IsAllOpen g
    → let done = (mark_agent_completed task_id agent_name exit_code tasks (some g)).0 in
      Reported task_id agent_name exit_code tasks g done × AllDecided done
mark_agent_completed-AllDecided task_id agent_name exit_code tasks g o = (
  mark_agent_completed-Reported task_id agent_name exit_code tasks g,
  group-AllDecided task_id agent_name exit_code tasks g o,
)
