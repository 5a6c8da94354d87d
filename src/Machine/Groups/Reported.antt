-- ===== src/Machine/Groups/Reported.antt =====
-- What one report of a completed task records in a dispatch group, whatever the join
-- (internal/statemachine/statemachine.go, MarkAgentCompletedWithDecision).
use workbuddy.Prelude.{
  ◌<◌, String, ◌≡◌, ◌≢◌, refl, ◌⊎◌, inl, inr, Bool, true, false, not, ◌&&◌, Option, none, some, [],
  ◌∷◌, arith, str_eq, str_eq_iff, contains, Bool-cases, trim_space, concat, itoa, ltb, ℤ, pos,
  negsuc, zero, suc, is_zero,
}
use workbuddy.Store.Rows.{find_row}
use workbuddy.Store.Tasks.Row.{Task, has_id}
use workbuddy.Store.Tasks.Queue.{Tasks}
use workbuddy.Machine.Groups.{
  DispatchGroup, slot_keys, rollout_slot_key, Completed, identify_row, identify, mark_task,
  mark_slot, Completion, no_group, seen_task, foreign_slot, recorded, complete_slot,
  complete_in_group, completion_of, mark_agent_completed,
}

-- The slot that a stored task stands for: its rollout, or its agent, or the agent of the call if it names none.
abbrev SlotOf : String → Task → String → Type 0
SlotOf agent_name t k =
    ((0 < t.rollout_index) × (k ≡ concat ("rollout:" ∷ itoa t.rollout_index ∷ [])))
    ⊎ ((t.rollout_index ≡ 0) × (trim_space t.agent_name ≢ "") × (k ≡ t.agent_name))
    ⊎ ((t.rollout_index ≡ 0) × (trim_space t.agent_name ≡ "") × (k ≡ agent_name))

-- The slot that a call is about: where the task has no id or no row, it is the agent's.
abbrev pub IsAbout : (task_id agent_name : String) → Tasks → String → Type 0
IsAbout task_id agent_name tasks k =
    (((trim_space task_id ≡ "") ⊎ (find_row (has_id task_id) tasks ≡ none)) × (k ≡ agent_name))
    ⊎ ((t : Task) × (find_row (has_id task_id) tasks ≡ some t) × SlotOf agent_name t k)

-- The first outcome of a slot counts: an exit code of 0 is a success, any other one a failure.
abbrev pub Records : ℤ → String → DispatchGroup → DispatchGroup → Type 0
Records exit_code k g g' =
    ((contains g.completed_slots k ≡ true)
      × (g'.completed_slots ≡ g.completed_slots)
      × (g'.success_slots ≡ g.success_slots)
      × (g'.failed_slots ≡ g.failed_slots))
    ⊎ ((contains g.completed_slots k ≡ false)
        × (exit_code ≡ pos 0)
        × (g'.completed_slots ≡ k ∷ g.completed_slots)
        × (g'.success_slots ≡ k ∷ g.success_slots)
        × (g'.failed_slots ≡ g.failed_slots))
    ⊎ ((contains g.completed_slots k ≡ false)
        × (exit_code ≢ pos 0)
        × (g'.completed_slots ≡ k ∷ g.completed_slots)
        × (g'.success_slots ≡ g.success_slots)
        × (g'.failed_slots ≡ k ∷ g.failed_slots))

-- What the call does to the outcomes of the group `g`: nothing, for a task that was reported before or a slot that
-- the group does not have; otherwise the outcome of the slot that the call is about.
abbrev pub Reported :
    (task_id agent_name : String) → (exit_code : ℤ) → Tasks → DispatchGroup → Completion → Type 0
Reported task_id agent_name exit_code tasks g no_group = ⊥
Reported task_id agent_name exit_code tasks g seen_task =
    contains g.completed_task_ids (trim_space task_id) ≡ true
Reported task_id agent_name exit_code tasks g (foreign_slot g') =
    (k : String) × IsAbout task_id agent_name tasks k
    × (contains (slot_keys g) k ≡ false)
    × (g'.completed_slots ≡ g.completed_slots)
    × (g'.success_slots ≡ g.success_slots)
    × (g'.failed_slots ≡ g.failed_slots)
Reported task_id agent_name exit_code tasks g (recorded g' v) =
    (k : String) × IsAbout task_id agent_name tasks k
    × (contains (slot_keys g) k ≡ true)
    × Records exit_code k g g'

identify_row-IsAbout :
    (task_id agent_name : String) (tasks : Tasks) (o : Option Task)
    → find_row (has_id task_id) tasks ≡ o
    → IsAbout task_id agent_name tasks (identify_row agent_name o).slot_key
unfolding identify_row rollout_slot_key
identify_row-IsAbout task_id agent_name tasks none e = inl (inr e, refl)
identify_row-IsAbout task_id agent_name tasks (some t) e = inr (
  t,
  e,
  elim (Bool-cases (ltb 0 t.rollout_index)) [
    | inl rollout ↦ rw rollout (inl (ground arith, refl))
    | inr single ↦ elim (Bool-cases (str_eq (trim_space t.agent_name) "")) [
      | inl blank ↦
          rw (single, blank)
            (inr (inr (ground arith, (str_eq_iff (trim_space t.agent_name) "").0 blank, refl)))
      | inr named ↦
          rw (single, named)
            (inr
              (inl (ground arith, ground (arith, str_eq_iff (trim_space t.agent_name) ""), refl)))
    ]
  ],
)

identify-IsAbout :
    (task_id agent_name : String) (tasks : Tasks)
    → IsAbout task_id agent_name tasks (identify task_id agent_name tasks).slot_key
unfolding identify identify_row
identify-IsAbout task_id agent_name tasks = elim (Bool-cases (str_eq (trim_space task_id) "")) [
  | inl blank ↦ rw blank (inl (inl ((str_eq_iff (trim_space task_id) "").0 blank), refl))
  | inr named ↦
      rw named
        (identify_row-IsAbout task_id agent_name tasks (find_row (has_id task_id) tasks) refl)
]

is_zero-pos : (exit_code : ℤ) → is_zero exit_code ≡ true → exit_code ≡ pos 0
is_zero-pos (pos zero) e = refl
is_zero-pos (pos (suc n)) e = absurd (ground arith)
is_zero-pos (negsuc n) e = absurd (ground arith)

mark_slot-Records :
    (exit_code : ℤ) (k : String) (g : DispatchGroup)
    → Records exit_code k g (mark_slot k (is_zero exit_code) g)
unfolding mark_slot
mark_slot-Records exit_code k g = elim (Bool-cases (contains g.completed_slots k)) [
  | inl again ↦ rw again (inl (refl, refl, refl, refl))
  | inr fresh ↦ elim (Bool-cases (is_zero exit_code)) [
    | inl zero_exit ↦
        rw (fresh, zero_exit) (inr (inl (refl, is_zero-pos exit_code zero_exit, refl, refl, refl)))
    | inr other ↦
        rw (fresh, other)
          (inr (inr (refl, λ e. absurd (ground (arith, rw e at other)), refl, refl, refl)))
  ]
]

slot-Reported :
    (task_id agent_name : String) (exit_code : ℤ) (tasks : Tasks) (g : DispatchGroup)
    → Reported task_id agent_name exit_code tasks g
        (complete_slot (identify task_id agent_name tasks) (is_zero exit_code) tasks g)
unfolding complete_slot
slot-Reported task_id agent_name exit_code tasks g =
    let k = (identify task_id agent_name tasks).slot_key in
    let about = identify-IsAbout task_id agent_name tasks in
    elim (Bool-cases (contains (slot_keys g) k)) [
      | inl own ↦ rw own (k, about, own, mark_slot-Records exit_code k g)
      | inr foreign ↦ rw foreign (k, about, foreign, refl, refl, refl)
    ]

-- The set of the tasks seen is no part of what is recorded of the slots.
marked-Reported :
    (key task_id agent_name : String) (exit_code : ℤ) (tasks : Tasks) (g : DispatchGroup)
    (c : Completion)
    → c ≢ seen_task
    → Reported task_id agent_name exit_code tasks (mark_task key g) c
    → Reported task_id agent_name exit_code tasks g c
unfolding mark_task
marked-Reported key task_id agent_name exit_code tasks g c n h = elim (Bool-cases (str_eq key "")) [
  | inl blank ↦ rw blank at h
  | inr named ↦ go c n (rw named at h)
]
  where
    go :
        (c : Completion)
        → c ≢ seen_task
        → Reported task_id agent_name exit_code tasks
            (record g { completed_task_ids = key ∷ g.completed_task_ids })
            c
        → Reported task_id agent_name exit_code tasks g c
    go no_group n h = h
    go seen_task n h = absurd (n refl)
    go (foreign_slot g') n h = h
    go (recorded g' v) n h = h

pub complete_slot≢seen_task :
    (c : Completed) (passed : Bool) (tasks : Tasks) (g : DispatchGroup)
    → complete_slot c passed tasks g ≢ seen_task
unfolding complete_slot
complete_slot≢seen_task c passed tasks g e = ground arith

pub mark_agent_completed-Reported :
    (task_id agent_name : String) (exit_code : ℤ) (tasks : Tasks) (g : DispatchGroup)
    → Reported task_id agent_name exit_code tasks g
        (mark_agent_completed task_id agent_name exit_code tasks (some g)).0
unfolding mark_agent_completed completion_of complete_in_group
mark_agent_completed-Reported task_id agent_name exit_code tasks g =
    let key = trim_space task_id in
    elim (Bool-cases (not (str_eq key "") && contains g.completed_task_ids key)) [
      | inl seen ↦ rw seen (ground (arith, seen))
      | inr new ↦ rw new (
          marked-Reported key task_id agent_name exit_code tasks g _
            (complete_slot≢seen_task _ _ tasks (mark_task key g))
            (slot-Reported task_id agent_name exit_code tasks (mark_task key g)))
    ]
