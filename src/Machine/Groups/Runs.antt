-- ===== src/Machine/Groups/Runs.antt =====
-- Reports of a dispatch group that come twice
-- (internal/statemachine/statemachine.go, MarkAgentCompletedWithDecision).
use workbuddy.Prelude.{
  String, ◌≡◌, ◌≢◌, refl, inl, inr, Bool, true, false, some, arith, str_eq, str_eq_iff, contains,
  Bool-cases, trim_space, is_zero, ℤ,
}
use workbuddy.Store.Tasks.Queue.{Tasks}
use workbuddy.Machine.Sets.{contains_head}
use workbuddy.Machine.Groups.{
  DispatchGroup, slot_keys, Completed, identify, mark_task, mark_slot, Completion, no_group,
  seen_task, foreign_slot, recorded, complete_slot, complete_in_group, completion_of, remaining,
  mark_agent_completed,
}
use workbuddy.Machine.Groups.Reported.{complete_slot≢seen_task}

-- A task that completes: the table is read at that time.
pub record Report : Type 0 where
  pub task_id : String
  pub agent_name : String
  pub exit_code : ℤ
  pub tasks : Tasks

-- The task is among the completed ones of the group that a completion leaves in flight.
abbrev Notes : String → Completion → Type 0
Notes key no_group = Unit
Notes key seen_task = Unit
Notes key (foreign_slot g) = contains g.completed_task_ids key ≡ true
Notes key (recorded g v) = contains g.completed_task_ids key ≡ true

mark_task-notes :
    (key : String) (g : DispatchGroup)
    → str_eq key "" ≡ false
    → contains (mark_task key g).completed_task_ids key ≡ true
unfolding mark_task
mark_task-notes key g named = rw named (contains_head key g.completed_task_ids)

complete_slot-Notes :
    (key : String) (c : Completed) (passed : Bool) (tasks : Tasks) (g : DispatchGroup)
    → contains g.completed_task_ids key ≡ true
    → Notes key (complete_slot c passed tasks g)
unfolding complete_slot mark_slot
complete_slot-Notes key c passed tasks g h = elim (Bool-cases (contains (slot_keys g) c.slot_key)) [
  | inr foreign ↦ rw foreign h
  | inl own ↦ rw own (ground arith)
]

remaining-noted :
    (key : String) (g g' : DispatchGroup) (c : Completion)
    → c ≢ seen_task
    → Notes key c
    → remaining (some g) c ≡ some g'
    → contains g'.completed_task_ids key ≡ true
unfolding remaining
remaining-noted key g g' no_group n h e = absurd (ground arith)
remaining-noted key g g' seen_task n h e = absurd (n refl)
remaining-noted key g g' (foreign_slot x) n h e = ground arith
remaining-noted key g g' (recorded x v) n h e = ground arith

in_group-noted :
    (key : String) (c : Completed) (passed : Bool) (tasks : Tasks) (g g' : DispatchGroup)
    → str_eq key "" ≡ false
    → remaining (some g) (complete_in_group key c passed tasks g) ≡ some g'
    → contains g'.completed_task_ids key ≡ true
unfolding complete_in_group
in_group-noted key c passed tasks g g' named left =
    elim (Bool-cases (contains g.completed_task_ids key)) [
      | inl seen ↦ kept seen (rw (named, seen) at left)
      | inr new ↦
          remaining-noted key g g' (complete_slot c passed tasks (mark_task key g))
            (complete_slot≢seen_task c passed tasks (mark_task key g))
            (complete_slot-Notes key c passed tasks (mark_task key g) (mark_task-notes key g named))
            (rw (named, new) at left)
    ]
  where
    kept :
        contains g.completed_task_ids key ≡ true
        → remaining (some g) seen_task ≡ some g'
        → contains g'.completed_task_ids key ≡ true
    kept seen e = unfold remaining in ground arith

-- A task counts once: while the group that it was reported to is in flight, a second report of it, with
-- whatever agent and exit code, changes nothing.
pub mark_agent_completed-repeats :
    (r s : Report) (g g' : DispatchGroup)
    → trim_space r.task_id ≢ ""
    → s.task_id ≡ r.task_id
    → (mark_agent_completed r.task_id r.agent_name r.exit_code r.tasks (some g)).1 ≡ some g'
    → mark_agent_completed s.task_id s.agent_name s.exit_code s.tasks (some g')
      ≡ (seen_task, some g')
unfolding mark_agent_completed completion_of complete_in_group remaining
mark_agent_completed-repeats r s g g' named same left =
    let key = trim_space r.task_id in
    let blank_not : str_eq key "" ≡ false = ground (arith, str_eq_iff key "") in
    let noted =
      in_group-noted key (identify r.task_id r.agent_name r.tasks) (is_zero r.exit_code) r.tasks g
        g' blank_not left in
    rw same (rw (blank_not, noted) refl)
