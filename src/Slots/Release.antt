-- ===== src/Slots/Release.antt =====
-- core/src/server/server-context.cpp, launch_slots_with_parent_task and the cancel task: the tasks that
-- are taken from their slots.
use llama_go.Base.{
  ℕ, ◌≡◌, refl, subst, inl, inr, Bool, true, false, not, ◌&&◌, ◌||◌, ◌==◌, Option, none, some, List,
  [], ◌∷◌, if◌then◌else◌, length, All, Bool-cases, arith, ℤ, pos, Result, ok, bind_ok, ◌>>=◌,
}
use llama_go.Task.{Task, is_parent}
use llama_go.Queue.{Queue, pop_deferred_task}
use llama_go.Slots.{Slot, Env, Server, is_processing, released, release}
use llama_go.Slots.Launch.{
  belongs_to, release_family, release_slots, launch_children, launch_slot_with_task, launch_parent,
  launch_slots_with_parent_task, busy_at,
}
use llama_go.Slots.Tasks.{has_task_id, release_task, process_cancel}
use llama_go.Slots.Paired.{
  has_task, IsPaired, AllPaired, launch-AllPaired, launch_children-AllPaired,
}

idle-no_task : (slot : Slot) → IsPaired slot → is_processing slot ≡ false → slot.task ≡ none
unfolding has_task
idle-no_task slot p h = ground arith

release-some :
    (now : ℕ) (q : Queue) (slot : Slot) (t : Task)
    → is_processing slot ≡ true
    → slot.task ≡ some t
    → release now q slot ≡ ok (pop_deferred_task q (pos slot.id) now, released now slot t)
unfolding release
release-some now q slot t h e = ground arith

released-task : (now : ℕ) (slot : Slot) (t : Task) → (released now slot t).task ≡ none
unfolding released
released-task now slot t = refl

release_busy :
    (now : ℕ) (q : Queue) (slot : Slot)
    → IsPaired slot
    → is_processing slot ≡ true
    → (slot' : Slot) × (release now q slot ≡ ok (pop_deferred_task q (pos slot.id) now, slot'))
      × (slot'.task ≡ none)
unfolding has_task
release_busy now q slot p h = busy now q slot slot.task refl p h
  where
    busy :
        (now : ℕ) (q : Queue) (slot : Slot) (t : Option Task)
        → slot.task ≡ t
        → IsPaired slot
        → is_processing slot ≡ true
        → (slot' : Slot) × (release now q slot ≡ ok (pop_deferred_task q (pos slot.id) now, slot'))
          × (slot'.task ≡ none)
    busy now q slot none e p h = absurd (ground arith)
    busy now q slot (some t) e p h =
        (released now slot t, release-some now q slot t h e, released-task now slot t)

release_family-gone :
    (now : ℕ) (i : ℤ) (q : Queue) (slots : List Slot)
    → All IsPaired slots
    → (q' : Queue) × (slots' : List Slot) × (release_family now i q slots ≡ ok (q', slots'))
      × All (λ slot. belongs_to i slot.task ≡ false) slots'
unfolding release_family belongs_to
release_family-gone now i q [] h = (q, [], refl, tt)
release_family-gone now i q (slot ∷ slots) h =
    elim (Bool-cases (is_processing slot && belongs_to i slot.task)) [
      | inl k ↦
          let (slot1, e, n) = release_busy now q slot h.0 (ground arith) in
          let (q2, slots2, f, g) =
            release_family-gone now i (pop_deferred_task q (pos slot.id) now) slots h.1 in
          (q2, slot1 ∷ slots2, rw (k, e, f, release_family), (rw n refl, g))
      | inr k ↦
          let (q2, slots2, f, g) = release_family-gone now i q slots h.1 in
          (q2, slot ∷ slots2, rw (k, f, release_family), (untouched i slot h.0 k, g))
    ]
  where
    untouched :
        (i : ℤ) (slot : Slot)
        → IsPaired slot
        → (is_processing slot && belongs_to i slot.task) ≡ false
        → belongs_to i slot.task ≡ false
    untouched i slot p k = elim (Bool-cases (is_processing slot)) [
      | inl h ↦ rw h at k
      | inr h ↦ rw (idle-no_task slot p h)
    ]

-- No slot has the task or a child of it.
abbrev pub NoFamily : ℤ → Server → Type 0
NoFamily i s = All (λ slot. belongs_to i slot.task ≡ false) s.slots

release_slots-NoFamily :
    (now : ℕ) (i : ℤ) (s s' : Server) → AllPaired s → release_slots now i s ≡ ok s' → NoFamily i s'
unfolding release_slots
release_slots-NoFamily now i s s' h e =
    let (q, slots, f, g) = release_family-gone now i s.queue_tasks s.slots h in
    subst (NoFamily i) {x = record s { queue_tasks = q; slots = slots }} {y = s'}
      (ok_of (record s { queue_tasks = q; slots = slots }) s' (rw (f, release_slots) at e)) g
  where
    ok_of : (s s' : Server) → ok s ≡ ok s' → s ≡ s'
    ok_of s s' e = cc

-- The end of a launch that may have failed.
abbrev undo : ℕ → ℤ → Server → Bool → Result (Server × Bool)
undo now i s launched =
    if launched then ok (s, true) else (release_slots now i s >>= λ s2. ok (s2, false))

released_either :
    (now : ℕ) (i : ℤ) (s1 s' : Server) (launched : Bool)
    → AllPaired s1
    → undo now i s1 launched ≡ ok (s', false)
    → NoFamily i s'
released_either now i s1 s' true h e = absurd (ground arith)
released_either now i s1 s' false h e =
    let (s2, f, e2) = bind_ok (release_slots now i s1) _ _ e in
    subst (NoFamily i) {x = s2} {y = s'} (ground arith) (release_slots-NoFamily now i s1 s2 h f)

launch_parent-NoFamily :
    (env : Env) (now : ℕ) (s s' : Server) (place : ℕ) (task : Task)
    → AllPaired s
    → launch_parent env now s place task ≡ ok (s', false)
    → NoFamily task.id s'
unfolding launch_parent
launch_parent-NoFamily env now s s' place task h e =
    let ((s1, launched), f, e1) = bind_ok (launch_slot_with_task env s place task) _ _ e in
    released_either now task.id s1 s' launched (launch-AllPaired env s s1 place task launched h f)
      e1

-- If the slots for a task and its children cannot all be launched, then none of them is left: no slot has
-- the task or one of its children.
pub launch_slots-all_or_none :
    (env : Env) (now : ℕ) (s s' : Server) (place : ℕ) (places : List ℕ) (task : Task)
    → AllPaired s
    → launch_slots_with_parent_task env now s place places task ≡ ok (s', false)
    → NoFamily task.id s'
unfolding launch_slots_with_parent_task
launch_slots-all_or_none env now s s' place places task h e =
    elim (Bool-cases (
      busy_at s.slots place
      || not (is_parent task)
      || not (length places == length task.child_tasks))) [
        | inl k ↦ absurd (ground arith)
        | inr k ↦
            let ((s1, launched), f, e1) =
              bind_ok (launch_children env s places task.child_tasks) _ _
                (rw (k, launch_slots_with_parent_task) at e) in
            let h1 = launch_children-AllPaired env s s1 places task.child_tasks launched h f in
            elim (Bool-cases launched) [
              | inl l ↦ launch_parent-NoFamily env now s1 s' place task h1 (rw l at e1)
              | inr l ↦ released_either now task.id s1 s' false h1 (rw l at e1)
            ]
      ]

-- At most one slot has the task.
abbrev pub AtMostOne : ℤ → List Slot → Type 0
AtMostOne i [] = Unit {0}
AtMostOne i (slot ∷ slots) =
    (has_task_id i slot.task ≡ true → All (λ s. has_task_id i s.task ≡ false) slots)
    × AtMostOne i slots

release_task-gone :
    (now : ℕ) (i : ℤ) (q : Queue) (slots : List Slot)
    → All IsPaired slots
    → AtMostOne i slots
    → (q' : Queue) × (slots' : List Slot) × (release_task now i q slots ≡ ok (q', slots'))
      × All (λ slot. has_task_id i slot.task ≡ false) slots'
unfolding release_task has_task_id
release_task-gone now i q [] h m = (q, [], refl, tt)
release_task-gone now i q (slot ∷ slots) h m = elim (Bool-cases (has_task_id i slot.task)) [
  | inl k ↦
      let (slot1, e, n) = release_busy now q slot h.0 (busy i slot h.0 k) in
      (
        pop_deferred_task q (pos slot.id) now,
        slot1 ∷ slots,
        rw (k, e, release_task),
        (rw n refl, m.0 k),
      )
  | inr k ↦
      let (q2, slots2, f, g) = release_task-gone now i q slots h.1 m.1 in
      (q2, slot ∷ slots2, rw (k, f, release_task), (k, g))
]
  where
    busy :
        (i : ℤ) (slot : Slot)
        → IsPaired slot
        → has_task_id i slot.task ≡ true
        → is_processing slot ≡ true
    busy i slot p k = elim (Bool-cases (is_processing slot)) [
      | inl h ↦ h
      | inr h ↦ absurd (ground (arith, idle-no_task slot p h))
    ]

-- A cancel task for a task that at most one slot has is processed without failure, and no slot has the task
-- afterwards.
pub process_cancel-gone :
    (now : ℕ) (s : Server) (i : ℤ)
    → AllPaired s
    → AtMostOne i s.slots
    → (s' : Server) × (process_cancel now s i ≡ ok s')
      × All (λ slot. has_task_id i slot.task ≡ false) s'.slots
unfolding process_cancel
process_cancel-gone now s i h m =
    let (q, slots, f, g) = release_task-gone now i s.queue_tasks s.slots h m in
    (record s { queue_tasks = q; slots = slots }, rw f, g)
