-- ===== src/Slots/Paired.antt =====
-- core/src/server/server-context.cpp, process_single_task: a slot is busy exactly while it has a task.
use llama_go.Base.{
  ℕ, zero, suc, ◌≡◌, subst, inl, inr, Bool, true, false, not, ◌&&◌, ◌||◌, ◌==◌, Option, none, some,
  List, [], ◌∷◌, length, get_elem?, set, All, Bool-cases, Option-cases, Result-cases, arith, ℤ, ok,
  bind_ok,
}
use llama_go.Tokens.{validate}
use llama_go.Task.{is_parent, Task, TaskInfo, ErrorType, LoraInfo}
use llama_go.Queue.{Queue}
use llama_go.Slots.{
  Slot, Env, Server, is_processing, clear_prompt, release, send_error, send_result,
}
use llama_go.Slots.Launch.{
  set_request_lora, set_alora, launch_slot, check_tokens, start_slot, launch_slot_with_task,
  finish_launch, release_family, release_slots, launch_children, launch_parent,
  launch_slots_with_parent_task, belongs_to, child_task, busy_at,
}
use llama_go.Slots.Tasks.{release_task, has_task_id}

unfoldable pub has_task : Slot → Bool
has_task slot = elim slot.task [ none ↦ false | some t ↦ true ]

-- The slot has a task exactly if it is processing.
abbrev pub IsPaired : Slot → Type 0
IsPaired slot = has_task slot ≡ is_processing slot

abbrev pub AllPaired : Server → Type 0
AllPaired s = All IsPaired s.slots

pub All-set {ℓ κ} :
    {A : Type ℓ} (P : A → Type κ) (xs : List A) (i : ℕ) (v : A)
    → All P xs
    → P v
    → All P (set xs i v)
All-set P [] i v h k = tt
All-set P (x ∷ xs) zero v h k = (k, h.1)
All-set P (x ∷ xs) (suc i) v h k = (h.0, All-set P xs i v h.1 k)

pub All-get {ℓ κ} :
    {A : Type ℓ} (P : A → Type κ) (xs : List A) (i : ℕ) (v : A)
    → All P xs
    → get_elem? xs i ≡ some v
    → P v
All-get P [] i v h e = cc
All-get P (x ∷ xs) zero v h e = subst P (ground arith) h.0
All-get P (x ∷ xs) (suc i) v h e = All-get P xs i v h.1 e

pub release-IsPaired :
    (now : ℕ) (q q' : Queue) (slot slot' : Slot)
    → IsPaired slot
    → release now q slot ≡ ok (q', slot')
    → IsPaired slot'
unfolding release has_task is_processing
release-IsPaired now q q' slot slot' p e = ground arith

-- Neither the state nor the task of the slot has changed.
SameLife : Slot → Slot → Type 0
SameLife slot slot' = (slot'.state ≡ slot.state) × (slot'.task ≡ slot.task)

SameLife-IsPaired : (slot slot' : Slot) → SameLife slot slot' → IsPaired slot → IsPaired slot'
unfolding SameLife has_task is_processing
SameLife-IsPaired slot slot' s p = rw (s.0, s.1) p

set_request_lora-SameLife :
    (adapters : List LoraInfo) (slot slot' : Slot) (task : Task)
    → set_request_lora adapters slot task ≡ ok slot'
    → SameLife slot slot'
unfolding set_request_lora SameLife clear_prompt
set_request_lora-SameLife adapters slot slot' task e = ground arith

set_alora-SameLife : (slot : Slot) (task : Task) → SameLife slot (set_alora slot task).0
unfolding set_alora SameLife
set_alora-SameLife slot task = ground arith

start_slot-IsPaired :
    (env : Env) (slot : Slot) (task : Task) → IsPaired slot → IsPaired (start_slot env slot task).0
unfolding start_slot has_task is_processing
start_slot-IsPaired env slot task p = ground arith

check_tokens-IsPaired :
    (env : Env) (slot slot' : Slot) (single : Bool) (task : Task) (e : Option ErrorType)
    → IsPaired slot
    → check_tokens env task (slot, single) ≡ ok (slot', e)
    → IsPaired slot'
unfolding check_tokens
check_tokens-IsPaired env slot slot' false task e p h = subst IsPaired {x = slot} (ground arith) p
check_tokens-IsPaired env slot slot' true task e p h =
    elim (Result-cases (validate env.n_vocab task.tokens)) [
      | inr (x, r) ↦ absurd (ground arith)
      | inl (true, r) ↦
          subst IsPaired {x = (start_slot env slot task).0} (ground arith)
            (start_slot-IsPaired env slot task p)
      | inl (false, r) ↦ subst IsPaired {x = slot} (ground arith) p
    ]

launch_slot-IsPaired :
    (env : Env) (adapters : List LoraInfo) (slot slot' : Slot) (task : Task) (e : Option ErrorType)
    → IsPaired slot
    → launch_slot env adapters slot task ≡ ok (slot', e)
    → IsPaired slot'
unfolding launch_slot
launch_slot-IsPaired env adapters slot slot' task e p h =
    elim (Result-cases (set_request_lora adapters slot task)) [
      | inr (x, r) ↦ absurd (ground arith)
      | inl (slot1, r) ↦
          check_tokens-IsPaired env (set_alora slot1 task).0 slot' (set_alora slot1 task).1 task e
            (SameLife-IsPaired slot1 _ (set_alora-SameLife slot1 task) (
              SameLife-IsPaired slot slot1 (set_request_lora-SameLife adapters slot slot1 task r)
                p))
            (rw r at h)
    ]

finish_launch-AllPaired :
    (s : Server) (place : ℕ) (task : Task) (slot : Slot) (e : Option ErrorType)
    → AllPaired s
    → IsPaired slot
    → AllPaired (finish_launch s place task (slot, e)).0
unfolding finish_launch send_error send_result
finish_launch-AllPaired s place task slot none h p = All-set IsPaired s.slots place slot h p
finish_launch-AllPaired s place task slot (some e) h p = All-set IsPaired s.slots place slot h p

pub launch-AllPaired :
    (env : Env) (s s' : Server) (place : ℕ) (task : Task) (b : Bool)
    → AllPaired s
    → launch_slot_with_task env s place task ≡ ok (s', b)
    → AllPaired s'
unfolding launch_slot_with_task
launch-AllPaired env s s' place task b h e = elim (Option-cases (get_elem? s.slots place)) [
  | inl n ↦ absurd (ground arith)
  | inr (slot, g) ↦ elim (Result-cases (launch_slot env s.lora_adapters slot task)) [
    | inr (x, r) ↦ absurd (ground arith)
    | inl ((slot', why), r) ↦
        subst AllPaired {x = (finish_launch s place task (slot', why)).0} {y = s'} (ground arith) (
          finish_launch-AllPaired s place task slot' why h (
            launch_slot-IsPaired env s.lora_adapters slot slot' task why
              (All-get IsPaired s.slots place slot h g) r))
  ]
]

release_family-AllPaired :
    (now : ℕ) (i : ℤ) (q q' : Queue) (slots slots' : List Slot)
    → All IsPaired slots
    → release_family now i q slots ≡ ok (q', slots')
    → All IsPaired slots'
unfolding release_family
release_family-AllPaired now i q q' [] slots' h e =
    subst (All IsPaired) {x = []} {y = slots'} (ground arith) tt
release_family-AllPaired now i q q' (slot ∷ slots) slots' h e =
    elim (Bool-cases (is_processing slot && belongs_to i slot.task)) [
      | inl k ↦
          let ((q1, slot1), r, e1) =
            bind_ok (release now q slot) _ _ (rw (k, release_family) at e) in
          let ((q2, slots2), f, e2) = bind_ok (release_family now i q1 slots) _ _ e1 in
          subst (All IsPaired) {x = slot1 ∷ slots2} {y = slots'} (ground arith) (
            release-IsPaired now q q1 slot slot1 h.0 r,
            release_family-AllPaired now i q1 q2 slots slots2 h.1 f,
          )
      | inr k ↦
          let ((q2, slots2), f, e2) =
            bind_ok (release_family now i q slots) _ _ (rw (k, release_family) at e) in
          subst (All IsPaired) {x = slot ∷ slots2} {y = slots'} (ground arith)
            (h.0, release_family-AllPaired now i q q2 slots slots2 h.1 f)
    ]

pub release_task-AllPaired :
    (now : ℕ) (i : ℤ) (q q' : Queue) (slots slots' : List Slot)
    → All IsPaired slots
    → release_task now i q slots ≡ ok (q', slots')
    → All IsPaired slots'
unfolding release_task
release_task-AllPaired now i q q' [] slots' h e =
    subst (All IsPaired) {x = []} {y = slots'} (ground arith) tt
release_task-AllPaired now i q q' (slot ∷ slots) slots' h e =
    elim (Bool-cases (has_task_id i slot.task)) [
      | inl k ↦
          let ((q1, slot1), r, e1) = bind_ok (release now q slot) _ _ (rw (k, release_task) at e) in
          subst (All IsPaired) {x = slot1 ∷ slots} {y = slots'} (ground arith)
            (release-IsPaired now q q1 slot slot1 h.0 r, h.1)
      | inr k ↦
          let ((q2, slots2), f, e2) =
            bind_ok (release_task now i q slots) _ _ (rw (k, release_task) at e) in
          subst (All IsPaired) {x = slot ∷ slots2} {y = slots'} (ground arith)
            (h.0, release_task-AllPaired now i q q2 slots slots2 h.1 f)
    ]

pub launch_children-AllPaired :
    (env : Env) (s s' : Server) (places : List ℕ) (tasks : List TaskInfo) (b : Bool)
    → AllPaired s
    → launch_children env s places tasks ≡ ok (s', b)
    → AllPaired s'
unfolding launch_children
launch_children-AllPaired env s s' [] tasks b h e =
    subst AllPaired {x = s} {y = s'} (ground arith) h
launch_children-AllPaired env s s' (p ∷ ps) [] b h e = absurd (ground arith)
launch_children-AllPaired env s s' (p ∷ ps) (t ∷ ts) b h e =
    let ((s1, launched), r, e1) = bind_ok (launch_slot_with_task env s p (child_task t)) _ _ e in
    let h1 = launch-AllPaired env s s1 p (child_task t) launched h r in
    elim (Bool-cases launched) [
      | inl k ↦ launch_children-AllPaired env s1 s' ps ts b h1 (rw k at e1)
      | inr k ↦ subst AllPaired {x = s1} {y = s'} (ground arith) h1
    ]

pub release_slots-AllPaired :
    (now : ℕ) (i : ℤ) (s s' : Server) → AllPaired s → release_slots now i s ≡ ok s' → AllPaired s'
unfolding release_slots
release_slots-AllPaired now i s s' h e =
    let ((q, slots), f, e1) = bind_ok (release_family now i s.queue_tasks s.slots) _ _ e in
    subst AllPaired {x = record s { queue_tasks = q; slots = slots }} {y = s'} (ground arith)
      (release_family-AllPaired now i s.queue_tasks q s.slots slots h f)

launch_parent-AllPaired :
    (env : Env) (now : ℕ) (s s' : Server) (place : ℕ) (task : Task) (b : Bool)
    → AllPaired s
    → launch_parent env now s place task ≡ ok (s', b)
    → AllPaired s'
unfolding launch_parent
launch_parent-AllPaired env now s s' place task b h e =
    let ((s1, launched), r, e1) = bind_ok (launch_slot_with_task env s place task) _ _ e in
    let h1 = launch-AllPaired env s s1 place task launched h r in
    elim (Bool-cases launched) [
      | inl k ↦ subst AllPaired {x = s1} {y = s'} (ground arith) h1
      | inr k ↦
          let (s2, f, e2) = bind_ok (release_slots now task.id s1) _ _ (rw k at e1) in
          subst AllPaired {x = s2} {y = s'} (ground arith)
            (release_slots-AllPaired now task.id s1 s2 h1 f)
    ]

pub launch_slots-AllPaired :
    (env : Env) (now : ℕ) (s s' : Server) (place : ℕ) (places : List ℕ) (task : Task) (b : Bool)
    → AllPaired s
    → launch_slots_with_parent_task env now s place places task ≡ ok (s', b)
    → AllPaired s'
unfolding launch_slots_with_parent_task
launch_slots-AllPaired env now s s' place places task b h e =
    elim (Bool-cases (
      busy_at s.slots place
      || not (is_parent task)
      || not (length places == length task.child_tasks))) [
        | inl k ↦ absurd (ground arith)
        | inr k ↦
            let ((s1, launched), r, e1) =
              bind_ok (launch_children env s places task.child_tasks) _ _
                (rw (k, launch_slots_with_parent_task) at e) in
            let h1 = launch_children-AllPaired env s s1 places task.child_tasks launched h r in
            elim (Bool-cases launched) [
              | inl l ↦ launch_parent-AllPaired env now s1 s' place task b h1 (rw l at e1)
              | inr l ↦
                  let (s2, f, e2) = bind_ok (release_slots now task.id s1) _ _ (rw l at e1) in
                  subst AllPaired {x = s2} {y = s'} (ground arith)
                    (release_slots-AllPaired now task.id s1 s2 h1 f)
            ]
      ]
