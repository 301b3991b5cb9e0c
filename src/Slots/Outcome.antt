-- ===== src/Slots/Outcome.antt =====
-- core/src/server/server-context.cpp, process_single_task: what becomes of a task of inference.
use llama_go.Base.{
  ℕ, zero, suc, ◌≡◌, refl, subst, inl, inr, Bool, true, false, Option, none, some, List, [], ◌∷◌,
  ◌++◌, if◌then◌else◌, get_elem?, set, Bool-cases, Option-cases, Result-cases, arith, minus_one,
  ◌==ℤ◌, Result, ok, bind_ok,
}
use llama_go.Tokens.{validate}
use llama_go.Task.{Task, ErrorType, LoraInfo, is_parent, error_result}
use llama_go.Queue.{defer}
use llama_go.Response.{send}
use llama_go.Slots.{Slot, Env, Server, is_processing, send_error, send_result, result_for}
use llama_go.Slots.Select.{choose_slot, get_available_slot, update_cache, swap_prompt}
use llama_go.Slots.Launch.{
  set_request_lora, set_alora, started_with, start_slot, check_tokens, launch_slot, finish_launch,
  launch_slot_with_task,
}
use llama_go.Slots.Tasks.{tokenized, slot_for, start_at, process_inference, defer_task}

start_slot-task :
    (env : Env) (slot slot' : Slot) (task : Task)
    → start_slot env slot task ≡ (slot', none)
    → slot'.task ≡ some task
unfolding start_slot started_with
start_slot-task env slot slot' task e = ground arith

check_tokens-task :
    (env : Env) (slot slot' : Slot) (single : Bool) (task : Task)
    → check_tokens env task (slot, single) ≡ ok (slot', none)
    → slot'.task ≡ some task
unfolding check_tokens
check_tokens-task env slot slot' false task e = absurd (ground arith)
check_tokens-task env slot slot' true task e =
    elim (Result-cases (validate env.n_vocab task.tokens)) [
      | inr (x, r) ↦ absurd (ground arith)
      | inl (true, r) ↦ start_slot-task env slot slot' task (ground arith)
      | inl (false, r) ↦ absurd (ground arith)
    ]

launch_slot-task :
    (env : Env) (adapters : List LoraInfo) (slot slot' : Slot) (task : Task)
    → launch_slot env adapters slot task ≡ ok (slot', none)
    → slot'.task ≡ some task
unfolding launch_slot
launch_slot-task env adapters slot slot' task e =
    let (slot1, f, e1) = bind_ok (set_request_lora adapters slot task) _ _ e in
    check_tokens-task env (set_alora slot1 task).0 slot' (set_alora slot1 task).1 task e1

get_elem?-set {ℓ} :
    {A : Type ℓ} (xs : List A) (i : ℕ) (x v : A)
    → get_elem? xs i ≡ some x
    → get_elem? (set xs i v) i ≡ some v
get_elem?-set [] i x v e = cc
get_elem?-set (y ∷ ys) zero x v e = refl
get_elem?-set (y ∷ ys) (suc i) x v e = get_elem?-set ys i x v e

-- The task waits among the deferred ones, or a slot has it, or an error for it was sent.
pub data Outcome (s s' : Server) (task : Task) : Type 0 where
  deferred :
      s'.queue_tasks.queue_tasks_deferred ≡ s.queue_tasks.queue_tasks_deferred ++ task ∷ []
      → Outcome s s' task
  launched :
      (place : ℕ) (slot : Slot)
      → get_elem? s'.slots place ≡ some slot
      → slot.task ≡ some task
      → Outcome s s' task
  refused :
      (e : ErrorType)
      → s'.queue_results ≡ send s.queue_results (result_for task.info minus_one (error_result e))
      → Outcome s s' task

launch-Outcome :
    (env : Env) (s s' : Server) (place : ℕ) (task : Task) (b : Bool)
    → launch_slot_with_task env s place task ≡ ok (s', b)
    → Outcome s s' task
unfolding launch_slot_with_task finish_launch send_error send_result
launch-Outcome env s s' place task b e = elim (Option-cases (get_elem? s.slots place)) [
  | inl n ↦ absurd (ground arith)
  | inr (slot, g) ↦
      let ((slot1, why), f, e1) =
        bind_ok (launch_slot env s.lora_adapters slot task) _ _
          (rw (g, launch_slot_with_task) at e) in
      finished env s s' place task b slot slot1 why g f e1
]
  where
    finished :
        (env : Env) (s s' : Server) (place : ℕ) (task : Task) (b : Bool) (slot slot1 : Slot)
        (why : Option ErrorType)
        → get_elem? s.slots place ≡ some slot
        → launch_slot env s.lora_adapters slot task ≡ ok (slot1, why)
        → ok (finish_launch s place task (slot1, why)) ≡ ok (s', b)
        → Outcome s s' task
    finished env s s' place task b slot slot1 none g f e =
        subst (λ z. Outcome s z task) {x = record s { slots = set s.slots place slot1 }} {y = s'}
          (ground arith)
          (launched place slot1 (get_elem?-set s.slots place slot slot1 g)
            (launch_slot-task env s.lora_adapters slot slot1 task f))
    finished env s s' place task b slot slot1 (some why) g f e =
        subst (λ z. Outcome s z task)
          {x = send_error (record s { slots = set s.slots place slot1 }) task.info why} {y = s'}
          (ground arith) (refused why refl)

start_at-Outcome :
    (env : Env) (now : ℕ) (task : Task) (s s' : Server) (best : Option ℕ)
    → is_parent task ≡ false
    → start_at env now task (s, best) ≡ ok s'
    → Outcome s s' task
unfolding start_at defer_task defer
start_at-Outcome env now task s s' none p e =
    subst (λ z. Outcome s z task) {x = defer_task s task now} {y = s'} (ground arith)
      (deferred refl)
start_at-Outcome env now task s s' (some place) p e =
    elim (Option-cases (get_elem? s.slots place)) [
      | inl n ↦
          subst (λ z. Outcome s z task) {x = defer_task s task now} {y = s'} (ground arith)
            (deferred refl)
      | inr (slot, n) ↦ elim (Bool-cases (is_processing slot)) [
        | inl k ↦
            subst (λ z. Outcome s z task) {x = defer_task s task now} {y = s'} (ground arith)
              (deferred refl)
        | inr k ↦
            let ((s1, b), f, e1) =
              bind_ok (launch_slot_with_task env s place task) _ _ (rw (n, k, p, start_at) at e) in
            subst (λ z. Outcome s z task) {x = s1} {y = s'} (ground arith)
              (launch-Outcome env s s1 place task b f)
      ]
    ]

-- The queue and the results are those of before.
SameQueues : Server → Server → Type 0
SameQueues s s' = (s'.queue_tasks ≡ s.queue_tasks) × (s'.queue_results ≡ s.queue_results)

Outcome-from :
    (s s1 s' : Server) (task : Task) → SameQueues s s1 → Outcome s1 s' task → Outcome s s' task
unfolding SameQueues
Outcome-from s s1 s' task q (deferred h) = deferred (rw q.0 at h)
Outcome-from s s1 s' task q (launched place slot g h) = launched place slot g h
Outcome-from s s1 s' task q (refused e h) = refused e (rw q.1 at h)

update_cache-SameQueues :
    (env : Env) (s s' : Server) (place : ℕ) (slot : Slot) (task : Task)
    → update_cache env s place slot task ≡ ok s'
    → SameQueues s s'
unfolding update_cache SameQueues
update_cache-SameQueues env s s' place slot task e = elim (Option-cases s.prompt_cache) [
  | inl n ↦ ground arith
  | inr (c, n) ↦ elim (Result-cases (swap_prompt env c slot task)) [
    | inl (r, f) ↦ ground arith
    | inr (x, f) ↦ ground arith
  ]
]

cached-SameQueues :
    (env : Env) (s s' : Server) (place : ℕ) (slot : Slot) (task : Task) (wanted : Bool)
    → (if wanted then update_cache env s place slot task else ok s) ≡ ok s'
    → SameQueues s s'
unfolding SameQueues
cached-SameQueues env s s' place slot task true e =
    update_cache-SameQueues env s s' place slot task e
cached-SameQueues env s s' place slot task false e = ground arith

available-SameQueues :
    (env : Env) (s s' : Server) (task : Task) (best : Option ℕ)
    → get_available_slot env s task ≡ ok (s', best)
    → SameQueues s s'
unfolding get_available_slot SameQueues
available-SameQueues env s s' task best e =
    let ((place, wanted), f, e1) = bind_ok (choose_slot env s.slots task) _ _ e in
    elim (Option-cases place) [
      | inl n ↦ same s s' none best (rw n at e1)
      | inr (i, n) ↦ elim (Option-cases (get_elem? s.slots i)) [
        | inl g ↦ same s s' none best (rw (n, g) at e1)
        | inr (slot, g) ↦
            let (s1, l, e2) =
              bind_ok (if wanted then update_cache env s i slot task else ok s) _ _
                (rw (n, g) at e1) in
            subst (SameQueues s) {x = s1} {y = s'} (ground arith)
              (cached-SameQueues env s s1 i slot task wanted l)
      ]
    ]
  where
    pair : Server → Option ℕ → Result (Server × Option ℕ)
    pair s a = ok (s, a)

    same : (s s' : Server) (a b : Option ℕ) → pair s a ≡ pair s' b → SameQueues s s'
    same s s' a b e = subst (SameQueues s) {x = s} {y = s'} (ground arith) (refl, refl)

slot_for-SameQueues :
    (env : Env) (s s' : Server) (task : Task) (best : Option ℕ)
    → slot_for env s task ≡ ok (s', best)
    → SameQueues s s'
unfolding slot_for SameQueues
slot_for-SameQueues env s s' task best e = elim (Bool-cases (task.id_slot ==ℤ minus_one)) [
  | inl k ↦ available-SameQueues env s s' task best (rw (k, slot_for) at e)
  | inr k ↦ subst (SameQueues s) {x = s} {y = s'} (ground arith) (refl, refl)
]

-- A task of inference without children is not lost: once it has its tokens and was processed, it waits as
-- the last of the deferred tasks, or a slot has it, or an error for it was sent to its reader.
pub process_inference-Outcome :
    (env : Env) (now : ℕ) (s s' : Server) (task t : Task)
    → tokenized env task ≡ some t
    → is_parent t ≡ false
    → process_inference env now s task ≡ ok s'
    → Outcome s s' t
unfolding process_inference
process_inference-Outcome env now s s' task t n p e =
    let ((s1, best), f, e1) = bind_ok (slot_for env s t) _ _ (rw (n, process_inference) at e) in
    Outcome-from s s1 s' t (slot_for-SameQueues env s s1 t best f)
      (start_at-Outcome env now t s1 s' best p e1)
