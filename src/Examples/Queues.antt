-- ===== src/Examples/Queues.antt =====
-- The theorems on the queues of tasks and results, used on concrete data. It models no file of the
-- repository.
use mathlib.Core.List.{Perm, not-mem-nil, Nodup-nil}
use llama_go.Base.{
  ◌≡◌, refl, true, false, inl, [], ◌∷◌, ◌++◌, any, keep, ℤ, pos, minus_one, ◌==ℤ◌, ok, arith,
}
use llama_go.Task.{TaskResult, slot_erased}
use llama_go.Queue.{
  has_id, Queue, initial, post, post_tasks, get_new_id, pop_deferred_task, uses_slot, may_proceed,
}
use llama_go.Queue.Cancel.{NoPending}
use llama_go.Queue.CancelBatch.{post_tasks-cancel}
use llama_go.Queue.Deferred.{pending, pop_deferred_task-perm}
use llama_go.Queue.Fresh.{IsFresh, post_tasks-IsFresh, pop_deferred_task-IsFresh}
use llama_go.Queue.Loop.{
  LoopState, asleep, stopped, start, run, loop, other, posts, requests_no_sleep, defers,
}
use llama_go.Queue.Loop.Sleep.{
  others, run-stopped, terminate-hangs_waiters, wait_until_no_sleep-wakes,
}
use llama_go.Response.{
  Response, contains, wanted, recv_with_timeout, received, apply_all, sends, removes,
  remove_waiting_task_ids,
}
use llama_go.Response.Delivery.{recv_with_timeout-oldest}
use llama_go.Response.Stale.{AllAwaited, apply_all-AllAwaited, remove_waiting_task_ids-stale}
use llama_go.Examples.{task, cancel_task, queue}

posted :
    post (queue 9 [] (task (pos 3) minus_one ∷ [])) (cancel_task (pos 5) (pos 3)) true 0
    ≡ ok (queue 9 (cancel_task (pos 5) (pos 3) ∷ []) [], pos 5)
unfolding post has_id keep ◌==ℤ◌
posted = refl

post_tasks-cancel_example : NoPending (pos 3) (
    post_tasks
      (queue 9 [] (task (pos 3) minus_one ∷ []))
      (cancel_task minus_one (pos 3) ∷ [])
      true
      0)
post_tasks-cancel_example =
    post_tasks-cancel (queue 9 [] (task (pos 3) minus_one ∷ []))
      (cancel_task minus_one (pos 3) ∷ []) true 0 3 ((3, omega arith, (refl, refl, refl)), tt)
      (omega arith) (inl refl)

-- Two tasks wait for a slot, the second for slot 1.
abbrev two_deferred : Queue
two_deferred = queue 9 [] (task (pos 3) minus_one ∷ task (pos 4) (pos 1) ∷ [])

pop_deferred_task-perm_example :
    Perm (pending two_deferred) (pending (pop_deferred_task two_deferred (pos 1) 0))
pop_deferred_task-perm_example = pop_deferred_task-perm two_deferred (pos 1) 0

slot_other : uses_slot (pos 1) (task (pos 3) minus_one) ≡ false
unfolding uses_slot ◌==ℤ◌
slot_other = refl

slot_same : uses_slot (pos 1) (task (pos 4) (pos 1)) ≡ true
unfolding uses_slot ◌==ℤ◌
slot_same = refl

initial-IsFresh : IsFresh initial
initial-IsFresh = record { below = λ i m. absurd (not-mem-nil m); distinct = Nodup-nil }

post_tasks-IsFresh_example : IsFresh (post_tasks initial (task minus_one minus_one ∷ []) false 0)
post_tasks-IsFresh_example =
    post_tasks-IsFresh initial (task minus_one minus_one ∷ []) false 0 (refl, tt) initial-IsFresh

-- The first task with a new id.
abbrev with_first : Queue
with_first = record initial {
  id = 1;
  queue_tasks = task (pos 0) minus_one ∷ [];
  time_last_task = 7;
}

post_first : post (get_new_id initial).0 (task (pos 0) minus_one) false 7 ≡ ok (with_first, pos 0)
unfolding post get_new_id ◌==ℤ◌
post_first = refl

first_new : pos 0 ≡ (get_new_id initial).1
unfolding get_new_id
first_new = refl

pop_deferred_task-IsFresh_example : IsFresh (pop_deferred_task initial (pos 0) 0)
pop_deferred_task-IsFresh_example = pop_deferred_task-IsFresh initial (pos 0) 0 initial-IsFresh

abbrev sleeper : LoopState
sleeper = let q = queue 9 [] [] in record { queue = record q { sleeping = true }; phase = asleep }

abbrev ended : LoopState
ended =
    let q = queue 9 [] [] in
    record { queue = record q { sleeping = true; running = false }; phase = asleep }

run-stopped_example :
    (run (pos 5) ended (
      loop 1 false
      ∷ other (posts (task (pos 3) minus_one) false 2)
      ∷ loop 2 false
      ∷ loop 3 false
      ∷ [])).phase
    ≡ stopped
run-stopped_example =
    run-stopped (pos 5) ended
      (loop 1 false
        ∷ other (posts (task (pos 3) minus_one) false 2)
        ∷ loop 2 false
        ∷ loop 3 false
        ∷ [])
      refl (omega arith)

terminate-hangs_waiters_example :
    may_proceed (run (pos 5) ended (loop 1 false ∷ loop 2 false ∷ [])).queue ≡ false
terminate-hangs_waiters_example =
    terminate-hangs_waiters (pos 5) ended (loop 1 false ∷ loop 2 false ∷ []) refl refl

wait_until_no_sleep-wakes_example :
    may_proceed
      (run (pos 5) sleeper (
        other requests_no_sleep ∷ others (defers (task (pos 3) minus_one) 1 ∷ [])
        ++ loop 2 false ∷ [])).queue
    ≡ true
wait_until_no_sleep-wakes_example =
    wait_until_no_sleep-wakes (pos 5) 2 false sleeper (defers (task (pos 3) minus_one) 1 ∷ []) refl
      refl refl ((λ e. cc), tt)

awake : (start initial 0).queue.sleeping ≡ false
unfolding start
awake = refl

abbrev erased : ℤ → TaskResult
erased i = record { id = i; id_slot = pos 0; index = 0; payload = slot_erased 1 }

abbrev responses : Response
responses = record {
  running = true;
  waiting_task_ids = pos 3 ∷ pos 4 ∷ [];
  queue_results = erased (pos 3) ∷ erased (pos 4) ∷ [];
}

not_wanted : wanted (pos 4 ∷ []) (erased (pos 3)) ≡ false
unfolding wanted contains any ◌==ℤ◌
not_wanted = refl

is_wanted : wanted (pos 4 ∷ []) (erased (pos 4)) ≡ true
unfolding wanted contains any ◌==ℤ◌
is_wanted = refl

recv_with_timeout-oldest_example :
    recv_with_timeout (pos 4 ∷ []) responses []
    ≡ received (erased (pos 4)) (record responses { queue_results = erased (pos 3) ∷ [] })
recv_with_timeout-oldest_example =
    recv_with_timeout-oldest (pos 4 ∷ []) responses [] (erased (pos 3) ∷ []) [] (erased (pos 4))
      refl (not_wanted, tt) is_wanted

responses-AllAwaited : AllAwaited responses
unfolding contains any ◌==ℤ◌
responses-AllAwaited = (refl, (refl, tt))

apply_all-AllAwaited_example :
    AllAwaited (apply_all responses (removes (pos 3) ∷ sends (erased (pos 4)) ∷ []))
apply_all-AllAwaited_example =
    apply_all-AllAwaited responses (removes (pos 3) ∷ sends (erased (pos 4)) ∷ []) tt
      responses-AllAwaited

three_in : contains (pos 3 ∷ []) (pos 3) ≡ true
unfolding contains any ◌==ℤ◌
three_in = refl

remove_waiting_task_ids-stale_example :
    (contains (remove_waiting_task_ids responses (pos 3 ∷ [])).waiting_task_ids (pos 3) ≡ false)
    × ((remove_waiting_task_ids responses (pos 3 ∷ [])).queue_results
        ≡ erased (pos 3) ∷ erased (pos 4) ∷ [])
remove_waiting_task_ids-stale_example =
    remove_waiting_task_ids-stale responses (pos 3 ∷ []) (pos 3) three_in
