-- ===== src/Examples/Readers.antt =====
-- The theorems on the readers of results, used on concrete data. It models no file of the repository.
use llama_go.Base.{
  ◌≡◌, refl, suc, true, false, not, ◌&&◌, ltb, length, none, some, List, [], ◌∷◌, any, ℤ, pos,
  minus_one, ◌==ℤ◌, arith,
}
use llama_go.Task.{TaskResult, slot_erased, is_error, is_stop}
use llama_go.Queue.Cancel.{NoPending}
use llama_go.Response.{contains, wanted, take_result, recv_with_timeout}
use llama_go.Reader.{
  Client, Poll, has_next, stop, take, with_results, after_poll, next, collect, collected, settle,
  wait_from, wait_for_all, all_received,
}
use llama_go.Reader.Collect.{IsFull, wait_for_all-IsFull}
use llama_go.Reader.Stop.{Forgotten, stop-gone}
use llama_go.Examples.{task, cancel_task, queue}

abbrev erased : TaskResult
erased = record { id = pos 3; id_slot = minus_one; index = 0; payload = slot_erased 7 }

-- A reader of the result of task 3.
abbrev client : List TaskResult → Client
client results = record {
  reader = record { id_tasks = pos 3 ∷ []; received_count = 0; cancelled = false; n_states = 1 };
  queue_tasks = queue 9 (task (pos 3) minus_one ∷ []) [];
  queue_results = record { running = true; waiting_task_ids = pos 3 ∷ []; queue_results = results };
}

more : has_next (client []).reader ≡ true
unfolding has_next
more = refl

awaited : contains (pos 3 ∷ []) (pos 3) ≡ true
unfolding contains any ◌==ℤ◌
awaited = refl

stop-gone_example :
    NoPending (pos 3) (stop (cancel_task minus_one minus_one) 0 (client [])).queue_tasks
    × Forgotten (pos 3) (stop (cancel_task minus_one minus_one) 0 (client [])).queue_results
    × (has_next (stop (cancel_task minus_one minus_one) 0 (client [])).reader ≡ false)
stop-gone_example =
    stop-gone (cancel_task minus_one minus_one) 0 3 (client []) refl refl more
      ((3, omega arith, refl), tt) (omega arith) awaited

-- The result is there when next looks for it.
abbrev at_once : Poll
at_once = record { waits = []; tasks = λ q. q; should_stop = false }

abbrev after_result : Client
after_result = record {
  reader = record { id_tasks = pos 3 ∷ []; received_count = 1; cancelled = false; n_states = 1 };
  queue_tasks = queue 9 (task (pos 3) minus_one ∷ []) [];
  queue_results = record { running = true; waiting_task_ids = pos 3 ∷ []; queue_results = [] };
}

collects :
    wait_for_all (cancel_task minus_one minus_one) 0 ((at_once ∷ []) ∷ []) (client (erased ∷ []))
    ≡ all_received (some erased ∷ []) after_result
unfolding wait_for_all wait_from has_next next after_poll recv_with_timeout take_result wanted
    contains any ◌==ℤ◌ take with_results settle collect collected is_error is_stop
    llama_go.Base.extract
collects = refl

wait_for_all-IsFull_example : IsFull (some erased ∷ [])
wait_for_all-IsFull_example =
    wait_for_all-IsFull (cancel_task minus_one minus_one) 0 ((at_once ∷ []) ∷ []) (some erased ∷ [])
      (client (erased ∷ [])) after_result refl refl collects
