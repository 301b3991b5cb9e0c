-- ===== src/Reader/Stop.antt =====
-- core/src/server/server-queue.cpp, server_response_reader::stop: what is left of the tasks of a reader.
use llama_go.Base.{
  ℕ, ◌<◌, ◌≡◌, refl, sym, subst, ◌⊎◌, inl, inr, true, false, not, ◌&&◌, List, [], ◌∷◌, keep, any,
  All, Bool-cases, arith, ℤ, pos, minus_one, ◌==ℤ◌, ==ℤ_iff, if_true,
}
use llama_go.Task.{Task, TaskResult}
use llama_go.Queue.{is_cancel, post_tasks}
use llama_go.Queue.Cancel.{NoPending}
use llama_go.Queue.CancelBatch.{CancelsOld, Cancels, post_tasks-cancel}
use llama_go.Response.{
  Response, contains, result_of, remove_waiting_task_id, remove_waiting_task_ids,
}
use llama_go.Response.Stale.{contains-erase_self, contains-erase_other}
use llama_go.Reader.{Reader, Client, has_next, cancel_tasks, remove_each, stop}

-- The ids were all given out by the queue.
abbrev pub Given : ℕ → List ℤ → Type 0
Given n is = All (λ i. (k : ℕ) × (k < n) × (i ≡ pos k)) is

-- No result for the id is kept and nobody waits for one.
abbrev pub Forgotten : ℤ → Response → Type 0
Forgotten j q =
    (any (result_of j) q.queue_results ≡ false) × (contains q.waiting_task_ids j ≡ false)

any-keep_self :
    (j : ℤ) (xs : List TaskResult) → any (result_of j) (keep (λ x. not (result_of j x)) xs) ≡ false
unfolding any keep
any-keep_self j [] = refl
any-keep_self j (x ∷ xs) = ground (arith, any-keep_self j xs)

any-keep_other :
    (i j : ℤ) (xs : List TaskResult)
    → any (result_of j) xs ≡ false
    → any (result_of j) (keep (λ x. not (result_of i x)) xs) ≡ false
unfolding any keep
any-keep_other i j [] h = refl
any-keep_other i j (x ∷ xs) h = ground (arith, any-keep_other i j xs)

remove-Forgotten : (q : Response) (j : ℤ) → Forgotten j (remove_waiting_task_id q j)
unfolding remove_waiting_task_id
remove-Forgotten q j = (any-keep_self j q.queue_results, contains-erase_self j q.waiting_task_ids)

remove_other-Forgotten :
    (q : Response) (i j : ℤ) → Forgotten j q → Forgotten j (remove_waiting_task_id q i)
unfolding remove_waiting_task_id
remove_other-Forgotten q i j (h, k) =
    (any-keep_other i j q.queue_results h, contains-erase_other i j q.waiting_task_ids k)

remove_each-Forgotten :
    (q : Response) (is : List ℤ) (j : ℤ)
    → (contains is j ≡ true) ⊎ Forgotten j q
    → Forgotten j (remove_each q is)
unfolding remove_each contains any
remove_each-Forgotten q [] j (inl h) = absurd (cc h)
remove_each-Forgotten q [] j (inr h) = h
remove_each-Forgotten q (i ∷ is) j (inr h) =
    remove_each-Forgotten (remove_waiting_task_id q i) is j (inr (remove_other-Forgotten q i j h))
remove_each-Forgotten q (i ∷ is) j (inl h) = elim (Bool-cases (i ==ℤ j)) [
  | inl k ↦ remove_each-Forgotten (remove_waiting_task_id q i) is j (
      inr (
        subst (λ n. Forgotten j (remove_waiting_task_id q n)) (sym ((==ℤ_iff i j).0 k))
          (remove-Forgotten q j)))
  | inr k ↦ remove_each-Forgotten (remove_waiting_task_id q i) is j (inl (rw (k, any) at h))
]

cancel_tasks-CancelsOld :
    (blank : Task) (n : ℕ) (is : List ℤ)
    → is_cancel blank.type ≡ true
    → blank.id ≡ minus_one
    → Given n is
    → CancelsOld n (cancel_tasks blank is)
unfolding cancel_tasks
cancel_tasks-CancelsOld blank n [] c m h = tt
cancel_tasks-CancelsOld blank n (i ∷ is) c m ((k, lt, e), h) =
    ((k, lt, (c, m, e)), cancel_tasks-CancelsOld blank n is c m h)

cancel_tasks-Cancels :
    (blank : Task) (is : List ℤ) (j : ℤ) → contains is j ≡ true → Cancels j (cancel_tasks blank is)
unfolding cancel_tasks contains any
cancel_tasks-Cancels blank [] j h = absurd (cc h)
cancel_tasks-Cancels blank (i ∷ is) j h = elim (Bool-cases (i ==ℤ j)) [
  | inl k ↦ inl ((==ℤ_iff i j).0 k)
  | inr k ↦ inr (cancel_tasks-Cancels blank is j (rw (k, any) at h))
]

-- The client after stop has cancelled the tasks of its reader.
with_cancelled : Task → ℕ → Client → Client
with_cancelled blank now c =
    let r = c.reader in
    record c {
      reader = record r { cancelled = true };
      queue_tasks = post_tasks c.queue_tasks (cancel_tasks blank r.id_tasks) true now;
      queue_results = remove_each (remove_waiting_task_ids c.queue_results r.id_tasks) r.id_tasks;
    }

both_tests : (r : Reader) → has_next r ≡ true → (has_next r && not r.cancelled) ≡ true
unfolding has_next
both_tests r h = ground arith

stop_unfinished :
    (blank : Task) (now : ℕ) (c : Client)
    → has_next c.reader ≡ true
    → stop blank now c ≡ with_cancelled blank now c
unfolding stop with_cancelled
stop_unfinished blank now c h = if_true _ _ _ (both_tests c.reader h)

-- A reader that still has results to wait for is cancelled by stop, which posts a cancel task for each of
-- its ids: with an unnumbered blank cancel task and ids that the queue gave out, no task with one of these
-- ids waits afterwards, in the main queue or among the deferred tasks, no result for it is kept, nobody waits
-- for one, and the reader asks for no further result.
pub stop-gone :
    (blank : Task) (now n : ℕ) (c : Client)
    → is_cancel blank.type ≡ true
    → blank.id ≡ minus_one
    → has_next c.reader ≡ true
    → Given c.queue_tasks.id c.reader.id_tasks
    → n < c.queue_tasks.id
    → contains c.reader.id_tasks (pos n) ≡ true
    → NoPending (pos n) (stop blank now c).queue_tasks
      × Forgotten (pos n) (stop blank now c).queue_results
      × (has_next (stop blank now c).reader ≡ false)
unfolding with_cancelled has_next
stop-gone blank now n c cancels new more given old mine =
    let ids = c.reader.id_tasks in
    rw (stop_unfinished blank now c more) (
      post_tasks-cancel c.queue_tasks (cancel_tasks blank ids) true now n
          (cancel_tasks-CancelsOld blank c.queue_tasks.id ids cancels new given) old
          (cancel_tasks-Cancels blank ids (pos n) mine),
      remove_each-Forgotten (remove_waiting_task_ids c.queue_results ids) ids (pos n) (inl mine),
      refl,
    )
