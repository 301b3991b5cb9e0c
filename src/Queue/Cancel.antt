-- ===== src/Queue/Cancel.antt =====
-- core/src/server/server-queue.cpp, server_queue::post and cleanup_pending_task: what a cancel task
-- does to the tasks that still wait.
use llama_go.Base.{
  ℕ, ◌≡◌, refl, ◌≢◌, Bool, true, false, not, List, [], ◌∷◌, ◌++◌, if◌then◌else◌, keep, All,
  All-append, All-keep, arith, ℤ, ==ℤ_iff, ==ℤ_ne, ok,
}
use llama_go.Task.{Task}
use llama_go.Queue.{Queue, has_id, is_cancel, cleanup_pending_task, clean, push, post}

-- No task with the id waits.
pub record NoPending (i : ℤ) (q : Queue) : Type 0 where
  pub main : All (λ t. has_id i t ≡ false) q.queue_tasks
  pub deferred : All (λ t. has_id i t ≡ false) q.queue_tasks_deferred

not_has : (i : ℤ) (ts : List Task) → All (λ t. has_id i t ≡ false) (keep (λ t. not (has_id i t)) ts)
unfolding keep
not_has i [] = tt
not_has i (t ∷ ts) = ground (arith, not_has i ts)

pub cleanup-NoPending : (q : Queue) (i : ℤ) → NoPending i (cleanup_pending_task q i)
unfolding cleanup_pending_task
cleanup-NoPending q i = record {
  main = not_has i q.queue_tasks;
  deferred = not_has i q.queue_tasks_deferred;
}

pub push-NoPending :
    (q : Queue) (t : Task) (front : Bool) (i : ℤ)
    → has_id i t ≡ false
    → NoPending i q
    → NoPending i (push q t front)
unfolding push
push-NoPending q t true i h p = record { main = (h, p.main); deferred = p.deferred }
push-NoPending q t false i h p = record {
  main = All-append (λ u. has_id i u ≡ false) q.queue_tasks (t ∷ []) p.main (h, tt);
  deferred = p.deferred;
}

-- The waiting tasks with another id are the same, in the same order.
keep_other :
    (i j : ℤ) (ts : List Task)
    → j ≢ i
    → keep (has_id j) (keep (λ t. not (has_id i t)) ts) ≡ keep (has_id j) ts
unfolding keep has_id
keep_other i j [] h = refl
keep_other i j (t ∷ ts) h = ground (arith, keep_other i j ts h, ==ℤ_iff t.id i, ==ℤ_iff t.id j)

has_id_ne : (i : ℤ) (t : Task) → t.id ≢ i → has_id i t ≡ false
unfolding has_id
has_id_ne i t h = ==ℤ_ne t.id i h

-- The waiting tasks with the id, in order, those of the main queue first.
abbrev pub waiting_with : ℤ → Queue → List Task
waiting_with j q = keep (has_id j) q.queue_tasks ++ keep (has_id j) q.queue_tasks_deferred

keep_skip :
    (j : ℤ) (t : Task) (front : Bool) (ts : List Task)
    → has_id j t ≡ false
    → keep (has_id j) (if front then t ∷ ts else ts ++ t ∷ []) ≡ keep (has_id j) ts
unfolding keep
keep_skip j t true ts h = rw h
keep_skip j t false [] h = rw h
keep_skip j t false (u ∷ ts) h = ground (arith, keep_skip j t false ts h)

pub clean_cancel :
    (q : Queue) (t : Task)
    → is_cancel t.type ≡ true
    → clean q t ≡ cleanup_pending_task q t.id_target
unfolding clean
clean_cancel q t c = rw (c, clean)

post_queue :
    (q q' : Queue) (t : Task) (front : Bool) (now : ℕ) (i : ℤ)
    → post q t front now ≡ ok (q', i)
    → (q'.queue_tasks ≡ (push (clean q t) t front).queue_tasks)
      × (q'.queue_tasks_deferred ≡ (push (clean q t) t front).queue_tasks_deferred)
unfolding post
post_queue q q' t front now i e = ground arith

waiting_with-cancel :
    (q : Queue) (t : Task) (front : Bool) (j : ℤ)
    → j ≢ t.id_target
    → t.id ≢ j
    → waiting_with j (push (cleanup_pending_task q t.id_target) t front) ≡ waiting_with j q
unfolding push cleanup_pending_task
waiting_with-cancel q t front j h k = rw (
  keep_skip j t front (keep (λ u. not (has_id t.id_target u)) q.queue_tasks) (has_id_ne j t k),
  keep_other t.id_target j q.queue_tasks h,
  keep_other t.id_target j q.queue_tasks_deferred h,
)

-- Posting a cancel task, to either end of the queue, leaves no task with the cancelled id waiting,
-- and every waiting task with an id that is neither this one nor the cancel task's own stays, in order.
pub post-cancel :
    (q q' : Queue) (t : Task) (front : Bool) (now : ℕ) (i : ℤ)
    → is_cancel t.type ≡ true
    → t.id ≢ t.id_target
    → post q t front now ≡ ok (q', i)
    → NoPending t.id_target q'
      × ((j : ℤ) → j ≢ t.id_target → t.id ≢ j → waiting_with j q' ≡ waiting_with j q)
post-cancel q q' t front now i c ne e =
    let (main, deferred) = post_queue q q' t front now i e in
    let clean_eq = clean_cancel q t c in
    let p =
      push-NoPending (cleanup_pending_task q t.id_target) t front t.id_target
        (has_id_ne t.id_target t ne) (cleanup-NoPending q t.id_target) in
    (
      record { main = rw (main, clean_eq) p.main; deferred = rw (deferred, clean_eq) p.deferred },
      λ j h k. rw (main, deferred, clean_eq) (waiting_with-cancel q t front j h k),
    )

pub cleanup-keeps : (q : Queue) (i j : ℤ) → NoPending i q → NoPending i (cleanup_pending_task q j)
unfolding cleanup_pending_task
cleanup-keeps q i j p = record {
  main = All-keep (λ t. has_id i t ≡ false) (λ t. not (has_id j t)) q.queue_tasks p.main;
  deferred =
      All-keep (λ t. has_id i t ≡ false) (λ t. not (has_id j t)) q.queue_tasks_deferred p.deferred;
}
