-- ===== src/Queue/CancelBatch.antt =====
-- core/src/server/server-queue.cpp, server_queue::post of several tasks: the cancel tasks that
-- server_response_reader::stop posts in one batch.
use llama_go.Base.{
  ℕ, suc, ◌<◌, ◌≤◌, ◌≡◌, refl, ◌⊎◌, inl, inr, Bool, true, false, List, [], ◌∷◌, arith, ℤ, pos,
  minus_one, ◌==ℤ◌,
}
use llama_go.Task.{Task}
use llama_go.Queue.{
  Queue, has_id, is_cancel, cleanup_pending_task, clean, push, renumber, post_each, post_tasks,
}
use llama_go.Queue.Fresh.{number_new}
use llama_go.Queue.Cancel.{
  NoPending, cleanup-NoPending, push-NoPending, clean_cancel, cleanup-keeps,
}

-- A cancel task as server_response_reader::stop makes it: still without a number.
abbrev pub IsCancelOf : ℤ → Task → Type 0
IsCancelOf i t = (is_cancel t.type ≡ true) × (t.id ≡ minus_one) × (t.id_target ≡ i)

-- Every task of the batch is such a cancel task, for ids that were given out before.
abbrev pub CancelsOld : ℕ → List Task → Type 0
CancelsOld n [] = Unit {0}
CancelsOld n (t ∷ ts) = ((k : ℕ) × (k < n) × IsCancelOf (pos k) t) × CancelsOld n ts

-- A task of the batch cancels the id.
abbrev pub Cancels : ℤ → List Task → Type 0
Cancels i [] = ⊥
Cancels i (t ∷ ts) = (t.id_target ≡ i) ⊎ Cancels i ts

renumber_other : (t : Task) (m n : ℕ) → n < m → has_id (pos n) (renumber t m) ≡ false
unfolding renumber has_id ◌==ℤ◌
renumber_other t m n h = ground arith

-- What is left of one round of post_each over a cancel task.
after_round : Queue → Task → Bool → Queue
after_round q t front =
    push (cleanup_pending_task (record q { id = suc q.id }) t.id_target) (renumber t q.id) front

renumber_cancel :
    (q : Queue) (t : Task) (n : ℕ)
    → is_cancel t.type ≡ true
    → clean q (renumber t n) ≡ cleanup_pending_task q t.id_target
unfolding renumber
renumber_cancel q t n h = clean_cancel q (renumber t n) h

post_each_round :
    (q : Queue) (t : Task) (ts : List Task) (front : Bool)
    → t.id ≡ minus_one
    → is_cancel t.type ≡ true
    → post_each q (t ∷ ts) front ≡ post_each (after_round q t front) ts front
unfolding post_each after_round
post_each_round q t ts front h c =
    rw (number_new q t h, renumber_cancel (record q { id = suc q.id }) t q.id c)

after_round-id : (q : Queue) (t : Task) (front : Bool) → (after_round q t front).id ≡ suc q.id
unfolding after_round push cleanup_pending_task
after_round-id q t front = refl

after_round-NoPending :
    (q : Queue) (t : Task) (front : Bool) (n : ℕ)
    → n < q.id
    → NoPending (pos n) q ⊎ (t.id_target ≡ pos n)
    → NoPending (pos n) (after_round q t front)
unfolding after_round
after_round-NoPending q t front n h (inl p) =
    push-NoPending _ (renumber t q.id) front (pos n) (renumber_other t q.id n h) (
      cleanup-keeps (record q { id = suc q.id }) (pos n) t.id_target
        (record { main = p.main; deferred = p.deferred }))
after_round-NoPending q t front n h (inr e) =
    push-NoPending _ (renumber t q.id) front (pos n) (renumber_other t q.id n h)
      (rw e (cleanup-NoPending (record q { id = suc q.id }) (pos n)))

CancelsOld-mono : (m n : ℕ) (ts : List Task) → m ≤ n → CancelsOld m ts → CancelsOld n ts
CancelsOld-mono m n [] h c = tt
CancelsOld-mono m n (t ∷ ts) h ((k, lt, is), c) = ((k, omega arith, is), CancelsOld-mono m n ts h c)

post_each-NoPending :
    (q : Queue) (ts : List Task) (front : Bool) (n : ℕ)
    → CancelsOld q.id ts
    → n < q.id
    → NoPending (pos n) q ⊎ Cancels (pos n) ts
    → NoPending (pos n) (post_each q ts front)
unfolding post_each
post_each-NoPending q [] front n c h (inl p) = p
post_each-NoPending q [] front n c h (inr e) = elim e [ ]
post_each-NoPending q (t ∷ ts) front n ((k, lt, is), c) h p =
    rw (post_each_round q t ts front is.1 is.0) (
      post_each-NoPending (after_round q t front) ts front n
        (rw (after_round-id q t front) (CancelsOld-mono q.id (suc q.id) ts (omega arith) c))
        (rw (after_round-id q t front) (omega arith)) (one_of q t ts front n h p))
  where
    one_of :
        (q : Queue) (t : Task) (ts : List Task) (front : Bool) (n : ℕ)
        → n < q.id
        → NoPending (pos n) q ⊎ Cancels (pos n) (t ∷ ts)
        → NoPending (pos n) (after_round q t front) ⊎ Cancels (pos n) ts
    one_of q t ts front n h (inl p) = inl (after_round-NoPending q t front n h (inl p))
    one_of q t ts front n h (inr (inl e)) = inl (after_round-NoPending q t front n h (inr e))
    one_of q t ts front n h (inr (inr e)) = inr e

-- After a batch of unnumbered cancel tasks for ids that were given out before, posted to either end,
-- no task with one of these ids waits, in the main queue or among the deferred tasks.
pub post_tasks-cancel :
    (q : Queue) (ts : List Task) (front : Bool) (now n : ℕ)
    → CancelsOld q.id ts
    → n < q.id
    → Cancels (pos n) ts
    → NoPending (pos n) (post_tasks q ts front now)
unfolding post_tasks
post_tasks-cancel q ts front now n c h k =
    let p = post_each-NoPending q ts front n c h (inr k) in
    record { main = p.main; deferred = p.deferred }
