-- ===== src/Reader/Collect.antt =====
-- core/src/server/server-queue.cpp, server_response_reader::wait_for_all: the results that it collects.
use llama_go.Base.{
  ℕ, zero, suc, ◌≤◌, ◌≡◌, refl, sym, ap, ◌∙◌, subst, inl, inr, Bool, true, false, not, ◌&&◌, ltb,
  ◌==◌, if◌then◌else◌, Option, none, some, List, [], ◌∷◌, length, get_elem?, set, length-set,
  length-replicate, replicate, All, arith, Bool-cases, Option-cases,
}
use llama_go.Task.{Task, TaskResult, is_error, is_stop}
use llama_go.Response.{Response, Received, received, timeout, terminated, waiting}
use llama_go.Reader.{
  Client, has_next, Poll, Next, got, stopped, crashed, failed, unfinished, take, with_results,
  after_poll, next, Batch, all_received, collect, collected, settle, wait_from, wait_for_all,
}

count_some : List (Option TaskResult) → ℕ
count_some [] = 0
count_some (none ∷ xs) = count_some xs
count_some (some x ∷ xs) = suc (count_some xs)

count_some_le : (xs : List (Option TaskResult)) → count_some xs ≤ length xs
unfolding count_some
count_some_le [] = omega arith
count_some_le (none ∷ xs) = omega (arith, count_some_le xs)
count_some_le (some x ∷ xs) = omega (arith, count_some_le xs)

-- Every place has a result.
abbrev pub IsFull : List (Option TaskResult) → Type 0
IsFull xs = All (λ o. (x : TaskResult) × (o ≡ some x)) xs

count_some-IsFull : (xs : List (Option TaskResult)) → length xs ≤ count_some xs → IsFull xs
unfolding count_some
count_some-IsFull [] h = tt
count_some-IsFull (none ∷ xs) h = absurd (omega (arith, count_some_le xs))
count_some-IsFull (some x ∷ xs) h = ((x, refl), count_some-IsFull xs (omega arith))

count_some-set :
    (xs : List (Option TaskResult)) (i : ℕ) (x : TaskResult)
    → get_elem? xs i ≡ some none
    → count_some (set xs i (some x)) ≡ suc (count_some xs)
unfolding count_some
count_some-set [] i x e = cc
count_some-set (none ∷ xs) zero x e = refl
count_some-set (some y ∷ xs) zero x e = absurd (cc e)
count_some-set (none ∷ xs) (suc i) x e = count_some-set xs i x e
count_some-set (some y ∷ xs) (suc i) x e = ap suc (count_some-set xs i x e)

-- A result that was collected fills one more place.
collect_lem :
    (xs ys : List (Option TaskResult)) (x : TaskResult)
    → collect xs x ≡ some ys
    → (length ys ≡ length xs) × (count_some ys ≡ suc (count_some xs))
unfolding collect
collect_lem xs ys x e = elim (Option-cases (get_elem? xs x.index)) [
  | inl n ↦ absurd (cc (rw (n, collect) at e))
  | inr (some y, n) ↦ absurd (cc (rw (n, collect) at e))
  | inr (none, n) ↦
      let same : set xs x.index (some x) ≡ ys = cc (rw (n, collect) at e) in
      (
        ap length (sym same) ∙ length-set xs x.index (some x),
        ap count_some (sym same) ∙ count_some-set xs x.index x n,
      )
]

-- How a result that is no error leaves the reader.
Counts : Client → Client → Type 0
Counts c c' =
    (c'.reader.id_tasks ≡ c.reader.id_tasks)
    × (c'.reader.cancelled ≡ c.reader.cancelled)
    × (c'.reader.received_count ≤ suc c.reader.received_count)

got_client : (x y : TaskResult) (c c' : Client) → got x c ≡ got y c' → c ≡ c'
got_client x y c c' e = cc e

counted : Bool → Client → Client
counted b c =
    let r = c.reader in
    if b then record c { reader = record r { received_count = suc r.received_count } } else c

counted-Counts : (b : Bool) (c : Client) → Counts c (counted b c)
unfolding counted Counts
counted-Counts true c = (refl, refl, omega arith)
counted-Counts false c = (refl, refl, omega arith)

take_counted :
    (bad : Bool) (c c' : Client) (x y : TaskResult)
    → (if bad then failed else got x (counted (is_stop x) c)) ≡ got y c'
    → Counts c c'
take_counted true c c' x y e = absurd (cc e)
take_counted false c c' x y e =
    subst (Counts c) (got_client x y (counted (is_stop x) c) c' e) (counted-Counts (is_stop x) c)

take-Counts :
    (blank : Task) (now : ℕ) (c c' : Client) (x y : TaskResult)
    → take blank now c x ≡ got y c'
    → is_error y ≡ false
    → Counts c c'
unfolding take counted
take-Counts blank now c c' x y e k = elim (Bool-cases (is_error x)) [
  | inl h ↦ absurd (cc (rw h at e, h, k))
  | inr h ↦
      let r = c.reader in
      take_counted (not (r.n_states == 0) && not (ltb x.index r.n_states)) c c' x y (rw h at e)
]

after_poll-Counts :
    (blank : Task) (now : ℕ) (p : Poll) (c c' : Client) (go : Client → Next) (a : Received)
    (y : TaskResult)
    → ((q : Response) → go (with_results c p q) ≡ got y c' → Counts c c')
    → after_poll blank now p c go a ≡ got y c'
    → is_error y ≡ false
    → Counts c c'
unfolding after_poll with_results Counts
after_poll-Counts blank now p c c' go (received x q) y h e k =
    take-Counts blank now (with_results c p q) c' x y e k
after_poll-Counts blank now p c c' go (timeout q) y h e k = elim (Bool-cases p.should_stop) [
  | inl s ↦ absurd (cc (rw s at e))
  | inr s ↦ h q (rw s at e)
]
after_poll-Counts blank now p c c' go terminated y h e k = absurd (cc e)
after_poll-Counts blank now p c c' go (waiting q) y h e k = absurd (cc e)

next-Counts :
    (blank : Task) (now : ℕ) (ps : List Poll) (c c' : Client) (y : TaskResult)
    → next blank now ps c ≡ got y c'
    → is_error y ≡ false
    → Counts c c'
unfolding next with_results Counts
next-Counts blank now [] c c' y e k = absurd (cc e)
next-Counts blank now (p ∷ ps) c c' y e k =
    after_poll-Counts blank now p c c' (next blank now ps) _ y
      (λ q g. next-Counts blank now ps (with_results c p q) c' y g k) e k

-- There are as many results as were counted, and a place for each task.
Collects : List (Option TaskResult) → Client → Type 0
Collects results c =
    (length results ≡ length c.reader.id_tasks)
    × (c.reader.received_count ≤ count_some results)
    × (c.reader.cancelled ≡ false)

collect-Collects :
    (xs ys : List (Option TaskResult)) (x : TaskResult) (c c' : Client)
    → Collects xs c
    → Counts c c'
    → collect xs x ≡ some ys
    → Collects ys c'
unfolding Collects Counts
collect-Collects xs ys x c c' (l, n, k) (i, b, m) e =
    let (same, more) = collect_lem xs ys x e in
    (same ∙ l ∙ ap length (sym i), omega (arith, more), b ∙ k)

every_counted :
    (count ids places filled : ℕ)
    → places ≡ ids
    → count ≤ filled
    → (not false && ltb count ids) ≡ false
    → places ≤ filled
every_counted count ids places filled l n e = ground arith

finished-IsFull :
    (results : List (Option TaskResult)) (c : Client)
    → Collects results c
    → has_next c.reader ≡ false
    → IsFull results
unfolding Collects has_next
finished-IsFull results c (l, n, k) e = count_some-IsFull results (
    every_counted c.reader.received_count (length c.reader.id_tasks) (length results)
      (count_some results) l n (rw (k, has_next) at e))

received_all :
    (xs ys : List (Option TaskResult)) (c c' : Client)
    → all_received xs c ≡ all_received ys c'
    → xs ≡ ys
received_all xs ys c c' e = cc e

-- `go` is the rest of the loop, which keeps what the theorem states of it.
settle-IsFull :
    (go : List (Option TaskResult) → Client → Batch)
    → (xs ys : List (Option TaskResult)) (c c' : Client) (a : Next)
    → ((zs : List (Option TaskResult)) (d : Client)
        → Collects zs d
        → go zs d ≡ all_received ys c'
        → IsFull ys)
    → Collects xs c
    → ((x : TaskResult) (d : Client) → a ≡ got x d → is_error x ≡ false → Counts c d)
    → settle go xs a ≡ all_received ys c'
    → IsFull ys
unfolding settle collected
settle-IsFull go xs ys c c' (got x d) rest holds counts e = elim (Bool-cases (is_error x)) [
  | inl h ↦ absurd (cc (rw h at e))
  | inr h ↦ elim (Option-cases (collect xs x)) [
    | inl n ↦ absurd (cc (rw (h, n) at e))
    | inr (zs, n) ↦
        rest zs d (collect-Collects xs zs x c d holds (counts x d refl h) n) (rw (h, n) at e)
  ]
]
settle-IsFull go xs ys c c' (stopped d) rest holds counts e = absurd (cc e)
settle-IsFull go xs ys c c' crashed rest holds counts e = absurd (cc e)
settle-IsFull go xs ys c c' failed rest holds counts e = absurd (cc e)
settle-IsFull go xs ys c c' (unfinished d) rest holds counts e = absurd (cc e)

wait_from-IsFull :
    (blank : Task) (now : ℕ) (calls : List (List Poll)) (xs ys : List (Option TaskResult))
    (c c' : Client)
    → Collects xs c
    → wait_from blank now calls xs c ≡ all_received ys c'
    → IsFull ys
unfolding wait_from
wait_from-IsFull blank now [] xs ys c c' holds e = elim (Bool-cases (has_next c.reader)) [
  | inl h ↦ absurd (cc (rw h at e))
  | inr h ↦ subst IsFull (received_all xs ys c c' (rw h at e)) (finished-IsFull xs c holds h)
]
wait_from-IsFull blank now (ps ∷ calls) xs ys c c' holds e = elim (Bool-cases (has_next c.reader)) [
  | inl h ↦
      settle-IsFull (wait_from blank now calls) xs ys c c' (next blank now ps c)
        (λ zs d. wait_from-IsFull blank now calls zs ys d c') holds
        (λ x d. next-Counts blank now ps c d x) (rw h at e)
  | inr h ↦ subst IsFull (received_all xs ys c c' (rw h at e)) (finished-IsFull xs c holds h)
]

-- When wait_for_all returns without an error result and without having been stopped, on a reader that is not
-- cancelled and has counted no result yet, it has put a result at every index.
pub wait_for_all-IsFull :
    (blank : Task) (now : ℕ) (calls : List (List Poll)) (ys : List (Option TaskResult))
    (c c' : Client)
    → c.reader.cancelled ≡ false
    → c.reader.received_count ≡ 0
    → wait_for_all blank now calls c ≡ all_received ys c'
    → IsFull ys
unfolding wait_for_all Collects
wait_for_all-IsFull blank now calls ys c c' h n e =
    wait_from-IsFull blank now calls (replicate (length c.reader.id_tasks) none) ys c c'
      (length-replicate (length c.reader.id_tasks) none, omega (arith, n), h) e
