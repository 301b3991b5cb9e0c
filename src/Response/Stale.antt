-- ===== src/Response/Stale.antt =====
-- core/src/server/server-queue.cpp, server_response: whether every result that is kept has a reader.
use llama_go.Base.{
  ◌≡◌, refl, sym, subst, ◌⊎◌, inl, inr, Bool, true, false, not, some, List, [], ◌∷◌, keep, any,
  extract, All, All-append, Bool-cases, Option-cases, arith, ℤ, ◌==ℤ◌, ==ℤ_iff,
}
use llama_go.Task.{TaskResult}
use llama_go.Response.{
  Response, contains, insert, erase, add_waiting_task_id, add_waiting_task_ids, result_of,
  remove_waiting_task_id, remove_waiting_task_ids, send, wanted, take_result, terminate, Op, sends,
  adds, removes, removes_all, takes, taken, terminates, apply, apply_all,
}

-- Somebody waits for every result in the queue.
abbrev pub AllAwaited : Response → Type 0
AllAwaited r = All (λ x. contains r.waiting_task_ids x.id ≡ true) r.queue_results

contains-insert :
    (i j : ℤ) (ids : List ℤ) → contains ids j ≡ true → contains (insert i ids) j ≡ true
unfolding insert contains any
contains-insert i j ids h = ground arith

contains-erase :
    (i j : ℤ) (ids : List ℤ)
    → (j ==ℤ i) ≡ false
    → contains ids j ≡ true
    → contains (erase i ids) j ≡ true
unfolding contains erase any keep
contains-erase i j [] h k = k
contains-erase i j (n ∷ ns) h k =
    ground (arith, contains-erase i j ns h, ==ℤ_iff n i, ==ℤ_iff n j, ==ℤ_iff j i)

pub contains-erase_self : (i : ℤ) (ids : List ℤ) → contains (erase i ids) i ≡ false
unfolding contains erase any keep
contains-erase_self i [] = refl
contains-erase_self i (n ∷ ns) = ground (arith, contains-erase_self i ns)

All-map {κ λ1} :
    (P : TaskResult → Type κ) (Q : TaskResult → Type λ1) (xs : List TaskResult)
    → ((x : TaskResult) → P x → Q x)
    → All P xs
    → All Q xs
All-map P Q [] f h = tt
All-map P Q (x ∷ xs) f h = (f x h.0, All-map P Q xs f h.1)

send-AllAwaited : (r : Response) (x : TaskResult) → AllAwaited r → AllAwaited (send r x)
unfolding send
send-AllAwaited r x h = elim (Bool-cases (contains r.waiting_task_ids x.id)) [
  | inl k ↦
      rw (k, send)
        (All-append (λ y. contains r.waiting_task_ids y.id ≡ true) r.queue_results (x ∷ []) h
          (k, tt))
  | inr k ↦ rw (k, send) h
]

add-AllAwaited : (r : Response) (i : ℤ) → AllAwaited r → AllAwaited (add_waiting_task_id r i)
unfolding add_waiting_task_id
add-AllAwaited r i h =
    All-map (λ y. contains r.waiting_task_ids y.id ≡ true) _ r.queue_results
      (λ y k. contains-insert i y.id r.waiting_task_ids k) h

kept_awaited :
    (i : ℤ) (ids : List ℤ) (xs : List TaskResult)
    → All (λ y. contains ids y.id ≡ true) xs
    → All (λ y. contains (erase i ids) y.id ≡ true) (keep (λ x. not (result_of i x)) xs)
unfolding keep result_of
kept_awaited i ids [] h = tt
kept_awaited i ids (x ∷ xs) h = elim (Bool-cases (x.id ==ℤ i)) [
  | inl k ↦ rw (k, keep) (kept_awaited i ids xs h.1)
  | inr k ↦ rw (k, keep) (contains-erase i x.id ids k h.0, kept_awaited i ids xs h.1)
]

remove-AllAwaited : (r : Response) (i : ℤ) → AllAwaited r → AllAwaited (remove_waiting_task_id r i)
unfolding remove_waiting_task_id
remove-AllAwaited r i h = kept_awaited i r.waiting_task_ids r.queue_results h

extract-All {κ} :
    (P : TaskResult → Type κ) (p : TaskResult → Bool) (xs : List TaskResult) (y : TaskResult)
    (ys : List TaskResult)
    → extract p xs ≡ some (y, ys)
    → All P xs
    → All P ys
unfolding extract
extract-All P p [] y ys e h = cc
extract-All P p (x ∷ xs) y ys e h = elim (Bool-cases (p x)) [
  | inl k ↦ subst (All P) {x = xs} (ground arith) h.1
  | inr k ↦ elim (Option-cases (extract p xs)) [
    | inl n ↦ absurd (ground arith)
    | inr ((z, zs), m) ↦
        subst (All P) {x = x ∷ zs} (ground arith) (h.0, extract-All P p xs z zs m h.1)
  ]
]

take-AllAwaited :
    (r r' : Response) (ids : List ℤ) (x : TaskResult)
    → AllAwaited r
    → take_result r ids ≡ some (x, r')
    → AllAwaited r'
unfolding take_result
take-AllAwaited r r' ids x h e = elim (Option-cases (extract (wanted ids) r.queue_results)) [
  | inl n ↦ absurd (ground arith)
  | inr ((z, zs), m) ↦
      subst AllAwaited {x = record r { queue_results = zs }} {y = r'} (ground arith) (
        extract-All (λ y. contains r.waiting_task_ids y.id ≡ true) (wanted ids) r.queue_results z zs
          m h)
]

adds-AllAwaited :
    (r : Response) (is : List ℤ) → AllAwaited r → AllAwaited (add_waiting_task_ids r is)
unfolding add_waiting_task_ids
adds-AllAwaited r [] h = h
adds-AllAwaited r (i ∷ is) h = adds-AllAwaited (add_waiting_task_id r i) is (add-AllAwaited r i h)

taken-AllAwaited : (r : Response) (is : List ℤ) → AllAwaited r → AllAwaited (taken r is)
unfolding taken
taken-AllAwaited r is h = elim (Option-cases (take_result r is)) [
  | inl e ↦ rw (e, taken) h
  | inr ((x, r'), e) ↦ rw (e, taken) (take-AllAwaited r r' is x h e)
]

-- The operations none of which is remove_waiting_task_ids.
abbrev pub SingleRemovals : List Op → Type 0
SingleRemovals [] = Unit {0}
SingleRemovals (removes_all is ∷ ops) = ⊥
SingleRemovals (_ ∷ ops) = SingleRemovals ops

-- While ids are only removed one by one, somebody waits for every result that is kept, whatever is
-- sent, registered and taken, in any order.
pub apply_all-AllAwaited :
    (r : Response) (ops : List Op)
    → SingleRemovals ops
    → AllAwaited r
    → AllAwaited (apply_all r ops)
unfolding apply_all apply terminate
apply_all-AllAwaited r [] n h = h
apply_all-AllAwaited r (removes_all is ∷ ops) n h = elim n [ ]
apply_all-AllAwaited r (sends x ∷ ops) n h =
    apply_all-AllAwaited (send r x) ops n (send-AllAwaited r x h)
apply_all-AllAwaited r (adds is ∷ ops) n h =
    apply_all-AllAwaited (add_waiting_task_ids r is) ops n (adds-AllAwaited r is h)
apply_all-AllAwaited r (removes i ∷ ops) n h =
    apply_all-AllAwaited (remove_waiting_task_id r i) ops n (remove-AllAwaited r i h)
apply_all-AllAwaited r (takes is ∷ ops) n h =
    apply_all-AllAwaited (taken r is) ops n (taken-AllAwaited r is h)
apply_all-AllAwaited r (terminates ∷ ops) n h = apply_all-AllAwaited (terminate r) ops n h

pub contains-erase_other :
    (i j : ℤ) (ids : List ℤ) → contains ids j ≡ false → contains (erase i ids) j ≡ false
unfolding contains erase any keep
contains-erase_other i j [] h = refl
contains-erase_other i j (n ∷ ns) h = ground (arith, contains-erase_other i j ns)

removes-forgets :
    (r : Response) (is : List ℤ) (j : ℤ)
    → (contains is j ≡ true) ⊎ (contains r.waiting_task_ids j ≡ false)
    → contains (remove_waiting_task_ids r is).waiting_task_ids j ≡ false
unfolding remove_waiting_task_ids contains any
removes-forgets r [] j (inl h) = cc
removes-forgets r [] j (inr h) = h
removes-forgets r (i ∷ is) j (inr h) =
    removes-forgets (record r { waiting_task_ids = erase i r.waiting_task_ids }) is j
      (inr (contains-erase_other i j r.waiting_task_ids h))
removes-forgets r (i ∷ is) j (inl h) = elim (Bool-cases (i ==ℤ j)) [
  | inl k ↦
      removes-forgets (record r { waiting_task_ids = erase i r.waiting_task_ids }) is j
        (inr (
          subst (λ n. contains (erase n r.waiting_task_ids) j ≡ false) (sym ((==ℤ_iff i j).0 k))
            (contains-erase_self j r.waiting_task_ids)))
  | inr k ↦
      removes-forgets (record r { waiting_task_ids = erase i r.waiting_task_ids }) is j
        (inl (rw (k, any) at h))
]

removes-results :
    (r : Response) (is : List ℤ) → (remove_waiting_task_ids r is).queue_results ≡ r.queue_results
unfolding remove_waiting_task_ids
removes-results r [] = refl
removes-results r (i ∷ is) =
    removes-results (record r { waiting_task_ids = erase i r.waiting_task_ids }) is

-- Ids that are removed together leave their results behind: afterwards nobody waits for such an id,
-- and every result that was kept, one for such an id too, is still kept.
pub remove_waiting_task_ids-stale :
    (r : Response) (is : List ℤ) (j : ℤ)
    → contains is j ≡ true
    → (contains (remove_waiting_task_ids r is).waiting_task_ids j ≡ false)
      × ((remove_waiting_task_ids r is).queue_results ≡ r.queue_results)
remove_waiting_task_ids-stale r is j h = (removes-forgets r is j (inl h), removes-results r is)
