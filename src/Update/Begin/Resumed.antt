-- ===== src/Update/Begin/Resumed.antt =====
-- core/src/server/server-context.cpp, update_slots: what a slot resumes from is a prefix of its prompt.
use llama_go.Base.{
  ℕ, zero, suc, ◌-◌, ◌≤◌, ◌<◌, ◌≡◌, refl, sym, ap, ◌∙◌, ◌⊎◌, inl, inr, true, false, not, ◌&&◌,
  Option, none, some, ltb, leb, ◌==◌, length, take, ℤ, pos, negsuc, minus_one, ◌==ℤ◌, ==ℤ_iff,
  Result, ok, err, assert_failed, arith, Bool-cases, if_false, ltb→lt, ==_iff, take-take,
}
use llama_go.Tokens.{Tokens, keep_first}
use llama_go.Tokens.Prefix.{get_common_prefix-IsLongest}
use llama_go.Task.{Task, server, exceed_context_size, need_logits}
use llama_go.Cache.{Checkpoint}
use llama_go.Slots.{Slot, processing_prompt}
use llama_go.Update.{UpdateEnv}
use llama_go.Update.Reuse.Agreement.{reuse_chunks-IsReused}
use llama_go.Update.Begin.{
  Begun, emptied, refused, begun, can_split, before_invocation, with_tokens, reuse, find_past,
  lies_above, find_checkpoint, restore, check_memory, erase_checkpoints, leave_one, keep_past,
  resume, begin_prompt,
}

-- The cached tokens agree with the prompt up to n_past.
abbrev IsPast : Tokens → Tokens → Result (Tokens × ℕ) → Type 0
IsPast cached input r =
    (ts : Tokens) × (n : ℕ) × (r ≡ ok (ts, n))
    × (ts.has_mtmd ≡ false)
    × (n ≤ length ts.tokens)
    × (n ≤ length input.tokens)
    × (take n ts.tokens ≡ take n input.tokens)

before_invocation_le : (start : ℤ) (n : ℕ) → before_invocation start n ≤ n
unfolding before_invocation
before_invocation_le (pos zero) n = omega arith
before_invocation_le (pos (suc k)) n = omega arith
before_invocation_le (negsuc k) n = omega arith

reuse-IsPast :
    (env : UpdateEnv) (cached input : Tokens) (m : ℤ) (n : ℕ)
    → env.env.has_mctx ≡ false
    → cached.has_mtmd ≡ false
    → n ≤ length cached.tokens
    → n ≤ length input.tokens
    → take n cached.tokens ≡ take n input.tokens
    → IsPast cached input (reuse env cached input m n)
unfolding reuse
reuse-IsPast env cached input (pos zero) n c t h k e = (cached, n, refl, t, h, k, e)
reuse-IsPast env cached input (negsuc m) n c t h k e = (cached, n, refl, t, h, k, e)
reuse-IsPast env cached input (pos (suc m)) n c t h k e = elim (Bool-cases env.can_shift) [
  | inr s ↦ rw (s, reuse) (cached, n, refl, t, h, k, e)
  | inl s ↦
      let (ys, j, r, b1, b2, b3, b4, a) =
        reuse_chunks-IsReused cached.tokens input.tokens (suc m) n (omega arith) h k e in
      let shifts : (env.can_shift && not cached.has_mtmd) ≡ true = ground arith in
      rw (shifts, c, r, reuse)
        (record cached { tokens = ys }, j, refl, t, omega (arith, b3, b4), b2, a)
]

find_past-IsPast :
    (env : UpdateEnv) (slot : Slot) (task : Task)
    → env.env.has_mctx ≡ false
    → slot.prompt.tokens.has_mtmd ≡ false
    → IsPast slot.prompt.tokens task.tokens (find_past env slot task)
unfolding find_past
find_past-IsPast env slot task c t = elim (Bool-cases task.params.cache_prompt) [
  | inr s ↦ rw (s, find_past) (slot.prompt.tokens, 0, refl, t, omega arith, omega arith, refl)
  | inl s ↦
      let cached = slot.prompt.tokens in
      let (n, e, longest) = get_common_prefix-IsLongest cached task.tokens t in
      let (l1, l2, a, most) = longest in
      let m = before_invocation slot.alora_invocation_start n in
      let le = before_invocation_le slot.alora_invocation_start n in
      let agree =
        sym (take-take m n cached.tokens le)
        ∙ ap (take m) a
        ∙ take-take m n task.tokens.tokens le in
      rw (s, e, find_past)
        (reuse-IsPast env cached task.tokens task.params.n_cache_reuse m c t (omega arith)
          (omega arith) agree)
]

restore_le :
    (env : UpdateEnv) (slot : Slot) (n : ℕ) (c : Option Checkpoint) → restore env slot n c ≤ n
unfolding restore
restore_le env slot n none = omega arith
restore_le env slot n (some c) = ground arith

-- The memory only takes away from what is kept, unless it holds nothing of the slot.
check_memory_le :
    (env : UpdateEnv) (slot : Slot) (n : ℕ)
    → slot.prompt.tokens.has_mtmd ≡ false
    → ((m : ℕ) × (check_memory env slot n ≡ ok m) × (m ≤ n))
      ⊎ ((check_memory env slot n ≡ err assert_failed)
          × (0 < n)
          × (n < length slot.prompt.tokens.tokens)
          × (env.pos_min slot ≡ minus_one))
unfolding check_memory
check_memory_le env slot n t =
    let thold = n - env.n_swa in
    elim (Bool-cases
      (not env.env.has_mctx && ltb 0 n && ltb n (length slot.prompt.tokens.tokens))) [
        | inr s ↦ inl (rw (s, check_memory) (n, refl, omega arith))
        | inl s ↦ elim (Bool-cases (env.pos_min slot ==ℤ minus_one)) [
          | inl h ↦ inr (
            rw (s, h, check_memory) refl,
            ground arith,
            ground arith,
            (==ℤ_iff (env.pos_min slot) minus_one).0 h,
          )
          | inr h ↦ elim (Bool-cases (lies_above (env.pos_min slot) thold)) [
            | inr l ↦ inl (rw (s, h, l, check_memory) (n, refl, omega arith))
            | inl l ↦ inl (
                rw (s, h, l, check_memory)
                  (
                    restore env slot n (find_checkpoint slot.prompt.checkpoints thold),
                    if_false _ _ _ t,
                    restore_le env slot n _,
                  ))
          ]
        ]
      ]

-- What the outcome says of the task: an empty prompt, a prompt that is too large or a context with no
-- memory, or a slot that holds a proper prefix of the prompt.
abbrev pub IsResumed : UpdateEnv → Slot → Task → Begun → Type 0
IsResumed env slot task emptied = length task.tokens.tokens ≡ 0
IsResumed env slot task (refused e) =
    ((e ≡ exceed_context_size) × (slot.n_ctx ≤ length task.tokens.tokens))
    ⊎ ((e ≡ server) × ((env.has_kv ≡ false) ⊎ (env.n_ubatch < length task.tokens.tokens)))
IsResumed env slot task (begun slot' told) =
    (n : ℕ) × (n < length task.tokens.tokens)
    × (slot'.prompt.tokens.tokens ≡ take n task.tokens.tokens)
    × (slot'.state ≡ slot.state)

leave_one_lem : (n m : ℕ) → n ≤ m → 0 < m → (leave_one n m ≤ n) × (leave_one n m < m)
unfolding leave_one
leave_one_lem n m h k = (ground arith, ground arith)

keep_past-IsResumed :
    (env : UpdateEnv) (slot : Slot) (task : Task) (n : ℕ)
    → 0 < length task.tokens.tokens
    → slot.prompt.tokens.has_mtmd ≡ false
    → n ≤ length slot.prompt.tokens.tokens
    → n ≤ length task.tokens.tokens
    → take n slot.prompt.tokens.tokens ≡ take n task.tokens.tokens
    → (b : Begun) × (keep_past slot task n ≡ ok b) × IsResumed env slot task b
unfolding keep_past keep_first with_tokens leave_one
keep_past-IsResumed env slot task n z t h k e =
    let m = leave_one n (length task.tokens.tokens) in
    let cached = slot.prompt.tokens in
    let (le, lt) = leave_one_lem n (length task.tokens.tokens) k z in
    let agree =
      sym (take-take m n cached.tokens le) ∙ ap (take m) e ∙ take-take m n task.tokens.tokens le in
    let fits : not (leb m (length cached.tokens)) ≡ false = ground arith in
    let kept : keep_first cached m ≡ ok (record cached { tokens = take m cached.tokens }) =
      if_false _ _ _ fits ∙ if_false _ _ _ t in
    rw (kept, keep_past) (_, refl, (m, lt, agree, refl))

-- The slot is to resume behind some tokens of its cached prompt, of which the memory holds nothing.
abbrev pub IsLost : UpdateEnv → Slot → Task → Type 0
IsLost env slot task =
    (ts : Tokens) × (n : ℕ) × (find_past env slot task ≡ ok (ts, n))
    × (0 < n)
    × (n < length ts.tokens)
    × (env.pos_min (with_tokens slot ts) ≡ minus_one)

resume-IsResumed :
    (env : UpdateEnv) (slot : Slot) (task : Task)
    → 0 < length task.tokens.tokens
    → env.env.has_mctx ≡ false
    → slot.prompt.tokens.has_mtmd ≡ false
    → ((b : Begun) × (resume env slot task ≡ ok b) × IsResumed env slot task b)
      ⊎ ((resume env slot task ≡ err assert_failed) × IsLost env slot task)
unfolding resume with_tokens erase_checkpoints
resume-IsResumed env slot task z c t =
    let (ts, n, e, t1, l1, l2, a) = find_past-IsPast env slot task c t in
    elim (check_memory_le env (with_tokens slot ts) n t1) [
      | inr (f, above, below, lost) ↦ inr (rw (e, f, resume) refl, (ts, n, e, above, below, lost))
      | inl (m, f, le) ↦
          let agree =
            sym (take-take m n ts.tokens le)
            ∙ ap (take m) a
            ∙ take-take m n task.tokens.tokens le in
          inl (
            rw (e, f, resume)
              (keep_past-IsResumed env (erase_checkpoints (with_tokens slot ts) (n - env.n_swa))
                task m z t1 (omega arith) (omega arith) agree))
    ]

-- In a server for text, a slot that was started is refused, or its prompt is empty, or it resumes from a
-- proper prefix of its prompt; or the process is aborted, and then the slot was to resume behind a part of
-- its cached prompt of which the memory holds nothing.
pub begin_prompt-IsResumed :
    (env : UpdateEnv) (slot : Slot) (task : Task)
    → env.env.has_mctx ≡ false
    → slot.prompt.tokens.has_mtmd ≡ false
    → ((b : Begun) × (begin_prompt env slot task ≡ ok b)
        × IsResumed env (record slot { state = processing_prompt }) task b)
      ⊎ ((begin_prompt env slot task ≡ err assert_failed)
          × IsLost env (record slot { state = processing_prompt }) task)
unfolding begin_prompt
begin_prompt-IsResumed env slot task c t =
    let n_tokens = length task.tokens.tokens in
    let slot1 = record slot { state = processing_prompt } in
    elim (Bool-cases (n_tokens == 0)) [
      | inl e ↦ inl (rw (e, begin_prompt) (emptied, refl, (==_iff n_tokens 0).0 e))
      | inr e ↦ elim (Bool-cases (need_logits task.info && not env.has_kv)) [
        | inl l ↦
            inl (rw (e, l, begin_prompt) (refused server, refl, inr (refl, inl (ground arith))))
        | inr l ↦ elim (Bool-cases (not (can_split env task))) [
          | inl f ↦ elim (Bool-cases (ltb env.n_ubatch n_tokens)) [
            | inl u ↦ inl (
                rw (e, l, f, u, begin_prompt)
                  (refused server, refl, inr (refl, inr (ltb→lt _ _ u))))
            | inr u ↦ elim (Bool-cases (ltb slot.n_ctx n_tokens)) [
              | inl b ↦ inl (
                  rw (e, l, f, u, b, begin_prompt)
                    (refused exceed_context_size, refl, inl (refl, ground arith)))
              | inr b ↦ inl (
                  rw (e, l, f, u, b, begin_prompt)
                    (keep_past-IsResumed env slot1 task 0 (ground arith) t (omega arith)
                      (omega arith) refl))
            ]
          ]
          | inr f ↦ elim (Bool-cases (leb slot.n_ctx n_tokens)) [
            | inl b ↦ inl (
                rw (e, l, f, b, begin_prompt)
                  (refused exceed_context_size, refl, inl (refl, ground arith)))
            | inr b ↦
                rw (e, l, f, b, begin_prompt) (resume-IsResumed env slot1 task (ground arith) c t)
          ]
        ]
      ]
    ]
