-- ===== src/Update/Phases/Busy.antt =====
-- core/src/server/server-context.cpp, update_slots: a slot that works on its task goes on with it.
use llama_go.Base.{
  ℕ, zero, suc, ◌+◌, ◌-◌, ◌≡◌, refl, sym, ap, ◌∙◌, subst, inl, inr, Bool, true, false, not, ◌&&◌,
  ◌||◌, if◌then◌else◌, ◌==◌, ◌==ℤ◌, ltb, leb, Option, none, some, List, [], ◌∷◌, length, drop,
  get_elem?, ℤ, pos, negsuc, ok, bind_ok, ok_subst, arith, Bool-cases, Option-cases, if_false,
  if_true,
}
use llama_go.Tokens.{
  Chunk, image, null_token, clear, insert, get_text_tokens, keep_first, pos_next, push_chunk,
}
use llama_go.Task.{Task, is_parent, is_child, need_embd, need_logits}
use llama_go.Generate.Life.{life}
use llama_go.Slots.{Slot, processing_prompt, done_prompt, is_idle, is_processing, clear_prompt}
use llama_go.Slots.Paired.{has_task, IsPaired}
use llama_go.Update.{UpdateEnv, BatchToken}
use llama_go.Update.Shift.{shifted, discarded, kept, shift_tokens, shift_slot, context_shift}
use llama_go.Update.Begin.{
  begun, begin_prompt, keep_past, resume, with_tokens, erase_checkpoints, find_past, check_memory,
  leave_one, can_split,
}
use llama_go.Update.Draft.{add_token, add_up_to, add_sampled, get_n_draft_max}
use llama_go.Update.Draft.Room.{add_token-IsAdded, add_with_draft-IsAdded}
use llama_go.Update.Prompt.{
  Filling, Continued, waits, media_failed, continued, truncate_memory, process_chunk, starts_media,
  add_media, process_media, disable_adapter, disable_alora, at_invocation, before_last, fill,
  make_checkpoint, finish_prompt, makes_checkpoints, add_prompt, continue_prompt,
}

-- The slot has a task and is not idle.
abbrev pub IsBusy : Slot → Type 0
IsBusy slot = (has_task slot ≡ true) × (is_idle slot.state ≡ false)

pub busy-IsPaired : (slot : Slot) → IsBusy slot → IsPaired slot
unfolding is_processing
busy-IsPaired slot (t, i) = t ∙ sym (ap not i)

pub paired-IsBusy : (slot : Slot) → IsPaired slot → is_idle slot.state ≡ false → IsBusy slot
unfolding is_processing
paired-IsBusy slot p i = (p ∙ ap not i, i)

life-IsBusy : (slot slot' : Slot) → life slot' ≡ life slot → IsBusy slot → IsBusy slot'
unfolding life has_task
life-IsBusy slot slot' e (t, i) = (rw (ap (λ x. x.1) e) t, rw (ap (λ x. x.0) e) i)

module _ (env : UpdateEnv) (task : Task) where
  shift_slot-IsBusy :
      (slot slot' : Slot) → shift_slot env slot task ≡ ok slot' → IsBusy slot → IsBusy slot'
  unfolding shift_slot life has_task
  shift_slot-IsBusy slot slot' e b = elim (Bool-cases slot.prompt.tokens.has_mtmd) [
    | inl c ↦ absurd (cc (rw (c, shift_slot) at e))
    | inr c ↦
        let k = kept env slot task in
        let n = discarded task.params.n_discard (length slot.prompt.tokens.tokens - k) in
        let (xs, f, e1) =
          bind_ok (get_text_tokens slot.prompt.tokens) _ slot' (sym (if_false _ _ _ c) ∙ e) in
        let (ys, f2, e2) = bind_ok (shift_tokens xs k n) _ slot' e1 in
        let (ts, f3, e3) = bind_ok (insert (clear slot.prompt.tokens) ys) _ slot' e2 in
        ok_subst IsBusy _ slot' e3 b
  ]

  pub context_shift-IsBusy :
      (slot slot' : Slot)
      → context_shift env slot task ≡ ok (shifted slot')
      → IsBusy slot
      → IsBusy slot'
  unfolding context_shift
  context_shift-IsBusy slot slot' e b = elim (Bool-cases (not env.gen.ctx_shift)) [
    | inl c ↦ absurd (cc (rw (c, context_shift) at e))
    | inr c ↦ elim (Bool-cases env.env.has_mctx) [
      | inl m ↦ absurd (cc (rw (c, m, context_shift) at e))
      | inr m ↦ elim (Bool-cases (is_parent task || is_child task.info)) [
        | inl p ↦ absurd (cc (rw (c, m, p, context_shift) at e))
        | inr p ↦
            let (s, f, g) =
              bind_ok (shift_slot env slot task) _ (shifted slot')
                (rw (c, m, p, context_shift) at e) in
            subst IsBusy {x = s} {y = slot'} (cc g) (shift_slot-IsBusy slot s f b)
      ]
    ]
  ]

  keep_past-IsBusy :
      (slot slot' : Slot) (n : ℕ) (told : Bool)
      → keep_past slot task n ≡ ok (begun slot' told)
      → IsBusy slot
      → IsBusy slot'
  unfolding keep_past with_tokens has_task
  keep_past-IsBusy slot slot' n told e b =
      let m = leave_one n (length task.tokens.tokens) in
      let (ts, f, g) = bind_ok (keep_first slot.prompt.tokens m) _ (begun slot' told) e in
      subst IsBusy
        {x = record (with_tokens slot ts) {
          n_prompt_tokens_cache = m;
          n_prompt_tokens_processed = 0;
        }}
        {y = slot'} (cc g) b

  resume-IsBusy :
      (slot slot' : Slot) (told : Bool)
      → resume env slot task ≡ ok (begun slot' told)
      → IsBusy slot
      → IsBusy slot'
  unfolding resume with_tokens erase_checkpoints has_task
  resume-IsBusy slot slot' told e b =
      let ((ts, n), f, e1) = bind_ok (find_past env slot task) _ (begun slot' told) e in
      let (m, g, e2) = bind_ok (check_memory env (with_tokens slot ts) n) _ (begun slot' told) e1 in
      keep_past-IsBusy (erase_checkpoints (with_tokens slot ts) (n - env.n_swa)) slot' m told e2 b

  pub begin_prompt-IsBusy :
      (slot slot' : Slot) (told : Bool)
      → begin_prompt env slot task ≡ ok (begun slot' told)
      → has_task slot ≡ true
      → IsBusy slot'
  unfolding begin_prompt has_task is_idle
  begin_prompt-IsBusy slot slot' told e t =
      let n_tokens = length task.tokens.tokens in
      let slot1 = record slot { state = processing_prompt } in
      elim (Bool-cases (n_tokens == 0)) [
        | inl a ↦ absurd (cc (rw (a, begin_prompt) at e))
        | inr a ↦ elim (Bool-cases (need_logits task.info && not env.has_kv)) [
          | inl l ↦ absurd (cc (rw (a, l, begin_prompt) at e))
          | inr l ↦ elim (Bool-cases (not (can_split env task))) [
            | inl f ↦ elim (Bool-cases (ltb env.n_ubatch n_tokens)) [
              | inl u ↦ absurd (cc (rw (a, l, f, u, begin_prompt) at e))
              | inr u ↦ elim (Bool-cases (ltb slot.n_ctx n_tokens)) [
                | inl c ↦ absurd (cc (rw (a, l, f, u, c, begin_prompt) at e))
                | inr c ↦
                    keep_past-IsBusy slot1 slot' 0 told (rw (a, l, f, u, c, begin_prompt) at e)
                      (t, refl)
              ]
            ]
            | inr f ↦ elim (Bool-cases (leb slot.n_ctx n_tokens)) [
              | inl c ↦ absurd (cc (rw (a, l, f, c, begin_prompt) at e))
              | inr c ↦
                  resume-IsBusy slot1 slot' told (rw (a, l, f, c, begin_prompt) at e) (t, refl)
            ]
          ]
        ]
      ]

  pub add_sampled-IsBusy :
      (slot : Slot) (batch : List BatchToken) (r : Slot × List BatchToken)
      → add_sampled env slot task batch ≡ ok r
      → IsBusy slot
      → IsBusy r.0
  unfolding add_sampled add_up_to life
  add_sampled-IsBusy slot batch r e b = by_limit (get_n_draft_max slot task) e
    where
      plain :
          add_token (record slot { i_batch = pos (length batch) }) batch slot.sampled true ≡ ok r
          → IsBusy r.0
      plain e =
          life-IsBusy slot r.0
            (add_token-IsAdded (record slot { i_batch = pos (length batch) }) batch slot.sampled
              true r e).3
            b

      by_limit : (n : ℤ) → add_up_to env n slot task batch ≡ ok r → IsBusy r.0
      by_limit (pos zero) e = plain e
      by_limit (negsuc n) e = plain e
      by_limit (pos (suc k)) e =
          let (xs, l, a) = add_with_draft-IsAdded env (suc k) slot task batch r e in
          life-IsBusy slot r.0 a.3 b

  truncate-IsBusy : (slot : Slot) → IsBusy slot → IsBusy (truncate_memory env slot)
  unfolding truncate_memory clear_prompt has_task
  truncate-IsBusy slot b = elim (Bool-cases (env.seq_rm slot (pos_next slot.prompt.tokens))) [
    | inl c ↦ rw (c, truncate_memory) b
    | inr c ↦ rw (c, truncate_memory) b
  ]

  add_media-IsBusy :
      (slot : Slot) (c : Option Chunk) (r : Slot × Bool)
      → add_media slot c ≡ ok r
      → IsBusy slot
      → IsBusy r.0
  unfolding add_media with_tokens has_task
  add_media-IsBusy slot none r e b = ok_subst (λ x. IsBusy x.0) (slot, false) r e b
  add_media-IsBusy slot (some c) r e b =
      let (ts, f, g) = bind_ok (push_chunk slot.prompt.tokens (image c)) _ r e in
      ok_subst (λ x. IsBusy x.0) _ r g b

  process_media-IsBusy :
      (slot : Slot) (r : Slot × Bool)
      → process_media env slot task ≡ ok r
      → IsBusy slot
      → IsBusy r.0
  unfolding process_media
  process_media-IsBusy slot r e b =
      let n_tokens = length slot.prompt.tokens.tokens in
      elim (Bool-cases (starts_media (get_elem? task.tokens.tokens n_tokens))) [
        | inl c ↦
            let (x, f, g) =
              bind_ok (process_chunk env slot task n_tokens) _ r (rw (c, process_media) at e) in
            add_media-IsBusy slot x r g b
        | inr c ↦ ok_subst (λ x. IsBusy x.0) (slot, true) r (rw (c, process_media) at e) b
      ]

  disable_adapter-IsBusy :
      (slot : Slot) (batch : List BatchToken) (ids : List ℕ) (f : Filling)
      → disable_adapter slot batch ids ≡ ok f
      → IsBusy slot
      → IsBusy f.slot
  unfolding disable_adapter has_task
  disable_adapter-IsBusy slot batch [] f e b = cc
  disable_adapter-IsBusy slot batch (i ∷ j ∷ is) f e b = cc
  disable_adapter-IsBusy slot batch (i ∷ []) f e b = elim (Option-cases (get_elem? slot.lora i)) [
    | inl n ↦ absurd (cc (rw (n, disable_adapter) at e))
    | inr (l, n) ↦ ok_subst (λ x. IsBusy x.slot) _ f (rw (n, disable_adapter) at e) b
  ]

  disable_alora-IsBusy : (f f' : Filling) → disable_alora f ≡ ok f' → IsBusy f.slot → IsBusy f'.slot
  unfolding disable_alora
  disable_alora-IsBusy f f' e b = either _ _ e
    where
      either :
          (c : Bool) (ids : List ℕ)
          → (if c then disable_adapter f.slot f.batch ids else ok f) ≡ ok f'
          → IsBusy f'.slot
      either true ids e = disable_adapter-IsBusy f.slot f.batch ids f' e b
      either false ids e = ok_subst (λ x. IsBusy x.slot) f f' e b

  fill-IsBusy :
      (c : Bool) (scale : ℤ) (toks : List ℤ) (slot : Slot) (batch : List BatchToken)
      (r : Slot × List BatchToken)
      → fill env task c scale toks (slot, batch) ≡ ok r
      → IsBusy slot
      → IsBusy r.0
  unfolding fill has_task
  fill-IsBusy c scale [] slot batch r e b = ok_subst (λ x. IsBusy x.0) (slot, batch) r e b
  fill-IsBusy c scale (x ∷ toks) slot batch r e b =
      elim (Bool-cases
        (not (ltb (length batch) env.n_batch) || (x ==ℤ null_token) || at_invocation slot scale)) [
          | inl h ↦ ok_subst (λ y. IsBusy y.0) (slot, batch) r (rw (h, fill) at e) b
          | inr h ↦
              let (q, f, g) =
                bind_ok (add_token slot batch x (need_embd task.info)) _ r (rw (h, fill) at e) in
              let b1 =
                life-IsBusy slot q.0 (add_token-IsAdded slot batch x (need_embd task.info) q f).3
                  b in
              let slot2 = record q.0 {
                n_prompt_tokens_processed = q.0.n_prompt_tokens_processed + 1;
              } in
              elim (Bool-cases (before_last env slot2 task c)) [
                | inl k ↦ ok_subst (λ y. IsBusy y.0) (slot2, q.1) r (sym (if_true _ _ _ k) ∙ g) b1
                | inr k ↦ fill-IsBusy c scale toks slot2 q.1 r (sym (if_false _ _ _ k) ∙ g) b1
              ]
        ]

  checkpoint-IsBusy :
      (slot : Slot) (lo hi : ℤ) → IsBusy slot → IsBusy (make_checkpoint env slot lo hi)
  unfolding make_checkpoint has_task
  checkpoint-IsBusy slot (pos lo) (pos hi) b = (ground (arith, b.0), ground (arith, b.1))
  checkpoint-IsBusy slot (pos lo) (negsuc hi) b = b
  checkpoint-IsBusy slot (negsuc lo) hi b = b

  finish_prompt-IsBusy :
      (c : Bool) (slot : Slot) (batch : List BatchToken) (r : Slot × List BatchToken)
      → finish_prompt env task c (slot, batch) ≡ ok r
      → IsBusy slot
      → IsBusy r.0
  unfolding finish_prompt has_task is_idle
  finish_prompt-IsBusy c slot batch r e b =
      let last = length batch - 1 in
      let slot1 = record slot { state = done_prompt; n_decoded = 0; i_batch = pos last } in
      let b1 : IsBusy slot1 = (b.0, refl) in
      elim (Bool-cases (length slot.prompt.tokens.tokens == length task.tokens.tokens)) [
        | inr h ↦ ok_subst (λ y. IsBusy y.0) (slot, batch) r (rw (h, finish_prompt) at e) b
        | inl h ↦ elim (Bool-cases (length batch == 0)) [
          | inl z ↦ absurd (cc (rw (h, z, finish_prompt) at e))
          | inr z ↦ elim (Bool-cases c) [
            | inl k ↦
                ok_subst (λ y. IsBusy y.0) _ r (rw (h, z, k, finish_prompt) at e)
                  (checkpoint-IsBusy slot1 (env.pos_min slot1) (env.pos_max slot1) b1)
            | inr k ↦ ok_subst (λ y. IsBusy y.0) _ r (rw (h, z, k, finish_prompt) at e) b1
          ]
        ]
      ]

  add_prompt-IsBusy :
      (f f' : Filling) → add_prompt env task f ≡ ok f' → IsBusy f.slot → IsBusy f'.slot
  unfolding add_prompt has_task
  add_prompt-IsBusy f f' e b =
      let c = makes_checkpoints env task in
      let rest = drop (length f.slot.prompt.tokens.tokens) task.tokens.tokens in
      let (r, g, e1) = bind_ok (fill env task c f.alora_scale rest (f.slot, f.batch)) _ f' e in
      let (q, h, e2) = bind_ok (finish_prompt env task c r) _ f' e1 in
      ok_subst (λ y. IsBusy y.slot) _ f' e2
        (finish_prompt-IsBusy c r.0 r.1 q h (fill-IsBusy c f.alora_scale rest f.slot f.batch r g b))

  -- The slot in an outcome.
  abbrev pub LeavesBusy : Continued → Type 0
  LeavesBusy waits = Unit
  LeavesBusy (media_failed slot) = IsBusy slot
  LeavesBusy (continued f) = IsBusy f.slot

  pub continue_prompt-LeavesBusy :
      (f : Filling) (c : Continued)
      → continue_prompt env task f ≡ ok c
      → IsBusy f.slot
      → LeavesBusy c
  unfolding continue_prompt
  continue_prompt-LeavesBusy f c e b =
      elim (Bool-cases (
        not (can_split env task) && ltb env.n_batch (length f.batch + length task.tokens.tokens))) [
          | inl h ↦ ok_subst LeavesBusy waits c (rw (h, continue_prompt) at e) tt
          | inr h ↦
              let ((slot1, decoded), g, e1) =
                bind_ok (process_media env (truncate_memory env f.slot) task) _ c
                  (rw (h, continue_prompt) at e) in
              let b1 =
                process_media-IsBusy (truncate_memory env f.slot) (slot1, decoded) g
                  (truncate-IsBusy f.slot b) in
              elim (Bool-cases (not decoded)) [
                | inl k ↦ ok_subst LeavesBusy (media_failed slot1) c (rw k at e1) b1
                | inr k ↦
                    let (f1, g1, e2) =
                      bind_ok (disable_alora (record f { slot = slot1 })) _ c (rw k at e1) in
                    let (f2, g2, e3) = bind_ok (add_prompt env task f1) _ c e2 in
                    ok_subst LeavesBusy (continued f2) c e3 (
                      add_prompt-IsBusy f1 f2 g2
                        (disable_alora-IsBusy (record f { slot = slot1 }) f1 g1 b1))
              ]
        ]
