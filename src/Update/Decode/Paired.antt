-- ===== src/Update/Decode/Paired.antt =====
-- core/src/server/server-context.cpp, update_slots: what follows a decoded view keeps the slots paired with
-- their tasks.
use llama_go.Base.{
  ℕ, suc, ◌+◌, ◌-◌, ◌≡◌, refl, sym, ap, ◌∙◌, inl, inr, Bool, true, false, not, ◌&&◌, ◌||◌, ltb,
  ◌==◌, Option, none, some, List, [], ◌∷◌, if◌then◌else◌, length, get_elem?, All, ℤ, minus_one,
  Result, ok, ◌>>=◌, bind_ok, ok_subst, arith, Bool-cases, Option-cases,
}
use llama_go.Tokens.{keep_first, insert}
use llama_go.Task.{
  Task, TaskType, completion, infill, embedding, rerank, cancel, next_response, metrics, slot_save,
  slot_restore, slot_erase, get_lora, set_lora, is_parent, need_sampling, embd, rerank_score,
}
use llama_go.Generate.{process_token}
use llama_go.Generate.Life.{life, process_token-life}
use llama_go.Slots.{
  Slot, SlotState, idle, wait_other, started, processing_prompt, generating, done_prompt, is_idle,
  is_processing,
}
use llama_go.Slots.Paired.{has_task, IsPaired, All-get}
use llama_go.Update.{UpdateEnv, BatchToken}
use llama_go.Update.Begin.{with_tokens}
use llama_go.Update.Phases.{is_generating}
use llama_go.Update.Round.{Round, for_slots, release_slot, send_final_response}
use llama_go.Update.Round.Paired.{
  Steady, for_slots_keeps, put_slot-Steady, release_slot-Steady, answer-Steady,
  send_progress-Steady, send_final-Steady, with_task_ok,
}
use llama_go.Update.Decode.{
  Decoder, is_done, is_waiting, has_parent, copy_state_to, activate_children, activate_at,
  is_processing_prompt, progress_at, begin_speculation, stop_or_go, send_piece, take_token,
  sample_at, send_and_release, unless_drafted, start_generating, finish_prompt_at, sample_in,
  sampled_in_view, take_accepted, accept_draft, accepted_at, after_view, in_view,
}

life-IsPaired : (slot slot' : Slot) → life slot' ≡ life slot → IsPaired slot → IsPaired slot'
unfolding life has_task is_processing
life-IsPaired slot slot' e p = rw (ap (λ x. x.0) e, ap (λ x. x.1) e) p

-- A slot with a task, in a state that is not idle.
busy-IsPaired :
    (slot : Slot) (task : Task) → slot.task ≡ some task → is_idle slot.state ≡ false → IsPaired slot
unfolding has_task is_processing
busy-IsPaired slot task e i = rw (e, i) refl

accept_draft-IsPaired :
    (slot slot1 : Slot) (front : List ℤ) (last : ℤ)
    → IsPaired slot
    → accept_draft slot front last ≡ ok slot1
    → IsPaired slot1
unfolding accept_draft with_tokens life
accept_draft-IsPaired slot slot1 front last p e =
    let size = length slot.prompt.tokens.tokens - length slot.drafted in
    let (kept, f, g) = bind_ok (keep_first slot.prompt.tokens size) _ slot1 e in
    let (ts, f1, g1) = bind_ok (insert kept front) _ slot1 g in
    ok_subst IsPaired _ slot1 g1 (life-IsPaired slot _ refl p)

-- A slot that waits has a task.
copy_state_to-IsPaired :
    (slot other : Slot)
    → is_waiting other.state ≡ true
    → IsPaired other
    → IsPaired (copy_state_to slot other)
unfolding copy_state_to has_task is_processing is_idle is_waiting
copy_state_to-IsPaired slot other w p = p ∙ waiting other.state w
  where
    waiting : (s : SlotState) → is_waiting s ≡ true → not (is_idle s) ≡ true
    waiting idle w = cc
    waiting wait_other w = refl
    waiting started w = refl
    waiting processing_prompt w = refl
    waiting done_prompt w = refl
    waiting generating w = refl

activate_children-AllPaired :
    (slot : Slot) (id : ℤ) (slots : List Slot)
    → All IsPaired slots
    → All IsPaired (activate_children slot id slots)
unfolding activate_children
activate_children-AllPaired slot id [] h = tt
activate_children-AllPaired slot id (other ∷ slots) h = (
  elim (Bool-cases (is_waiting other.state && has_parent id other.task)) [
    | inl c ↦ rw c (copy_state_to-IsPaired slot other (ground arith) h.0)
    | inr c ↦ rw c h.0
  ],
  activate_children-AllPaired slot id slots h.1,
)

length-activate_children :
    (slot : Slot) (id : ℤ) (slots : List Slot)
    → length (activate_children slot id slots) ≡ length slots
unfolding activate_children
length-activate_children slot id [] = refl
length-activate_children slot id (other ∷ slots) = ap suc (length-activate_children slot id slots)

activate_at-Steady :
    (b : List BatchToken) (n place : ℕ) (slot : Slot) (r r' : Round)
    → Steady b n r
    → activate_at place slot r ≡ ok r'
    → Steady b n r'
unfolding activate_at
activate_at-Steady b n place slot r r' (h, k, l) e = elim (Bool-cases (not (is_done slot.state))) [
  | inl c ↦ ok_subst (Steady b n) r r' (rw (c, activate_at) at e) (h, k, l)
  | inr c ↦
      let (task, t, f) = with_task_ok slot _ r' (rw (c, activate_at) at e) in
      elim (Bool-cases (is_parent task)) [
        | inl p ↦ ok_subst (Steady b n) _ r' (rw p at f) (
          activate_children-AllPaired slot task.id r.server.slots h,
          k,
          length-activate_children slot task.id r.server.slots ∙ l,
        )
        | inr p ↦ ok_subst (Steady b n) r r' (rw p at f) (h, k, l)
      ]
]

module _ (env : UpdateEnv) (d : Decoder) (b : List BatchToken) (n now place : ℕ) where
  stop_or_go-Steady :
      (task : Task) (slot : Slot) (r r' : Round) (more : Bool)
      → IsPaired slot
      → Steady b n r
      → stop_or_go now place task slot r more ≡ ok r'
      → Steady b n r'
  unfolding stop_or_go
  stop_or_go-Steady task slot r r' true p h e =
      ok_subst (Steady b n) _ r' e (put_slot-Steady b n place slot r p h)
  stop_or_go-Steady task slot r r' false p h e =
      release_slot-Steady b n now place slot (send_final_response slot task r) r' p
        (send_final-Steady b n slot task r h) e

  send_piece-Steady :
      (task : Task) (text : Option (List ℕ)) (r : Round)
      → Steady b n r
      → Steady b n (send_piece task text r)
  unfolding send_piece
  send_piece-Steady task none r h = h
  send_piece-Steady task (some text) r h = answer-Steady b n task.info _ _ r h

  take_token-Steady :
      (task : Task) (slot : Slot) (tok : ℤ) (r : Round)
      → Steady b n r
      → Steady b n (take_token env d now task slot tok r).1
  unfolding take_token
  take_token-Steady task slot tok r h =
      send_piece-Steady task (process_token env.gen task.params slot tok (d.piece slot tok)).1 r h

  take_token-IsPaired :
      (task : Task) (slot : Slot) (tok : ℤ) (r : Round)
      → IsPaired slot
      → IsPaired (take_token env d now task slot tok r).0
  unfolding take_token
  take_token-IsPaired task slot tok r p =
      life-IsPaired slot _ (process_token-life env.gen task.params slot tok (d.piece slot tok)) p

  sample_at-Steady :
      (k : ℕ) (task : Task) (slot : Slot) (r r' : Round)
      → IsPaired slot
      → Steady b n r
      → sample_at env d k now place task slot r ≡ ok r'
      → Steady b n r'
  unfolding sample_at life
  sample_at-Steady k task slot r r' p h e =
      let slot1 = record slot { i_batch = minus_one; n_decoded = slot.n_decoded + 1 } in
      let tok = d.sample k slot in
      stop_or_go-Steady task (take_token env d now task slot1 tok r).0
        (take_token env d now task slot1 tok r).1 r' _
        (take_token-IsPaired task slot1 tok r (life-IsPaired slot slot1 refl p))
        (take_token-Steady task slot1 tok r h) e

  unless_drafted-Steady :
      (k : ℕ) (task : Task) (slot : Slot) (r r' : Round)
      → IsPaired slot
      → Steady b n r
      → unless_drafted env d k now place task slot r ≡ ok r'
      → Steady b n r'
  unfolding unless_drafted
  unless_drafted-Steady k task slot r r' p h e =
      elim (Bool-cases (ltb 0 (length slot.i_batch_dft))) [
        | inl c ↦
            ok_subst (Steady b n) _ r' (rw (c, unless_drafted) at e)
              (put_slot-Steady b n place slot r p h)
        | inr c ↦ sample_at-Steady k task slot r r' p h (rw (c, unless_drafted) at e)
      ]

  send_and_release-Steady :
      (slot : Slot) (r r' : Round)
      → IsPaired slot
      → Steady b n r
      → send_and_release now place slot r ≡ ok r'
      → Steady b n r'
  unfolding send_and_release has_task is_processing
  send_and_release-Steady slot r r' p h e =
      let (r1, f, g) = bind_ok (release_slot now place slot r) _ r' e in
      let h1 = release_slot-Steady b n now place slot r r1 p h f in
      elim (Option-cases (get_elem? r1.server.slots place)) [
        | inl c ↦ ok_subst (Steady b n) r1 r' (rw c at g) h1
        | inr (slot1, c) ↦ ok_subst (Steady b n) _ r' (rw c at g) (
            put_slot-Steady b n place (record slot1 { i_batch = minus_one }) r1
              (All-get IsPaired r1.server.slots place slot1 h1.0 c) h1)
      ]

  start_generating-Steady :
      (k : ℕ) (task : Task) (slot : Slot) (r r' : Round)
      → slot.task ≡ some task
      → Steady b n r
      → start_generating env d k now place task slot r ≡ ok r'
      → Steady b n r'
  unfolding start_generating is_idle
  start_generating-Steady k task slot r r' t h e =
      let slot1 = record slot { state = generating } in
      let p = busy-IsPaired slot1 task t refl in
      elim (Bool-cases (not (need_sampling task.info))) [
        | inl c ↦ absurd (cc (rw (c, start_generating) at e))
        | inr c ↦
            let (x, f, g) = bind_ok (begin_speculation slot) _ r' (rw (c, start_generating) at e) in
            unless_drafted-Steady k task slot1 r r' p h g
      ]

  finish_prompt_at-Steady :
      (k : ℕ) (task : Task) (slot : Slot) (r r' : Round) (type : TaskType)
      → slot.task ≡ some task
      → IsPaired slot
      → Steady b n r
      → finish_prompt_at env d k now place task slot r type ≡ ok r'
      → Steady b n r'
  unfolding finish_prompt_at
  finish_prompt_at-Steady k task slot r r' embedding t p h e =
      send_and_release-Steady slot _ r' p (answer-Steady b n task.info minus_one embd r h) e
  finish_prompt_at-Steady k task slot r r' rerank t p h e =
      send_and_release-Steady slot _ r' p (answer-Steady b n task.info minus_one rerank_score r h) e
  finish_prompt_at-Steady k task slot r r' completion t p h e =
      start_generating-Steady k task slot r r' t h e
  finish_prompt_at-Steady k task slot r r' infill t p h e =
      start_generating-Steady k task slot r r' t h e
  finish_prompt_at-Steady k task slot r r' cancel t p h e =
      start_generating-Steady k task slot r r' t h e
  finish_prompt_at-Steady k task slot r r' next_response t p h e =
      start_generating-Steady k task slot r r' t h e
  finish_prompt_at-Steady k task slot r r' metrics t p h e =
      start_generating-Steady k task slot r r' t h e
  finish_prompt_at-Steady k task slot r r' slot_save t p h e =
      start_generating-Steady k task slot r r' t h e
  finish_prompt_at-Steady k task slot r r' slot_restore t p h e =
      start_generating-Steady k task slot r r' t h e
  finish_prompt_at-Steady k task slot r r' slot_erase t p h e =
      start_generating-Steady k task slot r r' t h e
  finish_prompt_at-Steady k task slot r r' get_lora t p h e =
      start_generating-Steady k task slot r r' t h e
  finish_prompt_at-Steady k task slot r r' set_lora t p h e =
      start_generating-Steady k task slot r r' t h e

  sample_in-Steady :
      (k : ℕ) (slot : Slot) (r r' : Round)
      → IsPaired slot
      → Steady b n r
      → sample_in env d k now place slot r ≡ ok r'
      → Steady b n r'
  unfolding sample_in
  sample_in-Steady k slot r r' p h e = elim (Bool-cases (is_done slot.state)) [
    | inl c ↦
        let (task, t, f) = with_task_ok slot _ r' (rw (c, sample_in) at e) in
        finish_prompt_at-Steady k task slot r r' task.type t p h f
    | inr c ↦ elim (Bool-cases (is_generating slot.state)) [
      | inl g ↦
          let (task, t, f) = with_task_ok slot _ r' (rw (c, g, sample_in) at e) in
          unless_drafted-Steady k task slot r r' p h f
      | inr g ↦ ok_subst (Steady b n) r r' (rw (c, g, sample_in) at e) h
    ]
  ]

  progress_at-Steady :
      (slot : Slot) (r r' : Round) → Steady b n r → progress_at slot r ≡ ok r' → Steady b n r'
  unfolding progress_at
  progress_at-Steady slot r r' h e =
      elim (Bool-cases (is_processing_prompt slot.state || is_done slot.state)) [
        | inl c ↦
            let (task, t, f) = with_task_ok slot _ r' (rw (c, progress_at) at e) in
            ok_subst (Steady b n) _ r' f (send_progress-Steady b n task _ r h)
        | inr c ↦ ok_subst (Steady b n) r r' (rw (c, progress_at) at e) h
      ]

  take_accepted-Steady :
      (task : Task) (slot : Slot) (toks : List ℤ) (r r' : Round)
      → IsPaired slot
      → Steady b n r
      → take_accepted env d now place task slot toks r ≡ ok r'
      → Steady b n r'
  unfolding take_accepted
  take_accepted-Steady task slot [] r r' p h e =
      ok_subst (Steady b n) _ r' e (put_slot-Steady b n place slot r p h)
  take_accepted-Steady task slot (tok ∷ toks) r r' p h e =
      let t = take_token env d now task slot tok r in
      let p1 = take_token-IsPaired task slot tok r p in
      let h1 = take_token-Steady task slot tok r h in
      elim (Bool-cases t.0.has_next_token) [
        | inl c ↦ take_accepted-Steady task t.0 toks t.1 r' p1 h1 (if_true _ _ _ c e)
        | inr c ↦ stop_or_go-Steady task t.0 t.1 r' false p1 h1 (if_false' _ _ _ c e)
      ]
    where
      if_true :
          (c : Bool) (x y : Result Round) → c ≡ true → (if c then x else y) ≡ ok r' → x ≡ ok r'
      if_true c x y k e = sym (ap (λ z. if z then x else y) k) ∙ e

      if_false' :
          (c : Bool) (x y : Result Round) → c ≡ false → (if c then x else y) ≡ ok r' → y ≡ ok r'
      if_false' c x y k e = sym (ap (λ z. if z then x else y) k) ∙ e

  sampled_in_view-Steady :
      (k i n_tokens : ℕ) (slot : Slot) (r r' : Round)
      → IsPaired slot
      → Steady b n r
      → sampled_in_view env d k now i n_tokens place slot r ≡ ok r'
      → Steady b n r'
  unfolding sampled_in_view
  sampled_in_view-Steady k i n_tokens slot r r' p h e =
      let (r1, f, g) = bind_ok (progress_at slot r) _ r' e in
      let h1 = progress_at-Steady slot r r1 h f in
      elim (Bool-cases (in_view slot.i_batch i n_tokens)) [
        | inl c ↦ sample_in-Steady k slot r1 r' p h1 (rw c at g)
        | inr c ↦ ok_subst (Steady b n) r1 r' (rw c at g) h1
      ]

  accepted_at-Steady :
      (k : ℕ) (slot : Slot) (r r' : Round)
      → IsPaired slot
      → Steady b n r
      → accepted_at env d k now place slot r ≡ ok r'
      → Steady b n r'
  unfolding accepted_at accept_draft
  accepted_at-Steady k slot r r' p h e =
      elim (Bool-cases (not (is_generating slot.state) || length slot.i_batch_dft == 0)) [
        | inl c ↦ ok_subst (Steady b n) r r' (rw (c, accepted_at) at e) h
        | inr c ↦
            let (task, t, f) = with_task_ok slot _ r' (rw (c, accepted_at) at e) in
            let (slot1, f1, g) =
              bind_ok (accept_draft slot (d.accept k slot).0 (d.accept k slot).1) _ r' f in
            take_accepted-Steady task slot1 _ r r' (accept_draft-IsPaired slot slot1 _ _ p f1) h g
      ]

pub after_view-Steady :
    (env : UpdateEnv) (d : Decoder) (b : List BatchToken) (n now k i n_tokens : ℕ) (r r' : Round)
    → Steady b n r
    → after_view env d k now i n_tokens r ≡ ok r'
    → Steady b n r'
unfolding after_view
after_view-Steady env d b n now k i n_tokens r r' h e =
    let (r1, f, e1) =
      bind_ok (for_slots activate_at r >>= for_slots (sampled_in_view env d k now i n_tokens)) _ r'
        e in
    let (r2, f1, e2) = bind_ok (for_slots activate_at r) _ r1 f in
    let h1 =
      for_slots_keeps (Steady b n) activate_at
        (λ place slot s s' p g q. activate_at-Steady b n place slot s s' p q) r r2 h f1 in
    let h2 =
      for_slots_keeps (Steady b n) (sampled_in_view env d k now i n_tokens)
        (λ place slot s s' p g q.
          sampled_in_view-Steady env d b n now place k i n_tokens slot s s'
            (All-get IsPaired s.server.slots place slot p.0 g) p q)
        r2 r1 h1 e2 in
    for_slots_keeps (Steady b n) (accepted_at env d k now)
      (λ place slot s s' p g q.
        accepted_at-Steady env d b n now place k slot s s'
          (All-get IsPaired s.server.slots place slot p.0 g) p q)
      r1 r' h2 e1
