-- ===== src/Update/Phases/Paired.antt =====
-- core/src/server/server-context.cpp, update_slots: while the batch is filled, a slot is busy exactly while it has
-- a task.
use llama_go.Base.{
  ℕ, ◌≡◌, refl, sym, ◌∙◌, inl, inr, Bool, true, false, not, ◌||◌, ◌==◌, some, length, get_elem?, ok,
  ◌>>=◌, bind_ok, ok_subst, Bool-cases, Option-cases, if_false, if_true,
}
use llama_go.Task.{Task, ErrorType, server}
use llama_go.Generate.{is_positive}
use llama_go.Slots.{
  Slot, SlotState, idle, wait_other, started, processing_prompt, done_prompt, generating, is_idle,
  is_processing,
}
use llama_go.Slots.Paired.{has_task, IsPaired, AllPaired, All-get}
use llama_go.Update.{UpdateEnv, BatchToken}
use llama_go.Update.Shift.{Shifted, refused, shifted, needs_shift, context_shift}
use llama_go.Update.Begin.{Begun, emptied, begun, begin_prompt}
use llama_go.Update.Draft.{add_sampled}
use llama_go.Update.Prompt.{Continued, waits, media_failed, continued, continue_prompt}
use llama_go.Update.Round.{
  Round, for_slots, put_slot, release_slot, refuse, send_progress, send_final_response,
}
use llama_go.Update.Round.Paired.{
  for_slots_keeps, put_slot-Steady, release_slot-Steady, refuse-Steady, send_progress-Steady,
  send_final-Steady, with_task_ok,
}
use llama_go.Update.Phases.{
  settle_shift, shift_at, joins, mark_batched, is_generating, sampled_at, Going, leave, pass, go_on,
  settle_begun, going_on, starting, begin_in, close, settle_continued, filling, go, prompt_at,
  add_prompts, enable_at, enable_alora, build_batch,
}
use llama_go.Update.Phases.Busy.{
  IsBusy, busy-IsPaired, context_shift-IsBusy, begin_prompt-IsBusy, add_sampled-IsBusy, LeavesBusy,
  continue_prompt-LeavesBusy,
}

abbrev pub IsSound : Round → Type 0
IsSound r = AllPaired r.server

put_slot-IsSound :
    (place : ℕ) (slot : Slot) (r : Round)
    → IsPaired slot
    → IsSound r
    → IsSound (put_slot place slot r)
put_slot-IsSound place slot r p h =
    (put_slot-Steady r.batch (length r.server.slots) place slot r p (h, refl, refl)).0

release_slot-IsSound :
    (now place : ℕ) (slot : Slot) (r r' : Round)
    → IsPaired slot
    → IsSound r
    → release_slot now place slot r ≡ ok r'
    → IsSound r'
release_slot-IsSound now place slot r r' p h e =
    (release_slot-Steady r.batch (length r.server.slots) now place slot r r' p (h, refl, refl) e).0

refuse-IsSound :
    (task : Task) (e : ErrorType) (r : Round) → IsSound r → IsSound (refuse task.info e r)
refuse-IsSound task e r h =
    (refuse-Steady r.batch (length r.server.slots) task.info e r (h, refl, refl)).0

task_of : (slot : Slot) (task : Task) → slot.task ≡ some task → has_task slot ≡ true
unfolding has_task
task_of slot task t = rw t refl

tasked-IsBusy : (slot : Slot) (task : Task) → IsPaired slot → slot.task ≡ some task → IsBusy slot
unfolding is_processing
tasked-IsBusy slot task p t =
    let has = task_of slot task t in (has, not_not (is_idle slot.state) (sym p ∙ has))
  where
    not_not : (b : Bool) → not b ≡ true → b ≡ false
    not_not true e = sym e
    not_not false e = refl

mark-IsSound : (place : ℕ) (r : Round) → IsSound r → IsSound (mark_batched place r)
unfolding mark_batched
mark-IsSound place r h = elim (Option-cases r.slot_batched) [
  | inl n ↦ rw (n, mark_batched) h
  | inr (x, n) ↦ rw (n, mark_batched) h
]

module _ (env : UpdateEnv) (now place : ℕ) where
  shift_at-IsSound :
      (slot : Slot) (r r' : Round)
      → IsPaired slot
      → IsSound r
      → shift_at env now place slot r ≡ ok r'
      → IsSound r'
  unfolding shift_at settle_shift
  shift_at-IsSound slot r r' p h e = elim (Bool-cases (needs_shift slot)) [
    | inr c ↦ ok_subst IsSound r r' (sym (if_false _ _ _ c) ∙ e) h
    | inl c ↦
        let (task, t, f) = with_task_ok slot _ r' (sym (if_true _ _ _ c) ∙ e) in
        let (o, g, e1) = bind_ok (context_shift env slot task) _ r' f in
        settle task o (tasked-IsBusy slot task p t) g e1
  ]
    where
      settle :
          (task : Task) (o : Shifted)
          → IsBusy slot
          → context_shift env slot task ≡ ok o
          → settle_shift now place slot task r o ≡ ok r'
          → IsSound r'
      settle task (refused w) b g e =
          release_slot-IsSound now place slot (refuse task.info w r) r' p
            (refuse-IsSound task w r h) e
      settle task (shifted slot1) b g e = ok_subst IsSound (put_slot place slot1 r) r' e (
          put_slot-IsSound place slot1 r
            (busy-IsPaired slot1 (context_shift-IsBusy env task slot slot1 g b)) h)

  sampled_at-IsSound :
      (slot : Slot) (r r' : Round)
      → IsPaired slot
      → IsSound r
      → sampled_at env place slot r ≡ ok r'
      → IsSound r'
  unfolding sampled_at
  sampled_at-IsSound slot r r' p h e = elim (Bool-cases (not (is_generating slot.state))) [
    | inl c ↦ ok_subst IsSound r r' (sym (if_true _ _ _ c) ∙ e) h
    | inr c ↦
        let (joined, f, e1) = bind_ok (joins r slot) _ r' (sym (if_false _ _ _ c) ∙ e) in
        elim (Bool-cases (not joined)) [
          | inl j ↦ ok_subst IsSound r r' (sym (if_true _ _ _ j) ∙ e1) h
          | inr j ↦
              let (task, t, e2) = with_task_ok slot _ r' (sym (if_false _ _ _ j) ∙ e1) in
              let (x, g, e3) = bind_ok (add_sampled env slot task r.batch) _ r' e2 in
              let b = add_sampled-IsBusy env task slot r.batch x g (tasked-IsBusy slot task p t) in
              ok_subst IsSound _ r' e3 (
                put_slot-IsSound place x.0 (mark_batched place r) (busy-IsPaired x.0 b)
                  (mark-IsSound place r h))
        ]
  ]

  close-IsSound : (r : Round) → IsSound r → IsSound (close env place r)
  unfolding close
  close-IsSound r h = mark-IsSound place r h

  settle_continued-IsSound :
      (task : Task) (r r' : Round) (c : Continued)
      → LeavesBusy env task c
      → IsSound r
      → settle_continued env now place task r c ≡ ok r'
      → IsSound r'
  unfolding settle_continued close put_slot
  settle_continued-IsSound task r r' waits b h e = ok_subst IsSound r r' e h
  settle_continued-IsSound task r r' (media_failed slot1) b h e =
      release_slot-IsSound now place slot1 (refuse task.info server r) r' (busy-IsPaired slot1 b)
        (refuse-IsSound task server r h) e
  settle_continued-IsSound task r r' (continued f) b h e =
      ok_subst IsSound _ r' e
        (mark-IsSound place _ (put_slot-IsSound place f.slot r (busy-IsPaired f.slot b) h))

  -- What is sound of a slot that goes on.
  abbrev IsGoing : Going → Type 0
  IsGoing (leave r) = IsSound r
  IsGoing (pass r) = IsSound r
  IsGoing (go_on slot task r) = IsSound r × IsBusy slot

  go-IsSound : (g : Going) (r' : Round) → IsGoing g → go env now place g ≡ ok r' → IsSound r'
  unfolding go filling
  go-IsSound (leave r) r' h e = ok_subst IsSound r r' e h
  go-IsSound (pass r) r' h e = ok_subst IsSound _ r' e (close-IsSound r h)
  go-IsSound (go_on slot task r) r' h e =
      let (c, f, e1) = bind_ok (continue_prompt env task (filling slot r)) _ r' e in
      settle_continued-IsSound task r r' c
        (continue_prompt-LeavesBusy env task (filling slot r) c f h.1) h.0 e1

  settle_begun-IsGoing :
      (slot : Slot) (task : Task) (r : Round) (o : Begun) (g : Going)
      → begin_prompt env slot task ≡ ok o
      → slot.task ≡ some task
      → IsSound r
      → settle_begun now place slot task r o ≡ ok g
      → IsGoing g
  unfolding settle_begun has_task is_idle
  settle_begun-IsGoing slot task r emptied g b t h e =
      let slot1 = record slot { state = processing_prompt } in
      let (r1, f, e1) =
        bind_ok (release_slot now place slot1 (send_final_response slot task r)) _ g e in
      ok_subst IsGoing (leave r1) g e1 (
        release_slot-IsSound now place slot1 (send_final_response slot task r) r1
          (busy-IsPaired slot1 (task_of slot task t, refl))
          (send_final-Steady r.batch (length r.server.slots) slot task r (h, refl, refl)).0 f)
  settle_begun-IsGoing slot task r (llama_go.Update.Begin.refused w) g b t h e =
      let slot1 = record slot { state = processing_prompt } in
      let (r1, f, e1) = bind_ok (release_slot now place slot1 (refuse task.info w r)) _ g e in
      ok_subst IsGoing (leave r1) g e1 (
        release_slot-IsSound now place slot1 (refuse task.info w r) r1
          (busy-IsPaired slot1 (task_of slot task t, refl)) (refuse-IsSound task w r h) f)
  settle_begun-IsGoing slot task r (begun slot1 told) g b t h e =
      let busy = begin_prompt-IsBusy env task slot slot1 told b (task_of slot task t) in
      let told_on =
        (send_progress-Steady r.batch (length r.server.slots) task told r (h, refl, refl)).0 in
      ok_subst IsGoing _ g e (
        put_slot-IsSound place slot1 (send_progress task told r) (busy-IsPaired slot1 busy) told_on,
        busy,
      )

  starting-IsGoing :
      (slot : Slot) (r : Round) (g : Going)
      → IsSound r
      → starting env now place slot r ≡ ok g
      → IsGoing g
  unfolding starting
  starting-IsGoing slot r g h e = elim (Option-cases slot.task) [
    | inl n ↦ absurd (cc (rw (n, starting) at e))
    | inr (task, n) ↦
        let (o, f, e1) = bind_ok (begin_prompt env slot task) _ g (rw (n, starting) at e) in
        settle_begun-IsGoing slot task r o g f n h e1
  ]

  going_on-IsGoing :
      (slot : Slot) (r : Round) (g : Going)
      → IsPaired slot
      → IsSound r
      → going_on slot r ≡ ok g
      → IsGoing g
  unfolding going_on
  going_on-IsGoing slot r g p h e = elim (Option-cases slot.task) [
    | inl n ↦ absurd (cc (rw (n, going_on) at e))
    | inr (task, n) ↦
        ok_subst IsGoing (go_on slot task r) g (rw (n, going_on) at e)
          (h, tasked-IsBusy slot task p n)
  ]

  begin_in-IsGoing :
      (slot : Slot) (r : Round) (state : SlotState) (g : Going)
      → IsPaired slot
      → IsSound r
      → begin_in env now place slot r state ≡ ok g
      → IsGoing g
  unfolding begin_in
  begin_in-IsGoing slot r idle g p h e = ok_subst IsGoing (pass r) g e h
  begin_in-IsGoing slot r wait_other g p h e = ok_subst IsGoing (leave r) g e h
  begin_in-IsGoing slot r started g p h e = starting-IsGoing slot r g h e
  begin_in-IsGoing slot r processing_prompt g p h e = going_on-IsGoing slot r g p h e
  begin_in-IsGoing slot r done_prompt g p h e = ok_subst IsGoing (pass r) g e h
  begin_in-IsGoing slot r generating g p h e = ok_subst IsGoing (pass r) g e h

  prompt_at-IsSound :
      (slot : Slot) (r r' : Round)
      → IsPaired slot
      → IsSound r
      → prompt_at env now place slot r ≡ ok r'
      → IsSound r'
  unfolding prompt_at
  prompt_at-IsSound slot r r' p h e = elim (Bool-cases (r.full || not (is_processing slot))) [
    | inl c ↦ ok_subst IsSound r r' (sym (if_true _ _ _ c) ∙ e) h
    | inr c ↦
        let (joined, f, e1) = bind_ok (joins r slot) _ r' (sym (if_false _ _ _ c) ∙ e) in
        elim (Bool-cases (not joined)) [
          | inl j ↦ ok_subst IsSound r r' (sym (if_true _ _ _ j) ∙ e1) h
          | inr j ↦
              let (g, f1, e2) =
                bind_ok (begin_in env now place slot r slot.state) _ r'
                  (sym (if_false _ _ _ j) ∙ e1) in
              go-IsSound g r' (begin_in-IsGoing slot r slot.state g p h f1) e2
        ]
  ]

enable_at-IsSound : (r : Round) (place : ℕ) → IsSound r → IsSound (enable_at r place)
unfolding enable_at has_task is_processing
enable_at-IsSound r place h = elim (Option-cases (get_elem? r.server.slots place)) [
  | inl g ↦ rw (g, enable_at) h
  | inr (slot, g) ↦
      rw (g, enable_at)
        (put_slot-IsSound place _ r (All-get IsPaired r.server.slots place slot h g) h)
]

enable_alora-IsSound : (r : Round) → IsSound r → IsSound (enable_alora r)
unfolding enable_alora
enable_alora-IsSound r h = elim (Option-cases r.slot_batched) [
  | inl n ↦ rw (n, enable_alora) h
  | inr (place, n) ↦ elim (Bool-cases (is_positive r.alora_scale)) [
    | inr c ↦ rw (n, c, enable_alora) h
    | inl c ↦ rw (n, c, enable_alora) (enable_at-IsSound r place h)
  ]
]

-- While the batch is filled, a slot stays busy exactly while it has a task.
pub build_batch-IsSound :
    (env : UpdateEnv) (now : ℕ) (r r' : Round)
    → IsSound r
    → build_batch env now r ≡ ok r'
    → IsSound r'
unfolding build_batch add_prompts
build_batch-IsSound env now r r' h e =
    let (r3, f3, e3) =
      bind_ok
        (for_slots (shift_at env now) r >>= for_slots (sampled_at env) >>= add_prompts env now) _ r'
        e in
    let (r2, f2, e2) =
      bind_ok (for_slots (shift_at env now) r >>= for_slots (sampled_at env)) _ r3 f3 in
    let (r1, f1, e1) = bind_ok (for_slots (shift_at env now) r) _ r2 f2 in
    let h1 =
      for_slots_keeps IsSound (shift_at env now)
        (λ place slot s s' q g k.
          shift_at-IsSound env now place slot s s' (All-get IsPaired s.server.slots place slot q g)
            q k)
        r r1 h f1 in
    let h2 =
      for_slots_keeps IsSound (sampled_at env)
        (λ place slot s s' q g k.
          sampled_at-IsSound env now place slot s s'
            (All-get IsPaired s.server.slots place slot q g) q k)
        r1 r2 h1 e1 in
    ok_subst IsSound (enable_alora r3) r' e3 (enable_alora-IsSound r3 (prompts r2 r3 h2 e2))
  where
    prompts : (s t : Round) → IsSound s → add_prompts env now s ≡ ok t → IsSound t
    prompts s t q k = elim (Bool-cases (env.cont_batching || length s.batch == 0)) [
      | inl c ↦
          for_slots_keeps IsSound (prompt_at env now)
            (λ place slot u u' p g l.
              prompt_at-IsSound env now place slot u u'
                (All-get IsPaired u.server.slots place slot p g) p l)
            s t q (sym (if_true _ _ _ c) ∙ k)
      | inr c ↦ ok_subst IsSound s t (sym (if_false _ _ _ c) ∙ k) q
    ]
