-- ===== src/Update/Step/Paired.antt =====
-- core/src/server/server-context.cpp, update_slots: after a round a slot is busy exactly while it has a task.
use llama_go.Base.{
  ℕ, zero, suc, ◌≡◌, refl, sym, ◌∙◌, inl, inr, false, not, ltb, ◌+◌, Option, none, some, List,
  length, get_elem?, ℤ, pos, ◌==ℤ◌, Result, ok, err, bind_ok, ok_subst, Bool-cases, Option-cases,
  if_true, if_false,
}
use llama_go.Task.{server}
use llama_go.Slots.{Slot, Server, is_processing, prompt_clear}
use llama_go.Slots.Paired.{IsPaired, AllPaired, All-get}
use llama_go.Slots.Preserved.{prompt_clear-IsPaired}
use llama_go.Update.{UpdateEnv, BatchToken}
use llama_go.Update.Round.{Round, for_slots, release_slot, refuse}
use llama_go.Update.Round.Paired.{
  Steady, for_slots_keeps, put_slot-Steady, release_slot-Steady, refuse-Steady, with_task_ok,
}
use llama_go.Update.Phases.{build_batch}
use llama_go.Update.Phases.Paired.{build_batch-IsSound}
use llama_go.Update.Decode.{
  Decoder, Turn, finished, again, decoded, turn_after, decode_turn, decode_from, decode_batch,
  is_fatal, fail_at, enough,
}
use llama_go.Update.Decode.Paired.{after_view-Steady}
use llama_go.Update.Decode.Ends.{make_room-Steady}
use llama_go.Update.Step.{post_next_response, all_idle, new_round, decode_result, update_slots}

module _ (b : List BatchToken) (n now : ℕ) where
  fail_at-Steady :
      (place : ℕ) (slot : Slot) (r r' : Round)
      → IsPaired slot
      → Steady b n r
      → fail_at now place slot r ≡ ok r'
      → Steady b n r'
  unfolding fail_at
  fail_at-Steady place slot r r' p h e = elim (Bool-cases (not (is_processing slot))) [
    | inl c ↦ ok_subst (Steady b n) r r' (sym (if_true _ _ _ c) ∙ e) h
    | inr c ↦
        let (task, t, e1) = with_task_ok slot _ r' (sym (if_false _ _ _ c) ∙ e) in
        let r0 = refuse task.info server r in
        let (r1, f, e2) = bind_ok (release_slot now place slot r0) _ r' e1 in
        let h1 =
          release_slot-Steady b n now place slot r0 r1 p (refuse-Steady b n task.info server r h)
            f in
        elim (Option-cases (get_elem? r1.server.slots place)) [
          | inl g ↦ ok_subst (Steady b n) r1 r' (rw g at e2) h1
          | inr (slot1, g) ↦
              let (slot2, f2, e3) = bind_ok (prompt_clear slot1 false) _ r' (rw g at e2) in
              let p1 = All-get IsPaired r1.server.slots place slot1 h1.0 g in
              ok_subst (Steady b n) _ r' e3 (
                put_slot-Steady b n place slot2 r1 (prompt_clear-IsPaired slot1 slot2 false p1 f2)
                  h1)
        ]
  ]

  fail_all-Steady :
      (r r' : Round) → Steady b n r → for_slots (fail_at now) r ≡ ok r' → Steady b n r'
  fail_all-Steady r r' h e =
      for_slots_keeps (Steady b n) (fail_at now)
        (λ place slot s s' q g k.
          fail_at-Steady place slot s s' (All-get IsPaired s.server.slots place slot q.0 g) q k)
        r r' h e

  -- What a turn leaves is sound.
  abbrev TurnSteady : Turn → Type 0
  TurnSteady (finished result) = (r : Round) → result ≡ ok r → Steady b n r
  TurnSteady (again i n_batch r) = Steady b n r

  module _ (env : UpdateEnv) (d : Decoder) where
    decoded-TurnSteady :
        (i : ℕ) (result : Result Round)
        → ((r : Round) → result ≡ ok r → Steady b n r)
        → TurnSteady (decoded env i result)
    unfolding decoded
    decoded-TurnSteady i (err e) h = h
    decoded-TurnSteady i (ok r) h = h r refl

    turn_after-TurnSteady :
        (k i n_batch n_tokens : ℕ) (r : Round) (ret : ℤ)
        → Steady b n r
        → TurnSteady (turn_after env d now k i n_batch n_tokens r ret)
    unfolding turn_after
    turn_after-TurnSteady k i n_batch n_tokens r ret h = elim (Bool-cases (ret ==ℤ pos 0)) [
      | inl c ↦
          rw c
            (decoded-TurnSteady _ _ (λ r' e. after_view-Steady env d b n now k i n_tokens r r' h e))
      | inr c ↦ elim (Bool-cases (is_fatal n_batch ret)) [
        | inl f ↦ rw (c, f) (λ r' e. fail_all-Steady r r' h e)
        | inr f ↦ rw (c, f) (make_room-Steady env b n n_batch r h)
      ]
    ]

    decode_turn-TurnSteady :
        (k i n_batch : ℕ) (r : Round)
        → Steady b n r
        → TurnSteady (decode_turn env d now k i n_batch r)
    unfolding decode_turn
    decode_turn-TurnSteady k i n_batch r h = elim (Bool-cases (not (ltb i (length r.batch)))) [
      | inl c ↦ rw c (λ r' e. ok_subst (Steady b n) r r' e h)
      | inr c ↦ rw c (turn_after-TurnSteady k i n_batch _ r _ h)
    ]

    decode_from-Steady :
        (fuel k i n_batch : ℕ) (r r' : Round)
        → Steady b n r
        → decode_from fuel env d now k i n_batch r ≡ some (ok r')
        → Steady b n r'
    unfolding decode_from
    decode_from-Steady zero k i n_batch r r' h e = cc
    decode_from-Steady (suc fuel) k i n_batch r r' h e =
        follow (decode_turn env d now k i n_batch r) (decode_turn-TurnSteady k i n_batch r h)
          (λ j m s q f. decode_from-Steady fuel (suc k) j m s r' q f) e
      where
        follow :
            (t : Turn)
            → TurnSteady t
            → ((j m : ℕ) (s : Round)
                → Steady b n s
                → decode_from fuel env d now (suc k) j m s ≡ some (ok r')
                → Steady b n r')
            → elim t [
              | finished result ↦ some result
              | again j m s ↦ decode_from fuel env d now (suc k) j m s
            ]
              ≡ some (ok r')
            → Steady b n r'
        follow (finished result) q ih e = q r' (cc e)
        follow (again j m s) q ih e = ih j m s q e

-- A whole round of update_slots keeps the slots paired with their tasks: whatever the model answers, a slot
-- is busy exactly while it has a task.
pub update_slots-AllPaired :
    (env : UpdateEnv) (d : Decoder) (now : ℕ) (s s' : Server)
    → AllPaired s
    → update_slots env d now s ≡ ok s'
    → AllPaired s'
unfolding update_slots new_round decode_result decode_batch
update_slots-AllPaired env d now s s' h e = elim (Bool-cases (all_idle s.slots)) [
  | inl c ↦ ok_subst AllPaired s s' (sym (if_true _ _ _ c) ∙ e) h
  | inr c ↦
      let ((q, id), f, e1) =
        bind_ok (post_next_response env now s.queue_tasks) _ s' (sym (if_false _ _ _ c) ∙ e) in
      let r0 = new_round (record s { queue_tasks = q }) in
      let (r, g, e2) = bind_ok (build_batch env now r0) _ s' e1 in
      let h1 = build_batch-IsSound env now r0 r h g in ended r h1 (decode_batch env d now r) refl e2
]
  where
    ended :
        (r : Round)
        → AllPaired r.server
        → (o : Option (Result Round)) → decode_batch env d now r ≡ o
        → decode_result o ≡ ok s'
        → AllPaired s'
    ended r h none e k = absurd (cc k)
    ended r h (some (err x)) e k = absurd (cc k)
    ended r h (some (ok r')) e k =
        ok_subst AllPaired r'.server s' k
          (decode_from-Steady r.batch (length r.server.slots) now env d
            (suc (
              enough env.n_batch (length r.server.slots) (length r.batch)
                (env.n_batch + length r.server.slots)))
            0 0 env.n_batch r r' (h, refl, refl) e).0
