-- ===== src/Update/Decode.antt =====
-- core/src/server/server-context.cpp, update_slots: the batch is decoded in views, smaller ones where the memory
-- is full, and after each view tokens are sampled.
pub mod Ends
pub mod Paired
use llama_go.Base.{
  ℕ, zero, suc, ◌+◌, ◌-◌, ◌/◌, min, Bool, true, false, not, ◌&&◌, ◌||◌, Option, none, some, List,
  [], ◌∷◌, ◌++◌, if◌then◌else◌, ltb, leb, ◌==◌, length, get_elem?, take, drop, map, ◌*◌, ℤ, pos,
  negsuc, minus_one, ◌==ℤ◌, Result, ok, err, assert_failed, ◌>>=◌,
}
use llama_go.Tokens.{keep_first, insert, get_text_tokens}
use llama_go.Task.{
  Task, TaskInfo, TaskType, completion, infill, embedding, rerank, server, is_parent, need_sampling,
  embd, rerank_score, cmpl_partial,
}
use llama_go.Generate.{process_token}
use llama_go.Slots.{
  Slot, SlotState, Server, processing_prompt, done_prompt, generating, wait_other, idle,
  is_processing, clear_prompt, prompt_clear,
}
use llama_go.Slots.Select.{try_clear_idle_slots}
use llama_go.Update.{UpdateEnv, BatchToken}
use llama_go.Update.Begin.{with_tokens}
use llama_go.Update.Phases.{is_generating}
use llama_go.Update.Round.{
  Round, for_slots, put_slot, with_task, release_slot, answer, refuse, send_progress,
  send_final_response,
}

-- What is asked of llama.cpp while a batch is decoded. The first argument counts the calls of
-- llama_decode, since an answer depends on what was decoded before.
pub record Decoder : Type 0 where
  -- llama_decode
  pub decode : ℕ → List BatchToken → ℤ
  -- common_sampler_sample
  pub sample : ℕ → Slot → ℤ
  -- common_sampler_sample_and_accept_n: the drafted tokens that are accepted, and the token after them.
  pub accept : ℕ → Slot → List ℤ × ℤ
  -- common_token_to_piece
  pub piece : Slot → ℤ → List ℕ

unfoldable pub is_done : SlotState → Bool
is_done done_prompt = true
is_done _ = false

unfoldable pub is_waiting : SlotState → Bool
is_waiting wait_other = true
is_waiting _ = false

unfoldable pub has_parent : ℤ → Option Task → Bool
has_parent id none = false
has_parent id (some t) = t.id_parent ==ℤ id

-- copy_state_to
unfoldable pub copy_state_to : Slot → Slot → Slot
copy_state_to slot other = record other {
  state = done_prompt;
  n_decoded = slot.n_decoded;
  n_remaining = slot.n_remaining;
  i_batch = slot.i_batch;
  n_prompt_tokens_cache = slot.n_prompt_tokens_cache;
  n_prompt_tokens_processed = slot.n_prompt_tokens_processed;
  prompt = slot.prompt;
}

-- The slots of the child tasks, which wait, take over what the slot of the parent has.
unfoldable pub activate_children : Slot → ℤ → List Slot → List Slot
unfolding copy_state_to is_waiting has_parent
activate_children slot id [] = []
activate_children slot id (other ∷ slots) =
    (if is_waiting other.state && has_parent id other.task then copy_state_to slot other else other)
    ∷ activate_children slot id slots

unfoldable pub activate_at : ℕ → Slot → Round → Result Round
unfolding is_done activate_children
activate_at place slot r =
    if not (is_done slot.state)
    then ok r
    else with_task slot (λ task.
      let s = r.server in
      ok (
        if is_parent task
        then record r { server = record s { slots = activate_children slot task.id s.slots } }
        else r))

unfoldable pub is_processing_prompt : SlotState → Bool
is_processing_prompt processing_prompt = true
is_processing_prompt _ = false

-- The progress of a prompt that is still processed, or was just finished.
unfoldable pub progress_at : Slot → Round → Result Round
unfolding is_processing_prompt is_done
progress_at slot r =
    if is_processing_prompt slot.state || is_done slot.state
    then with_task slot (λ task.
      let params = task.params in
      ok (send_progress task (params.stream && params.return_progress) r))
    else ok r

-- i_batch is in the view that starts at i.
unfoldable pub in_view : ℤ → ℕ → ℕ → Bool
in_view (pos b) i n_tokens = leb i b && ltb b (i + n_tokens)
in_view (negsuc b) i n_tokens = false

-- The slot is left as it is if there is to be a next token, and released with its final response if not.
unfoldable pub stop_or_go : ℕ → ℕ → Task → Slot → Round → Bool → Result Round
stop_or_go now place task slot r true = ok (put_slot place slot r)
stop_or_go now place task slot r false =
    release_slot now place slot (send_final_response slot task r)

unfoldable pub send_piece : Task → Option (List ℕ) → Round → Round
send_piece task none r = r
send_piece task (some text) r = answer task.info minus_one (cmpl_partial text) r

-- A token that was sampled is processed.
unfoldable pub take_token : UpdateEnv → Decoder → ℕ → Task → Slot → ℤ → Round → Slot × Round
unfolding send_piece
take_token env d now task slot tok r =
    let p = process_token env.gen task.params slot tok (d.piece slot tok) in
    (p.0, send_piece task p.1 r)

unfoldable pub sample_at : UpdateEnv → Decoder → ℕ → ℕ → ℕ → Task → Slot → Round → Result Round
unfolding take_token stop_or_go
sample_at env d k now place task slot r =
    let tok = d.sample k slot in
    let t =
      take_token env d now task
        (record slot { i_batch = minus_one; n_decoded = slot.n_decoded + 1 }) tok r in
    stop_or_go now place task t.0 t.1 t.0.has_next_token

-- An embedding or a score is sent, and the slot is released.
unfoldable pub send_and_release : ℕ → ℕ → Slot → Round → Result Round
send_and_release now place slot r = release_slot now place slot r >>= λ r1.
    let s = r1.server in
    elim (get_elem? s.slots place) [
      | none ↦ ok r1
      | some slot1 ↦ ok (put_slot place (record slot1 { i_batch = minus_one }) r1)
    ]

-- A slot with a draft is left to the loop that follows.
unfoldable pub unless_drafted : UpdateEnv → Decoder → ℕ → ℕ → ℕ → Task → Slot → Round → Result Round
unfolding sample_at
unless_drafted env d k now place task slot r =
    if ltb 0 (length slot.i_batch_dft)
    then ok (put_slot place slot r)
    else sample_at env d k now place task slot r

-- common_speculative_begin gets the text tokens of the prompt.
unfoldable pub begin_speculation : Slot → Result (Unit {0})
begin_speculation slot =
    if slot.has_spec then (get_text_tokens slot.prompt.tokens >>= λ tokens. ok tt) else ok tt

unfoldable pub start_generating :
    UpdateEnv → Decoder → ℕ → ℕ → ℕ → Task → Slot → Round → Result Round
unfolding unless_drafted begin_speculation
start_generating env d k now place task slot r =
    if not (need_sampling task.info)
    then err assert_failed
    else (begin_speculation slot >>= λ _.
        unless_drafted env d k now place task (record slot { state = generating }) r)

-- A prompt that was decoded to its end.
unfoldable pub finish_prompt_at :
    UpdateEnv → Decoder → ℕ → ℕ → ℕ → Task → Slot → Round → TaskType → Result Round
unfolding start_generating send_and_release
finish_prompt_at env d k now place task slot r embedding =
    send_and_release now place slot (answer task.info minus_one embd r)
finish_prompt_at env d k now place task slot r rerank =
    send_and_release now place slot (answer task.info minus_one rerank_score r)
finish_prompt_at env d k now place task slot r _ = start_generating env d k now place task slot r

unfoldable pub sample_in : UpdateEnv → Decoder → ℕ → ℕ → ℕ → Slot → Round → Result Round
unfolding finish_prompt_at unless_drafted is_done
sample_in env d k now place slot r =
    if is_done slot.state
    then with_task slot (λ task. finish_prompt_at env d k now place task slot r task.type)
    else (if is_generating slot.state
        then with_task slot (λ task. unless_drafted env d k now place task slot r)
        else ok r)

-- The loop over the slots that samples for those whose last token is in the view.
unfoldable pub sampled_in_view :
    UpdateEnv → Decoder → ℕ → ℕ → ℕ → ℕ → ℕ → Slot → Round → Result Round
unfolding progress_at in_view sample_in
sampled_in_view env d k now i n_tokens place slot r = progress_at slot r >>= λ r1.
    if in_view slot.i_batch i n_tokens then sample_in env d k now place slot r1 else ok r1

-- The tokens that were accepted are processed until the answer is complete.
unfoldable pub take_accepted :
    UpdateEnv → Decoder → ℕ → ℕ → Task → Slot → List ℤ → Round → Result Round
unfolding take_token stop_or_go
take_accepted env d now place task slot [] r = ok (put_slot place slot r)
take_accepted env d now place task slot (tok ∷ toks) r =
    let t = take_token env d now task slot tok r in
    let go = take_accepted env d now place task t.0 toks t.1 in
    if t.0.has_next_token then go else stop_or_go now place task t.0 t.1 false

-- The prompt loses the draft and gets the tokens that were accepted, all but the last.
unfoldable pub accept_draft : Slot → List ℤ → ℤ → Result Slot
accept_draft slot front last =
    let p = slot.prompt in
    let tokens = p.tokens in
    keep_first tokens (length tokens.tokens - length slot.drafted) >>= λ kept.
    insert kept front >>= λ ts. ok (record (with_tokens slot ts) {
      i_batch_dft = [];
      drafted = [];
      n_decoded = slot.n_decoded + (length front + 1);
      n_draft_accepted = slot.n_draft_accepted + length front;
      sampled = last;
    })

unfoldable pub accepted_at : UpdateEnv → Decoder → ℕ → ℕ → ℕ → Slot → Round → Result Round
unfolding accept_draft take_accepted
accepted_at env d k now place slot r =
    if not (is_generating slot.state) || length slot.i_batch_dft == 0
    then ok r
    else with_task slot (λ task.
      let (front, last) = d.accept k slot in
      accept_draft slot front last >>= λ slot1.
      take_accepted env d now place task slot1 (front ++ last ∷ []) r)

-- What follows a view that was decoded.
unfoldable pub after_view : UpdateEnv → Decoder → ℕ → ℕ → ℕ → ℕ → Round → Result Round
unfolding activate_at sampled_in_view accepted_at
after_view env d k now i n_tokens r =
    for_slots activate_at r
    >>= for_slots (sampled_in_view env d k now i n_tokens)
    >>= for_slots (accepted_at env d k now)

-- Whether an answer of llama_decode other than 0 ends the batch.
unfoldable pub is_fatal : ℕ → ℤ → Bool
is_fatal n_batch (pos ret) = n_batch == 1 && ret == 1
is_fatal n_batch (negsuc ret) = true

-- A slot gives up: an error is sent, and its prompt is forgotten.
unfoldable pub fail_at : ℕ → ℕ → Slot → Round → Result Round
fail_at now place slot r =
    if not (is_processing slot)
    then ok r
    else with_task slot (λ task. release_slot now place slot (refuse task.info server r) >>= λ r1.
        let s = r1.server in
        elim (get_elem? s.slots place) [
          | none ↦ ok r1
          | some slot1 ↦ (prompt_clear slot1 false >>= λ slot2. ok (put_slot place slot2 r1))
        ])

-- A slot gives up its cached prompt, or the next view is half as large.
unfoldable pub make_room : UpdateEnv → ℕ → Round → ℕ × Round
make_room env n_batch r =
    let (s, cleared) = try_clear_idle_slots env.env r.server in
    (if cleared then n_batch else n_batch / 2, record r { server = s })

-- A round of the loop over the views ends the loop, or leaves the next view.
pub data Turn : Type 0 where
  finished : Result Round → Turn
  again : (i n_batch : ℕ) → Round → Turn

unfoldable pub decoded : UpdateEnv → ℕ → Result Round → Turn
decoded env i (err e) = finished (err e)
decoded env i (ok r) = again i env.n_batch r

-- What llama_decode answered decides what follows.
unfoldable pub turn_after : UpdateEnv → Decoder → ℕ → ℕ → ℕ → ℕ → ℕ → Round → ℤ → Turn
turn_after env d now k i n_batch n_tokens r ret =
    let room = make_room env n_batch r in
    if ret ==ℤ pos 0
    then decoded env (i + n_tokens) (after_view env d k now i n_tokens r)
    else (if is_fatal n_batch ret
        then finished (for_slots (fail_at now) r)
        else again i room.0 room.1)

unfoldable pub decode_turn : UpdateEnv → Decoder → ℕ → ℕ → ℕ → ℕ → Round → Turn
decode_turn env d now k i n_batch r =
    let n_tokens = min n_batch (length r.batch - i) in
    if not (ltb i (length r.batch))
    then finished (ok r)
    else turn_after env d now k i n_batch n_tokens r (d.decode k (take n_tokens (drop i r.batch)))

-- The loop: k calls of llama_decode were made, i tokens were decoded. The result is none if the fuel is
-- used up.
unfoldable pub decode_from : ℕ → UpdateEnv → Decoder → ℕ → ℕ → ℕ → ℕ → Round → Option (Result Round)
decode_from zero env d now k i n_batch r = none
decode_from (suc fuel) env d now k i n_batch r = elim (decode_turn env d now k i n_batch r) [
  | finished result ↦ some result
  | again j n r1 ↦ decode_from fuel env d now (suc k) j n r1
]

-- How many calls of llama_decode are enough: for each token that is left, half the batch may be tried
-- again and again, and each slot may give up its prompt.
unfoldable pub enough : ℕ → ℕ → ℕ → ℕ → ℕ
enough n_batch n_slots left size = left * (n_batch + n_slots + 1) + size

unfoldable pub decode_batch : UpdateEnv → Decoder → ℕ → Round → Option (Result Round)
unfolding enough decode_from
decode_batch env d now r =
    let s = r.server in
    let n_slots = length s.slots in
    decode_from (suc (enough env.n_batch n_slots (length r.batch) (env.n_batch + n_slots))) env d
      now 0 0 env.n_batch r
