-- ===== src/Examples/Rounds.antt =====
-- The theorems on the rounds of update_slots, used on concrete data. It models no file of the repository.
use llama_go.Base.{
  suc, ◌+◌, ◌-◌, ◌/◌, ◌≤◌, ◌≡◌, refl, true, false, none, some, List, [], ◌∷◌, ◌++◌, length, ◌==◌,
  take, drop, if◌then◌else◌, ℤ, pos, minus_one, ◌==ℤ◌, Result, ok, err, length_error, assert_failed,
  ◌⊎◌, ◌<◌, arith,
}
use llama_go.Generate.{GenEnv}
use llama_go.Task.{Task, next_response, is_child}
use llama_go.Response.{send, contains}
use llama_go.Slots.{Slot, Server, generating, started, processing_prompt, is_processing, is_idle}
use llama_go.Slots.Paired.{AllPaired, has_task}
use llama_go.Update.{UpdateEnv, BatchToken}
use llama_go.Update.Decode.{Decoder, decode_from, enough}
use llama_go.Update.Shift.{drop_window, kept, needs_shift, shift_slot}
use llama_go.Update.Shift.Window.{drop_window_middle, shift_slot-has_room, shift_slot-loses_kept}
use llama_go.Tokens.{pos_next, push_token}
use llama_go.Lora.{lora_all_alora, all_alora_from}
use llama_go.Queue.{Queue, get_new_id, post, clean, push, pop_deferred_task, pop_first}
use llama_go.Generate.{
  process_token, is_positive, validate_utf8, cut_off, bytes_needed, append_token, send_text,
  send_after, send_rest, find_full, check_limits, check_context, check_budget, check_indentation,
  check_time, check_eog, has_budget, partial_response, sub_int, has_line_feed, find_str,
  starts_with, find_partial,
}
use llama_go.Slots.{send_result, release, released, reset}
use llama_go.Update.{batch_add}
use llama_go.Update.Reuse.{reuse_chunks}
use llama_go.Update.Reuse.Agreement.{IsReused, reuse_chunks-IsReused}
use llama_go.Update.Begin.{Begun, begin_prompt, with_tokens}
use llama_go.Update.Begin.Resumed.{IsResumed, IsLost, begin_prompt-IsResumed}
use llama_go.Update.Draft.{add_sampled, add_up_to, get_n_draft_max, add_token}
use llama_go.Update.Draft.Room.{IsAdded, add_sampled-fits}
use llama_go.Update.Prompt.{Filling, Continued, continue_prompt}
use llama_go.Update.Prompt.Filled.{IsText}
use llama_go.Update.Prompt.Added.{IsContinued, continue_prompt-IsContinued}
use llama_go.Update.Round.{
  Round, for_slots, from_place, put_slot, with_task, answer, release_slot, send_final_response,
  final_text,
}
use llama_go.Update.Phases.{
  shift_at, sampled_at, add_prompts, joins, mark_batched, is_generating, enable_alora, build_batch,
}
use llama_go.Update.Decode.{
  again, finished, is_done, is_processing_prompt, decode_batch, decode_turn, turn_after, decoded,
  after_view, activate_at, sampled_in_view, sample_in, unless_drafted, sample_at, stop_or_go,
  take_token, accepted_at, progress_at, in_view, send_piece,
}
use llama_go.Update.Decode.Ends.{decode_from-ends}
use llama_go.Update.Step.{update_slots, post_next_response, all_idle, new_round, decode_result}
use llama_go.Update.Step.Paired.{update_slots-AllPaired}
use llama_go.Examples.{info, task, slot, env, server, queue, prompt, text}

abbrev gen : GenEnv
gen = record {
  is_eog = λ t. t ==ℤ pos 0;
  partial_stop = λ text word. none;
  ctx_shift = true;
  n_predict = minus_one;
  time_over = λ t. false;
}

-- A model whose context can shift, with batches of two tokens.
abbrev model : UpdateEnv
model = record {
  env = env true;
  gen = gen;
  add_bos_token = false;
  cont_batching = true;
  n_batch = 2;
  n_ubatch = 2;
  has_kv = true;
  pools_last = false;
  can_shift = true;
  n_swa = 1;
  n_ctx_checkpoints = 0;
  keeps_checkpoints = false;
  pos_min = λ s. let p = s.prompt in if length p.tokens.tokens == 0 then minus_one else pos 0;
  pos_max = λ s. pos 0;
  restores = λ s c. false;
  checkpoint_size = λ s. 0;
  seq_rm = λ s n. true;
  draft = λ s. [];
  eval_chunk = λ s c. pos 1;
  next_response_task = record {
    info = info minus_one next_response minus_one minus_one minus_one;
    child_tasks = [];
  };
}

-- A llama_decode that refuses views of no tokens.
abbrev decoder : Decoder
decoder = record {
  decode = λ k view. if length view == 0 then minus_one else pos 0;
  sample = λ k s. pos 6;
  accept = λ k s. ([], pos 6);
  piece = λ s t. 65 ∷ [];
}

abbrev five : List ℤ
five = pos 1 ∷ pos 2 ∷ pos 3 ∷ pos 4 ∷ pos 5 ∷ []

drop_window_middle_example : drop_window five 1 2 ≡ ok (pos 1 ∷ pos 4 ∷ pos 5 ∷ [])
drop_window_middle_example = drop_window_middle five 1 2 (omega arith) (omega arith)

-- A slot whose context of five places is full.
abbrev full_slot : Slot
full_slot =
    let s = slot 0 in
    record s {
      n_ctx = 5;
      prompt = prompt five;
      state = generating;
      task = some (task (pos 3) (pos 0));
    }

-- A request to discard four of five tokens, of which the shift is to keep three.
abbrev greedy : Task
greedy =
    let t = task (pos 3) (pos 0) in
    let i = t.info in
    let p = i.params in
    record t { info = record i { params = record p { n_keep = pos 3; n_discard = pos 4 } } }

abbrev wide_slot : Slot
wide_slot = let s = full_slot in record s { n_ctx = 8 }

reaches : 5 < kept model wide_slot greedy + 4
unfolding kept
reaches = omega arith

shift_slot-loses_kept_example :
    ((4 ≤ 5)
      × (s : Slot) × (shift_slot model wide_slot greedy ≡ ok s)
      × (s.prompt.tokens.tokens ≡ pos 1 ∷ [])
      × (length s.prompt.tokens.tokens < kept model wide_slot greedy))
    ⊎ ((5 < 4) × (shift_slot model wide_slot greedy ≡ err length_error))
shift_slot-loses_kept_example =
    shift_slot-loses_kept model wide_slot greedy 3 refl (omega arith) refl reaches

shift_slot-has_room_example :
    (s : Slot) × (shift_slot model full_slot (task (pos 3) (pos 0)) ≡ ok s)
    × (s.prompt.tokens.tokens
        ≡ take (kept model full_slot (task (pos 3) (pos 0))) five
          ++ drop
              ((5 - kept model full_slot (task (pos 3) (pos 0))) / 2)
              (drop (kept model full_slot (task (pos 3) (pos 0))) five))
    × (needs_shift s ≡ false)
shift_slot-has_room_example =
    shift_slot-has_room model full_slot (task (pos 3) (pos 0)) refl (omega arith) (omega arith)
      (omega arith) refl

-- The cache holds 1 2 9 3 4, the prompt is 1 2 3 4 5.
abbrev cached : List ℤ
cached = pos 1 ∷ pos 2 ∷ pos 9 ∷ pos 3 ∷ pos 4 ∷ []

reuse_chunks-IsReused_example : IsReused cached five 2 (reuse_chunks 6 cached five 2 2 2 2)
reuse_chunks-IsReused_example =
    reuse_chunks-IsReused cached five 2 2 (omega arith) (omega arith) (omega arith) refl

-- A task with a prompt of five tokens, and a slot that was started with it.
abbrev five_task : Task
five_task =
    let t = task (pos 3) (pos 0) in
    let i = t.info in record t { info = record i { tokens = text five } }

abbrev started_slot : Slot
started_slot =
    let s = slot 0 in record s { prompt = prompt cached; state = started; task = some five_task }

begin_prompt-IsResumed_example :
    ((b : Begun) × (begin_prompt model started_slot five_task ≡ ok b)
      × IsResumed model (record started_slot { state = processing_prompt }) five_task b)
    ⊎ ((begin_prompt model started_slot five_task ≡ err assert_failed)
        × IsLost model (record started_slot { state = processing_prompt }) five_task)
begin_prompt-IsResumed_example = begin_prompt-IsResumed model started_slot five_task refl refl

-- The slot once its first two tokens are in the cache.
abbrev begun_filling : Filling
begun_filling = record {
  slot = record started_slot { prompt = prompt (pos 1 ∷ pos 2 ∷ []); state = processing_prompt };
  batch = [];
  alora_scale = minus_one;
  alora_disabled_id = 0;
}

five-IsText : IsText five
unfolding ◌==ℤ◌
five-IsText = (refl, (refl, (refl, (refl, (refl, tt)))))

no_adapter : lora_all_alora [] ≡ false
unfolding lora_all_alora all_alora_from
no_adapter = refl

continue_prompt-IsContinued_example :
    (c : Continued) × (continue_prompt model five_task begun_filling ≡ ok c)
    × IsContinued model five_task begun_filling c
continue_prompt-IsContinued_example =
    continue_prompt-IsContinued model five_task begun_filling (pos 3 ∷ pos 4 ∷ pos 5 ∷ []) refl
      (omega arith) five-IsText no_adapter

-- A slot that generates, and what it adds to an empty batch.
abbrev generating_slot : Slot
generating_slot =
    let s = slot 0 in
    record s { prompt = prompt five; state = generating; sampled = pos 6; task = some five_task }

abbrev added_slot : Slot
added_slot = record generating_slot {
  prompt = prompt (pos 1 ∷ pos 2 ∷ pos 3 ∷ pos 4 ∷ pos 5 ∷ pos 6 ∷ []);
  i_batch = pos 0;
}

abbrev one_token : BatchToken
one_token = record { token = pos 6; position = pos_next (text five); seq_id = 0; logits = true }

adding : add_sampled model generating_slot five_task [] ≡ ok (added_slot, one_token ∷ [])
unfolding add_sampled add_up_to get_n_draft_max add_token push_token with_tokens batch_add ◌==ℤ◌
adding = refl

add_sampled-fits_example :
    (draft : List ℤ) × IsAdded generating_slot [] (pos 6 ∷ draft) (added_slot, one_token ∷ [])
    × (7 ≤ 8)
add_sampled-fits_example =
    add_sampled-fits model generating_slot five_task [] (added_slot, one_token ∷ []) (omega arith)
      adding

-- A round with a batch of one token.
abbrev batched : Round
batched = record {
  server = record server { slots = added_slot ∷ slot 1 ∷ [] };
  batch = one_token ∷ [];
  slot_batched = some 0;
  alora_scale = minus_one;
  alora_disabled_id = 0;
  full = false;
}

batched-AllPaired : AllPaired batched.server
unfolding is_processing is_idle has_task
batched-AllPaired = (refl, (refl, tt))

decode_from-ends_example :
    (x : Result Round) × (decode_from (suc (enough 2 2 1 4)) model decoder 7 0 0 2 batched ≡ some x)
decode_from-ends_example =
    decode_from-ends model decoder 7 batched (λ k. (0, refl)) batched-AllPaired

-- The server while slot 0 generates.
abbrev generating_server : Server
generating_server = record server { slots = generating_slot ∷ slot 1 ∷ [] }

generating-AllPaired : AllPaired generating_server
unfolding is_processing is_idle has_task
generating-AllPaired = (refl, (refl, tt))

-- The same without continuous batching.
abbrev apart : UpdateEnv
apart = record model { cont_batching = false }

-- The queue once the main loop is told to go on.
abbrev posted : Queue
posted =
    let t = apart.next_response_task in
    let i = t.info in
    record (queue 10 (record t { info = record i { id = pos 9 } } ∷ []) []) { time_last_task = 7 }

posting : post_next_response apart 7 generating_server.queue_tasks ≡ ok (posted, pos 9)
unfolding post_next_response get_new_id post clean push ◌==ℤ◌
posting = refl

abbrev round0 : Round
round0 = record batched {
  server = record generating_server { queue_tasks = posted };
  batch = [];
  slot_batched = none;
}

abbrev round1 : Round
round1 = record batched {
  server = record server { slots = added_slot ∷ slot 1 ∷ []; queue_tasks = posted };
}

building : build_batch apart 7 round0 ≡ ok round1
unfolding build_batch for_slots from_place shift_at sampled_at add_prompts needs_shift joins
    mark_batched is_generating add_sampled add_up_to get_n_draft_max add_token push_token
    with_tokens batch_add with_task put_slot enable_alora is_positive ◌==ℤ◌
building = refl

-- The slot after a token was sampled for it.
turning : (r : Round) × (decode_turn apart decoder 7 0 0 2 round1 ≡ again 1 2 r)
unfolding decode_turn turn_after decoded after_view for_slots from_place activate_at sampled_in_view
    accepted_at progress_at in_view is_done is_processing_prompt is_generating sample_in
    unless_drafted sample_at take_token send_piece stop_or_go process_token with_task put_slot ◌==ℤ◌
    validate_utf8 cut_off bytes_needed append_token send_text send_after send_rest find_full
    check_limits check_context check_budget check_indentation check_time check_eog has_budget
    partial_response is_positive sub_int has_line_feed find_str starts_with find_partial answer
    send_result release_slot release released reset is_processing is_idle send_final_response
    final_text is_child pop_deferred_task pop_first send contains
turning = (_, refl)

ending : decode_turn apart decoder 7 1 1 2 turning.0 ≡ finished (ok turning.0)
unfolding decode_turn turning
ending = refl

decoding : decode_batch apart decoder 7 round1 ≡ some (ok turning.0)
unfolding decode_batch decode_from enough
decoding = rw (decode_batch, decode_from, turning.1, ending) refl

rounding : update_slots apart decoder 7 generating_server ≡ ok turning.0.server
unfolding update_slots all_idle new_round decode_result is_processing is_idle
rounding = rw (posting, building, decoding) refl

update_slots-AllPaired_example : AllPaired turning.0.server
update_slots-AllPaired_example =
    update_slots-AllPaired apart decoder 7 generating_server turning.0.server generating-AllPaired
      rounding
