-- ===== src/Update/Draft.antt =====
-- core/src/server/server-context.cpp, update_slots: the tokens that were sampled last go to the batch, with
-- a draft of those that may follow.
pub mod Room
use llama_go.Base.{
  ℕ, zero, suc, ◌+◌, ◌-◌, Bool, true, false, not, List, [], ◌∷◌, ◌++◌, ltb, leb, if◌then◌else◌,
  length, take, ℤ, pos, negsuc, Result, ok, err, assert_failed, ◌>>=◌,
}
use llama_go.Tokens.{pos_next, push_token, get_text_tokens}
use llama_go.Task.{Task}
use llama_go.Generate.{sub_int, is_positive}
use llama_go.Slots.{Slot}
use llama_go.Slots.Select.{le_time}
use llama_go.Update.{UpdateEnv, BatchToken, batch_add}
use llama_go.Update.Begin.{with_tokens}

unfoldable pub min_int : ℤ → ℤ → ℤ
min_int a b = if le_time a b then a else b

-- The cuts of get_n_draft_max: by what remains to be generated, and to none below the least draft.
unfoldable pub cut_remaining : ℤ → ℤ → ℤ
unfolding min_int
cut_remaining n_remaining n =
    if is_positive n_remaining then min_int n (sub_int n_remaining 1) else n

unfoldable pub cut_small : ℤ → ℤ → ℤ
cut_small n_min n = if le_time n_min n then n else pos 0

unfoldable pub get_n_draft_max : Slot → Task → ℤ
unfolding min_int cut_remaining cut_small
get_n_draft_max slot task =
    let params = task.params in
    let p = slot.prompt in
    let room = min_int params.spec_n_max (sub_int (pos slot.n_ctx) (length p.tokens.tokens + 2)) in
    if not slot.has_spec
    then pos 0
    else cut_small params.spec_n_min (cut_remaining slot.n_remaining room)

-- A token goes to the batch and to the prompt of the slot.
unfoldable pub add_token : Slot → List BatchToken → ℤ → Bool → Result (Slot × List BatchToken)
add_token slot batch tok logits = push_token slot.prompt.tokens tok >>= λ ts.
    ok (with_tokens slot ts, batch_add batch tok (pos_next slot.prompt.tokens) slot.id logits)

-- The loop over the drafted tokens.
unfoldable pub add_drafted : Slot → List BatchToken → List ℤ → Result (Slot × List BatchToken)
unfolding add_token
add_drafted slot batch [] = ok (slot, batch)
add_drafted slot batch (d ∷ draft) =
    add_token (record slot { i_batch_dft = slot.i_batch_dft ++ length batch ∷ [] }) batch d true
    >>= λ (slot1, batch1). add_drafted slot1 batch1 draft

-- i_batch_dft[0]
first_of : List ℕ → ℤ
first_of [] = pos 0
first_of (i ∷ is) = pos i

-- A draft that is smaller than is asked for is ignored.
unfoldable pub use_draft : Task → List ℤ → Slot × List BatchToken → Result (Slot × List BatchToken)
unfolding first_of add_drafted
use_draft task draft (slot, batch) =
    let params = task.params in
    if not (le_time params.spec_n_min (pos (length draft)))
    then ok
        (record slot { i_batch = first_of slot.i_batch_dft; drafted = []; i_batch_dft = [] }, batch)
    else (add_drafted (record slot { n_draft_total = slot.n_draft_total + length draft }) batch
          draft
        >>= λ (slot1, batch1). ok (record slot1 { drafted = draft }, batch1))

unfoldable pub add_with_draft :
    UpdateEnv → ℕ → Slot → Task → List BatchToken → Result (Slot × List BatchToken)
unfolding use_draft add_token
add_with_draft env n_draft_max slot task batch =
    let e = env.env in
    if e.has_mctx
    then err assert_failed
    else (get_text_tokens slot.prompt.tokens >>= λ cached.
        add_token (record slot { i_batch_dft = slot.i_batch_dft ++ length batch ∷ [] }) batch
          slot.sampled true
        >>= use_draft task (take n_draft_max (env.draft slot)))

-- The sampled token, with a draft where there is room for one.
unfoldable pub add_up_to :
    UpdateEnv → ℤ → Slot → Task → List BatchToken → Result (Slot × List BatchToken)
unfolding add_with_draft
add_up_to env (pos (suc k)) slot task batch = add_with_draft env (suc k) slot task batch
add_up_to env _ slot task batch =
    add_token (record slot { i_batch = pos (length batch) }) batch slot.sampled true

-- What a slot that generates adds to the batch.
unfoldable pub add_sampled :
    UpdateEnv → Slot → Task → List BatchToken → Result (Slot × List BatchToken)
unfolding add_up_to get_n_draft_max
add_sampled env slot task batch = add_up_to env (get_n_draft_max slot task) slot task batch
