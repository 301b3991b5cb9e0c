-- ===== src/Update/Draft/Room.antt =====
-- core/src/server/server-context.cpp, update_slots and get_n_draft_max: what a slot that generates adds to the
-- batch, and that a draft leaves room in the context.
use llama_go.Base.{
  ℕ, zero, suc, ◌+◌, ◌≤◌, ◌<◌, ◌≡◌, refl, sym, ap, ◌∙◌, inl, inr, Bool, true, not, List, [], ◌∷◌,
  ◌++◌, append_assoc, append-nil, length, length-append, take, ℤ, pos, negsuc, ok, bind_ok,
  ok_subst, arith, Bool-cases, ◌==ℤ◌,
}
use llama_go.Tokens.{null_token, push_token, get_text_tokens}
use llama_go.Task.{Task}
use llama_go.Generate.{sub_int, is_positive}
use llama_go.Generate.Life.{life}
use llama_go.Slots.{Slot}
use llama_go.Slots.Select.{le_time}
use llama_go.Update.{UpdateEnv, BatchToken, batch_add}
use llama_go.Update.Begin.{with_tokens}
use llama_go.Update.Draft.{
  min_int, get_n_draft_max, cut_remaining, cut_small, add_token, add_drafted, use_draft,
  add_with_draft, add_up_to, add_sampled,
}

-- The tokens of a batch.
pub tokens_of : List BatchToken → List ℤ
tokens_of [] = []
tokens_of (b ∷ bs) = b.token ∷ tokens_of bs

tokens_of-append : (xs ys : List BatchToken) → tokens_of (xs ++ ys) ≡ tokens_of xs ++ tokens_of ys
unfolding tokens_of
tokens_of-append [] ys = refl
tokens_of-append (x ∷ xs) ys = ap (◌∷◌ x.token) (tokens_of-append xs ys)

le_time_refl : (a : ℤ) → le_time a a ≡ true
unfolding le_time
le_time_refl (pos a) = ground arith
le_time_refl (negsuc a) = ground arith

le_min_left : (n : ℕ) (a b : ℤ) → le_time (pos n) (min_int a b) ≡ true → le_time (pos n) a ≡ true
unfolding min_int le_time
le_min_left n (pos a) (pos b) e = ground arith
le_min_left n (pos a) (negsuc b) e = ground arith
le_min_left n (negsuc a) (pos b) e = ground arith
le_min_left n (negsuc a) (negsuc b) e = ground arith

le_min_right : (n : ℕ) (a b : ℤ) → le_time (pos n) (min_int a b) ≡ true → le_time (pos n) b ≡ true
unfolding min_int le_time
le_min_right n (pos a) (pos b) e = ground arith
le_min_right n (pos a) (negsuc b) e = ground arith
le_min_right n (negsuc a) (pos b) e = ground arith
le_min_right n (negsuc a) (negsuc b) e = ground arith

le_room : (n c m : ℕ) → le_time (pos n) (sub_int (pos c) m) ≡ true → n + m ≤ c
unfolding le_time sub_int
le_room n c m h = ground arith

cut_remaining_le :
    (n_remaining room : ℤ) (k : ℕ)
    → cut_remaining n_remaining room ≡ pos k
    → le_time (pos k) room ≡ true
unfolding cut_remaining
cut_remaining_le n_remaining room k e = elim (Bool-cases (is_positive n_remaining)) [
  | inl h ↦
      le_min_left k room (sub_int n_remaining 1)
        (ap (le_time (pos k)) (rw (h, cut_remaining) at e) ∙ le_time_refl (pos k))
  | inr h ↦ ap (le_time (pos k)) (rw (h, cut_remaining) at e) ∙ le_time_refl (pos k)
]

-- The room for a draft leaves two places behind the token that was sampled.
draft_room :
    (slot : Slot) (task : Task) (k : ℕ)
    → get_n_draft_max slot task ≡ pos (suc k)
    → suc k + (length slot.prompt.tokens.tokens + 2) ≤ slot.n_ctx
unfolding get_n_draft_max cut_small
draft_room slot task k e =
    let params = task.params in
    let size = length slot.prompt.tokens.tokens + 2 in
    let limit = sub_int (pos slot.n_ctx) size in
    let room = min_int params.spec_n_max limit in
    let cut : cut_remaining slot.n_remaining room ≡ pos (suc k) = ground arith in
    le_room (suc k) slot.n_ctx size (
      le_min_right (suc k) params.spec_n_max limit
        (cut_remaining_le slot.n_remaining room (suc k) cut))

-- The tokens stand behind those that were there, in the prompt and in the batch.
abbrev pub IsAdded : Slot → List BatchToken → List ℤ → Slot × List BatchToken → Type 0
IsAdded slot batch xs (slot', batch') =
    (slot'.prompt.tokens.tokens ≡ slot.prompt.tokens.tokens ++ xs)
    × (tokens_of batch' ≡ tokens_of batch ++ xs)
    × (slot'.n_ctx ≡ slot.n_ctx)
    × (life slot' ≡ life slot)

pub nothing-IsAdded : (slot : Slot) (batch : List BatchToken) → IsAdded slot batch [] (slot, batch)
nothing-IsAdded slot batch =
    (sym (append-nil slot.prompt.tokens.tokens), sym (append-nil (tokens_of batch)), refl, refl)

pub add_token-IsAdded :
    (slot : Slot) (batch : List BatchToken) (tok : ℤ) (logits : Bool) (r : Slot × List BatchToken)
    → add_token slot batch tok logits ≡ ok r
    → IsAdded slot batch (tok ∷ []) r
unfolding add_token push_token with_tokens batch_add tokens_of life
add_token-IsAdded slot batch tok logits r e = elim (Bool-cases (tok ==ℤ null_token)) [
  | inl h ↦ absurd (cc (rw (h, push_token) at e))
  | inr h ↦
      ok_subst (IsAdded slot batch (tok ∷ [])) _ r (rw (h, push_token) at e)
        (refl, tokens_of-append batch _, refl, refl)
]

-- What is added after something was added.
pub IsAdded-trans :
    (slot : Slot) (batch : List BatchToken) (xs ys : List ℤ) (r q : Slot × List BatchToken)
    → IsAdded slot batch xs r
    → IsAdded r.0 r.1 ys q
    → IsAdded slot batch (xs ++ ys) q
IsAdded-trans slot batch xs ys r q (a, b, c, d) (f, g, h, k) = (
  f ∙ ap (λ zs. zs ++ ys) a ∙ append_assoc slot.prompt.tokens.tokens xs ys,
  g ∙ ap (λ zs. zs ++ ys) b ∙ append_assoc (tokens_of batch) xs ys,
  h ∙ c,
  k ∙ d,
)

add_drafted-IsAdded :
    (slot : Slot) (batch : List BatchToken) (draft : List ℤ) (r : Slot × List BatchToken)
    → add_drafted slot batch draft ≡ ok r
    → IsAdded slot batch draft r
unfolding add_drafted life
add_drafted-IsAdded slot batch [] r e =
    ok_subst (IsAdded slot batch []) _ r e (nothing-IsAdded slot batch)
add_drafted-IsAdded slot batch (d ∷ draft) r e =
    let slot1 = record slot { i_batch_dft = slot.i_batch_dft ++ length batch ∷ [] } in
    let (q, f, g) = bind_ok (add_token slot1 batch d true) _ r e in
    IsAdded-trans slot batch (d ∷ []) draft q r (add_token-IsAdded slot1 batch d true q f)
      (add_drafted-IsAdded q.0 q.1 draft r g)

pub size-tokens_of : (batch : List BatchToken) → length (tokens_of batch) ≡ length batch
unfolding tokens_of
size-tokens_of [] = refl
size-tokens_of (b ∷ bs) = ap suc (size-tokens_of bs)

length-take_le : (n : ℕ) (xs : List ℤ) → length (take n xs) ≤ n
length-take_le zero xs = omega arith
length-take_le (suc n) [] = omega arith
length-take_le (suc n) (x ∷ xs) = omega (arith, length-take_le n xs)

use_draft-IsAdded :
    (task : Task) (draft : List ℤ) (slot : Slot) (batch : List BatchToken)
    (r : Slot × List BatchToken)
    → use_draft task draft (slot, batch) ≡ ok r
    → (xs : List ℤ) × (length xs ≤ length draft) × IsAdded slot batch xs r
unfolding use_draft life
use_draft-IsAdded task draft slot batch r e =
    elim (Bool-cases (not (le_time task.params.spec_n_min (pos (length draft))))) [
      | inl h ↦ (
        [],
        omega arith,
        ok_subst (IsAdded slot batch []) _ r (rw (h, use_draft) at e) (nothing-IsAdded slot batch),
      )
      | inr h ↦
          let slot1 = record slot { n_draft_total = slot.n_draft_total + length draft } in
          let (q, f, g) = bind_ok (add_drafted slot1 batch draft) _ r (rw (h, use_draft) at e) in
          (
            draft,
            omega arith,
            ok_subst (IsAdded slot batch draft) _ r g (add_drafted-IsAdded slot1 batch draft q f),
          )
    ]

pub add_with_draft-IsAdded :
    (env : UpdateEnv) (k : ℕ) (slot : Slot) (task : Task) (batch : List BatchToken)
    (r : Slot × List BatchToken)
    → add_with_draft env k slot task batch ≡ ok r
    → (draft : List ℤ) × (length draft ≤ k) × IsAdded slot batch (slot.sampled ∷ draft) r
unfolding add_with_draft life
add_with_draft-IsAdded env k slot task batch r e = elim (Bool-cases env.env.has_mctx) [
  | inl h ↦ absurd (cc (rw (h, add_with_draft) at e))
  | inr h ↦
      let slot1 = record slot { i_batch_dft = slot.i_batch_dft ++ length batch ∷ [] } in
      let (cached, f, g) =
        bind_ok (get_text_tokens slot.prompt.tokens) _ r (rw (h, add_with_draft) at e) in
      let (q, f1, g1) = bind_ok (add_token slot1 batch slot.sampled true) _ r g in
      let (xs, l, a) = use_draft-IsAdded task (take k (env.draft slot)) q.0 q.1 r g1 in
      (
        xs,
        omega (arith, l, length-take_le k (env.draft slot)),
        IsAdded-trans slot batch (slot.sampled ∷ []) xs q r
            (add_token-IsAdded slot1 batch slot.sampled true q f1) a,
      )
]

size-IsAdded :
    (slot : Slot) (batch : List BatchToken) (xs : List ℤ) (r : Slot × List BatchToken)
    → IsAdded slot batch xs r
    → length r.0.prompt.tokens.tokens ≡ length slot.prompt.tokens.tokens + length xs
size-IsAdded slot batch xs r a = ap length a.0 ∙ length-append slot.prompt.tokens.tokens xs

add_up_to-fits :
    (env : UpdateEnv) (n : ℤ) (slot : Slot) (task : Task) (batch : List BatchToken)
    (r : Slot × List BatchToken)
    → get_n_draft_max slot task ≡ n
    → length slot.prompt.tokens.tokens + 1 < slot.n_ctx
    → add_up_to env n slot task batch ≡ ok r
    → (draft : List ℤ) × IsAdded slot batch (slot.sampled ∷ draft) r
      × (length r.0.prompt.tokens.tokens + 1 ≤ slot.n_ctx)
unfolding add_up_to life
add_up_to-fits env (pos zero) slot task batch r k h e =
    let a =
      add_token-IsAdded (record slot { i_batch = pos (length batch) }) batch slot.sampled true r
        e in
    ([], a, omega (arith, size-IsAdded slot batch (slot.sampled ∷ []) r a))
add_up_to-fits env (negsuc n) slot task batch r k h e =
    let a =
      add_token-IsAdded (record slot { i_batch = pos (length batch) }) batch slot.sampled true r
        e in
    ([], a, omega (arith, size-IsAdded slot batch (slot.sampled ∷ []) r a))
add_up_to-fits env (pos (suc n)) slot task batch r k h e =
    let (xs, l, a) = add_with_draft-IsAdded env (suc n) slot task batch r e in
    (
      xs,
      a,
      omega (arith, l, draft_room slot task n k, size-IsAdded slot batch (slot.sampled ∷ xs) r a),
    )

-- The token that was sampled and the draft that follows it stand behind what was in the prompt and in the
-- batch, and they fit into the context if the slot needs no shift.
pub add_sampled-fits :
    (env : UpdateEnv) (slot : Slot) (task : Task) (batch : List BatchToken)
    (r : Slot × List BatchToken)
    → length slot.prompt.tokens.tokens + 1 < slot.n_ctx
    → add_sampled env slot task batch ≡ ok r
    → (draft : List ℤ) × IsAdded slot batch (slot.sampled ∷ draft) r
      × (length r.0.prompt.tokens.tokens + 1 ≤ slot.n_ctx)
unfolding add_sampled life
add_sampled-fits env slot task batch r h e =
    add_up_to-fits env (get_n_draft_max slot task) slot task batch r refl h e
