-- ===== src/Update/Decode/Ends.antt =====
-- core/src/server/server-context.cpp, update_slots: the loop over the views of a batch comes to an end.
use native.Mathlib.Nat.{suc-mul, mul-le-mul_right}
use llama_go.Base.{
  ℕ, zero, suc, ◌+◌, ◌-◌, ◌*◌, ◌≤◌, ◌<◌, ◌≡◌, refl, sym, ap, ◌∙◌, subst, inl, inr, Bool, true,
  false, not, ◌&&◌, min, ltb, ◌==◌, some, List, [], ◌∷◌, if◌then◌else◌, length, take, drop, All, ℤ,
  pos, negsuc, ◌==ℤ◌, Result, ok, err, arith, Bool-cases,
}
use llama_go.Slots.{Slot, is_processing, clear_prompt}
use llama_go.Slots.Select.{clear_first_idle, try_clear_idle_slots}
use llama_go.Slots.Paired.{has_task, IsPaired, AllPaired}
use llama_go.Tokens.{clear}
use llama_go.Update.{UpdateEnv, BatchToken}
use llama_go.Update.Round.{Round}
use llama_go.Update.Round.Paired.{Steady}
use llama_go.Update.Decode.{
  Decoder, Turn, finished, again, decoded, turn_after, decode_turn, decode_from, after_view,
  is_fatal, make_room, enough,
}
use llama_go.Update.Decode.Paired.{after_view-Steady}

-- The idle slots that hold a prompt.
holds : Slot → Bool
holds slot = not (is_processing slot) && not (length slot.prompt.tokens.tokens == 0)

count_held : List Slot → ℕ
unfolding holds
count_held [] = 0
count_held (slot ∷ slots) = let rest = count_held slots in if holds slot then suc rest else rest

count_held_le : (slots : List Slot) → count_held slots ≤ length slots
unfolding count_held
count_held_le [] = omega arith
count_held_le (slot ∷ slots) = ground (arith, count_held_le slots)

-- A slot that was cleared is counted no more, and if none was, all is as before.
abbrev IsCleared : List Slot → List Slot × Bool → Type 0
IsCleared slots (slots', cleared) =
    (All IsPaired slots → All IsPaired slots')
    × (length slots' ≡ length slots)
    × (count_held slots' + (if cleared then 1 else 0) ≡ count_held slots)

cleared_holds : (slot : Slot) → holds (clear_prompt slot) ≡ false
unfolding holds clear_prompt clear
cleared_holds slot = ground arith

cleared-IsPaired : (slot : Slot) → IsPaired slot → IsPaired (clear_prompt slot)
unfolding clear_prompt has_task is_processing
cleared-IsPaired slot p = p

clear_first_idle-IsCleared : (slots : List Slot) → IsCleared slots (clear_first_idle slots)
unfolding clear_first_idle count_held
clear_first_idle-IsCleared [] = (λ h. h, refl, refl)
clear_first_idle-IsCleared (slot ∷ slots) =
    by_test (clear_first_idle-IsCleared slots) (holds slot) refl
  where
    by_test :
        IsCleared slots (clear_first_idle slots)
        → (b : Bool) → holds slot ≡ b
        → IsCleared (slot ∷ slots) (
            if b
            then (clear_prompt slot ∷ slots, true)
            else (slot ∷ (clear_first_idle slots).0, (clear_first_idle slots).1))
    by_test ih true h =
        (λ p. (cleared-IsPaired slot p.0, p.1), refl, rw (h, cleared_holds slot) (omega arith))
    by_test (a, b, c) false h = (λ p. (p.0, a p.1), ap suc b, rw h c)

-- A slot that gives up its prompt stays as it is otherwise.
pub make_room-Steady :
    (env : UpdateEnv) (b : List BatchToken) (n n_batch : ℕ) (r : Round)
    → Steady b n r
    → Steady b n (make_room env n_batch r).1
unfolding make_room try_clear_idle_slots
make_room-Steady env b n n_batch r (h, k, l) = elim (Bool-cases env.env.kv_unified) [
  | inr c ↦ rw c (h, k, l)
  | inl c ↦ let (p, q, e) = clear_first_idle-IsCleared r.server.slots in rw c (p h, k, q ∙ l)
]

-- A view that is tried again has fewer places, or a slot fewer holds a prompt.
make_room-lt :
    (env : UpdateEnv) (n_batch : ℕ) (r : Round)
    → (make_room env (suc n_batch) r).0 + count_held (make_room env (suc n_batch) r).1.server.slots
      < suc n_batch + count_held r.server.slots
unfolding make_room try_clear_idle_slots
make_room-lt env n_batch r = elim (Bool-cases env.env.kv_unified) [
  | inr c ↦ rw c (omega arith)
  | inl c ↦
      let (p, q, e) = clear_first_idle-IsCleared r.server.slots in
      elim (Bool-cases (clear_first_idle r.server.slots).1) [
        | inl d ↦ rw (c, d) (omega (arith, rw d at e))
        | inr d ↦ rw (c, d) (omega (arith, rw d at e))
      ]
]

mul_step : (a c b : ℕ) → a < c → a * b + b ≤ c * b
mul_step a c b h = omega (arith, mul-le-mul_right b h, suc-mul a b)

-- Moving on pays for a new batch of the whole size.
enough_step :
    (n_batch n_slots left left' size size' : ℕ)
    → left' < left
    → size' ≤ n_batch + n_slots
    → enough n_batch n_slots left' size' < enough n_batch n_slots left size
unfolding enough
enough_step n_batch n_slots left left' size size' h k =
    omega (arith, mul_step left' left (n_batch + n_slots + 1) h)

-- What may be tried for one view.
size_of : ℕ → Round → ℕ
size_of n_batch r = n_batch + count_held r.server.slots

module _ (env : UpdateEnv) (d : Decoder) (now : ℕ) (batch : List BatchToken) (n_slots : ℕ)
    (no_tokens : (k : ℕ) → (e : ℕ) × (d.decode k [] ≡ negsuc e)) where
  -- A turn ends the loop or leaves less to do.
  IsLess : ℕ → ℕ → Round → Turn → Type 0
  IsLess i n_batch r (finished result) = Unit
  IsLess i n_batch r (again j n r') =
      Steady batch n_slots r'
      × (enough env.n_batch n_slots (length batch - j) (size_of n r')
          < enough env.n_batch n_slots (length batch - i) (size_of n_batch r))

  decoded-IsLess :
      (k i n_batch n_tokens : ℕ) (r : Round) (result : Result Round)
      → Steady batch n_slots r
      → i < length batch
      → 0 < n_tokens
      → after_view env d k now i n_tokens r ≡ result
      → IsLess i n_batch r (decoded env (i + n_tokens) result)
  unfolding decoded IsLess size_of
  decoded-IsLess k i n_batch n_tokens r (err e) h l z f = tt
  decoded-IsLess k i n_batch n_tokens r (ok r') h l z f =
      let h' = after_view-Steady env d batch n_slots now k i n_tokens r r' h f in
      (
        h',
        enough_step env.n_batch n_slots (length batch - i) (length batch - (i + n_tokens))
            (size_of n_batch r) (size_of env.n_batch r') (omega arith)
            (omega (arith, count_held_le r'.server.slots, h'.2)),
      )

  turn_after-IsLess :
      (k i n_batch n_tokens : ℕ) (r : Round) (ret : ℤ)
      → Steady batch n_slots r
      → i < length batch
      → 0 < n_tokens
      → IsLess i (suc n_batch) r (turn_after env d now k i (suc n_batch) n_tokens r ret)
  unfolding turn_after IsLess size_of enough
  turn_after-IsLess k i n_batch n_tokens r ret h l z = elim (Bool-cases (ret ==ℤ pos 0)) [
    | inl c ↦ rw c (decoded-IsLess k i (suc n_batch) n_tokens r _ h l z refl)
    | inr c ↦ elim (Bool-cases (is_fatal (suc n_batch) ret)) [
      | inl f ↦ rw (c, f) tt
      | inr f ↦
          rw (c, f)
            (
              make_room-Steady env batch n_slots (suc n_batch) r h,
              omega (arith, make_room-lt env n_batch r),
            )
    ]
  ]

  -- A view of no tokens is refused.
  empty_view-IsLess :
      (k i : ℕ) (r : Round) (ret : ℤ) (e : ℕ)
      → ret ≡ negsuc e
      → IsLess i 0 r (turn_after env d now k i 0 0 r ret)
  unfolding turn_after IsLess is_fatal ◌==ℤ◌
  empty_view-IsLess k i r (pos n) e q = absurd (cc q)
  empty_view-IsLess k i r (negsuc n) e q = tt

  decode_turn-IsLess :
      (k i n_batch : ℕ) (r : Round)
      → Steady batch n_slots r
      → IsLess i n_batch r (decode_turn env d now k i n_batch r)
  unfolding decode_turn IsLess
  decode_turn-IsLess k i n_batch r h = elim (Bool-cases (not (ltb i (length r.batch)))) [
    | inl c ↦ rw c tt
    | inr c ↦ rw c (view k i n_batch r h (ground arith))
  ]
    where
      view :
          (k i n_batch : ℕ) (r : Round)
          → Steady batch n_slots r
          → i < length r.batch
          → IsLess i n_batch r (
              turn_after env d now k i n_batch
                (min n_batch (length r.batch - i))
                r
                (d.decode k (take (min n_batch (length r.batch - i)) (drop i r.batch))))
      view k i zero r h l =
          let none_left : min 0 (length r.batch - i) ≡ 0 = omega arith in
          subst
            (λ m.
              IsLess i 0 r (turn_after env d now k i 0 m r (d.decode k (take m (drop i r.batch)))))
            (sym none_left)
            (empty_view-IsLess k i r (d.decode k []) (no_tokens k).0 (no_tokens k).1)
      view k i (suc n_batch) r h l =
          turn_after-IsLess k i n_batch _ r _ h (omega (arith, ap length h.1)) (omega arith)

  after_turn :
      (fuel k i n_batch : ℕ) (r : Round) (t : Turn)
      → decode_turn env d now k i n_batch r ≡ t
      → IsLess i n_batch r t
      → enough env.n_batch n_slots (length batch - i) (size_of n_batch r) < suc fuel
      → ((j n : ℕ) (r' : Round)
          → Steady batch n_slots r'
          → enough env.n_batch n_slots (length batch - j) (size_of n r') < fuel
          → (x : Result Round) × (decode_from fuel env d now (suc k) j n r' ≡ some x))
      → (x : Result Round) × (decode_from (suc fuel) env d now k i n_batch r ≡ some x)
  unfolding decode_from IsLess
  after_turn fuel k i n_batch r (finished x) e l m ih = (x, rw (e, decode_from) refl)
  after_turn fuel k i n_batch r (again j n r') e l m ih =
      let (x, f) = ih j n r' l.0 (omega (arith, l.1)) in (x, rw (e, decode_from) f)

  decode_ends :
      (fuel k i n_batch : ℕ) (r : Round)
      → Steady batch n_slots r
      → enough env.n_batch n_slots (length batch - i) (size_of n_batch r) < fuel
      → (x : Result Round) × (decode_from fuel env d now k i n_batch r ≡ some x)
  decode_ends zero k i n_batch r h m = absurd (omega arith)
  decode_ends (suc fuel) k i n_batch r h m =
      after_turn fuel k i n_batch r _ refl (decode_turn-IsLess k i n_batch r h) m
        (λ j n r' s l. decode_ends fuel (suc k) j n r' s l)

-- The loop that decodes the batch ends, whatever llama_decode answers, if it refuses a view of no tokens:
-- each token may be tried with every batch size, and after every slot gave up its prompt, so a number of
-- rounds that is linear in the tokens is enough.
pub decode_from-ends :
    (env : UpdateEnv) (d : Decoder) (now : ℕ) (r : Round)
    → ((k : ℕ) → (e : ℕ) × (d.decode k [] ≡ negsuc e))
    → AllPaired r.server
    → (x : Result Round) × (decode_from
          (suc (
            enough env.n_batch
              (length r.server.slots)
              (length r.batch)
              (env.n_batch + length r.server.slots)))
          env
          d
          now
          0
          0
          env.n_batch
          r
        ≡ some x)
unfolding enough size_of
decode_from-ends env d now r no_tokens h =
    decode_ends env d now r.batch (length r.server.slots) no_tokens _ 0 0 env.n_batch r
      (h, refl, refl)
      (subst
        (λ left.
          enough env.n_batch (length r.server.slots) left (size_of env.n_batch r)
          < suc (
              enough env.n_batch (length r.server.slots) (length r.batch)
                (env.n_batch + length r.server.slots)))
        (the_whole (length r.batch)) (omega (arith, count_held_le r.server.slots)))
  where
    the_whole : (n : ℕ) → n ≡ n - 0
    the_whole n = omega arith
