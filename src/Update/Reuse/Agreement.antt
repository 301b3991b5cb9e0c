-- ===== src/Update/Reuse/Agreement.antt =====
-- core/src/server/server-context.cpp, update_slots: the cached tokens agree with the new prompt.
use native.Mathlib.Nat.{zero-add, suc-add}
use llama_go.Base.{
  ℕ, zero, suc, ◌+◌, ◌-◌, ◌≤◌, ◌<◌, ◌≡◌, ◌≢◌, refl, sym, ap, ◌∙◌, subst, inl, inr, ◌&&◌, some, List,
  [], ◌∷◌, ltb, leb, ◌==◌, length, get_elem?, set, take, drop, ℤ, Result, ok, arith, Bool-cases,
  Option-cases, length-drop, length-set,
}
use llama_go.Tokens.Prefix.{take-text_prefix, text_prefix-le_left, text_prefix-le_right}
use llama_go.Update.Shift.{copy_within}
use llama_go.Update.Reuse.{copy_chunk, match_length, reuse_chunks}

-- Two lists agree on their first n places.
abbrev pub Agree : List ℤ → List ℤ → ℕ → Type 0
Agree xs ys n = (i : ℕ) → i < n → get_elem? xs i ≡ get_elem? ys i

Agree-take : (xs ys : List ℤ) (n : ℕ) → Agree xs ys n → take n xs ≡ take n ys
Agree-take xs ys zero h = refl
Agree-take [] [] (suc n) h = refl
Agree-take [] (y ∷ ys) (suc n) h = absurd (cc (h 0 (omega arith)))
Agree-take (x ∷ xs) [] (suc n) h = absurd (cc (h 0 (omega arith)))
Agree-take (x ∷ xs) (y ∷ ys) (suc n) h =
    let e = Agree-take xs ys n (λ i l. h (suc i) (omega arith)) in
    let e0 = h 0 (omega arith) in cc (e, e0)

take-Agree : (xs ys : List ℤ) (n : ℕ) → take n xs ≡ take n ys → Agree xs ys n
take-Agree xs ys zero e i l = absurd (omega arith)
take-Agree [] [] (suc n) e i l = refl
take-Agree [] (y ∷ ys) (suc n) e i l = absurd (cc e)
take-Agree (x ∷ xs) [] (suc n) e i l = absurd (cc e)
take-Agree (x ∷ xs) (y ∷ ys) (suc n) e zero l = cc e
take-Agree (x ∷ xs) (y ∷ ys) (suc n) e (suc i) l = take-Agree xs ys n (cc e) i (omega arith)

get_elem?-set_other :
    (xs : List ℤ) (i j : ℕ) (v : ℤ) → i ≢ j → get_elem? (set xs i v) j ≡ get_elem? xs j
get_elem?-set_other [] i j v h = refl
get_elem?-set_other (x ∷ xs) zero zero v h = absurd (h refl)
get_elem?-set_other (x ∷ xs) zero (suc j) v h = refl
get_elem?-set_other (x ∷ xs) (suc i) zero v h = refl
get_elem?-set_other (x ∷ xs) (suc i) (suc j) v h = get_elem?-set_other xs i j v (λ e. h (ap suc e))

get_elem?-set_same :
    (xs : List ℤ) (i : ℕ) (v : ℤ) → i < length xs → get_elem? (set xs i v) i ≡ some v
get_elem?-set_same [] i v h = absurd (omega arith)
get_elem?-set_same (x ∷ xs) zero v h = refl
get_elem?-set_same (x ∷ xs) (suc i) v h = get_elem?-set_same xs i v (omega arith)

get_elem?_below : (xs : List ℤ) (i : ℕ) → i < length xs → (x : ℤ) × (get_elem? xs i ≡ some x)
get_elem?_below [] i h = absurd (omega arith)
get_elem?_below (x ∷ xs) zero h = (x, refl)
get_elem?_below (x ∷ xs) (suc i) h = get_elem?_below xs i (omega arith)

get_elem?-drop : (xs : List ℤ) (k i : ℕ) → get_elem? (drop k xs) i ≡ get_elem? xs (k + i)
get_elem?-drop xs zero i = rw zero-add
get_elem?-drop [] (suc k) i = refl
get_elem?-drop (x ∷ xs) (suc k) i = rw suc-add (get_elem?-drop xs k i)

copy_within_other :
    (xs : List ℤ) (from to j : ℕ) → to ≢ j → get_elem? (copy_within xs from to) j ≡ get_elem? xs j
unfolding copy_within
copy_within_other xs from to j h = elim (Option-cases (get_elem? xs from)) [
  | inl e ↦ rw (copy_within, e) refl
  | inr (x, e) ↦ rw (copy_within, e) (get_elem?-set_other xs to j x h)
]

copy_within_same :
    (xs : List ℤ) (from to : ℕ)
    → to ≤ from
    → from < length xs
    → get_elem? (copy_within xs from to) to ≡ get_elem? xs from
unfolding copy_within
copy_within_same xs from to h k =
    let (x, e) = get_elem?_below xs from k in
    rw (copy_within, e) (get_elem?-set_same xs to x (omega arith))

length-copy_within : (xs : List ℤ) (from to : ℕ) → length (copy_within xs from to) ≡ length xs
unfolding copy_within
length-copy_within xs from to = elim (Option-cases (get_elem? xs from)) [
  | inl e ↦ rw (copy_within, e) refl
  | inr (x, e) ↦ rw (copy_within, e) (length-set xs to x)
]

length-copy_chunk : (n : ℕ) (xs : List ℤ) (c p : ℕ) → length (copy_chunk n xs c p) ≡ length xs
unfolding copy_chunk
length-copy_chunk zero xs c p = refl
length-copy_chunk (suc n) xs c p =
    length-copy_chunk n (copy_within xs c p) (suc c) (suc p) ∙ length-copy_within xs c p

-- One more place agrees when the token at the head of the cache is the one at the head of the prompt.
copy_within-Agree :
    (xs input : List ℤ) (c p : ℕ)
    → p ≤ c
    → c < length xs
    → Agree xs input p
    → get_elem? xs c ≡ get_elem? input p
    → Agree (copy_within xs c p) input (suc p)
copy_within-Agree xs input c p h k a e i l = elim (Bool-cases (p == i)) [
  | inl q ↦
      let here : p ≡ i = ground arith in
      subst (λ j. get_elem? (copy_within xs c p) j ≡ get_elem? input j) here
        (copy_within_same xs c p h k ∙ e)
  | inr q ↦ let away : p ≢ i = ground arith in copy_within_other xs c p i away ∙ a i (omega arith)
]

at_sums :
    (xs input : List ℤ) {a b c d : ℕ}
    → a ≡ b
    → c ≡ d
    → get_elem? xs a ≡ get_elem? input c
    → get_elem? xs b ≡ get_elem? input d
at_sums xs input p q e = ap (get_elem? xs) (sym p) ∙ e ∙ ap (get_elem? input) q

copy_chunk-Agree :
    (n : ℕ) (xs input : List ℤ) (c p : ℕ)
    → p ≤ c
    → c + n ≤ length xs
    → Agree xs input p
    → ((j : ℕ) → j < n → get_elem? xs (c + j) ≡ get_elem? input (p + j))
    → Agree (copy_chunk n xs c p) input (p + n)
unfolding copy_chunk
copy_chunk-Agree zero xs input c p h k a e i l = a i (omega arith)
copy_chunk-Agree (suc n) xs input c p h k a e i l =
    let head = at_sums xs input (omega arith) (omega arith) (e 0 (omega arith)) in
    copy_chunk-Agree n (copy_within xs c p) input (suc c) (suc p) (omega arith)
      (omega (arith, length-copy_within xs c p))
      (copy_within-Agree xs input c p h (omega arith) a head)
      (λ j m.
        copy_within_other xs c p (suc c + j) (λ q. absurd (omega (arith, q)))
        ∙ at_sums xs input (omega arith) (omega arith) (e (suc j) (omega arith)))
      i (omega arith)

match_length_lem :
    (xs input : List ℤ) (c p j : ℕ)
    → j < match_length xs input c p
    → get_elem? xs (c + j) ≡ get_elem? input (p + j)
unfolding match_length
match_length_lem xs input c p j h =
    sym (get_elem?-drop xs c j)
    ∙ take-Agree (drop c xs) (drop p input) _ (take-text_prefix (drop c xs) (drop p input)) j h
    ∙ get_elem?-drop input p j

match_length_left :
    (xs input : List ℤ) (c p : ℕ) → c ≤ length xs → c + match_length xs input c p ≤ length xs
unfolding match_length
match_length_left xs input c p h =
    omega (arith, text_prefix-le_left (drop c xs) (drop p input), length-drop c xs h)

match_length_right :
    (xs input : List ℤ) (c p : ℕ) → p ≤ length input → p + match_length xs input c p ≤ length input
unfolding match_length
match_length_right xs input c p h =
    omega (arith, text_prefix-le_right (drop c xs) (drop p input), length-drop p input h)

-- What the loop leaves.
abbrev pub IsReused : List ℤ → List ℤ → ℕ → Result (List ℤ × ℕ) → Type 0
IsReused xs input n_past r =
    (ys : List ℤ) × (n : ℕ) × (r ≡ ok (ys, n))
    × (n_past ≤ n)
    × (n ≤ length input)
    × (n ≤ length xs)
    × (length ys ≡ length xs)
    × (take n ys ≡ take n input)

reuse_from :
    (fuel : ℕ) (xs input : List ℤ) (n_cache_reuse c p : ℕ)
    → 0 < n_cache_reuse
    → p ≤ c
    → c ≤ length xs
    → p ≤ length input
    → length xs - c < fuel
    → Agree xs input p
    → IsReused xs input p (reuse_chunks fuel xs input n_cache_reuse c p p)
unfolding reuse_chunks
reuse_from zero xs input m c p z h k l f a = absurd (omega arith)
reuse_from (suc fuel) xs input m c p z h k l f a =
    elim (Bool-cases (ltb c (length xs) && ltb p (length input))) [
      | inr stop ↦
          rw (stop, reuse_chunks)
            (xs, p, refl, omega arith, l, omega arith, refl, Agree-take xs input p a)
      | inl more ↦ elim (Bool-cases (leb m (match_length xs input c p))) [
        | inl long ↦
            let n = match_length xs input c p in
            let ys = copy_chunk n xs c p in
            let same = length-copy_chunk n xs c p in
            let left = match_length_left xs input c p k in
            let right = match_length_right xs input c p l in
            let agree = copy_chunk-Agree n xs input c p h left a (match_length_lem xs input c p) in
            let some_left : 0 < n = ground arith in
            let (zs, r, e, b1, b2, b3, b4, t) =
              reuse_from fuel ys input m (c + n) (p + n) z (omega arith) (omega (arith, same, left))
                right (ground (arith, same)) agree in
            rw (more, long, reuse_chunks)
              (zs, r, e, omega arith, b2, omega (arith, b3, same), b4 ∙ same, t)
        | inr short ↦
            let below : c < length xs = ground arith in
            rw (more, short, reuse_chunks)
              (reuse_from fuel xs input m (suc c) p z (omega arith) (omega arith) l (omega arith) a)
      ]
    ]

-- The reuse of chunks always ends, in as many rounds as there are cached tokens at most, if it is asked for
-- chunks of at least one token: n_past does not fall, stays within both prompts, and the cached tokens
-- agree with the new prompt up to it, if they did before.
pub reuse_chunks-IsReused :
    (xs input : List ℤ) (n_cache_reuse n_past : ℕ)
    → 0 < n_cache_reuse
    → n_past ≤ length xs
    → n_past ≤ length input
    → take n_past xs ≡ take n_past input
    → IsReused xs input n_past
        (reuse_chunks (suc (length xs)) xs input n_cache_reuse n_past n_past n_past)
reuse_chunks-IsReused xs input m n z h k e =
    reuse_from (suc (length xs)) xs input m n n z (omega arith) h k (omega arith)
      (take-Agree xs input n e)
