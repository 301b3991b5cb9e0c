-- ===== src/Lora/Invocation.antt =====
-- core/src/server/server-context.cpp, launch_slot_with_task: where the tokens that invoke an aLoRA
-- are found, and where they are missed.
use llama_go.Base.{
  ℕ, zero, suc, ◌-◌, ◌≤◌, ◌≡◌, refl, sym, ap, subst, ◌⊎◌, inl, inr, true, false, Option, none, some,
  List, [], ◌∷◌, ◌++◌, ◌==◌, length, get_elem?, drop, Bool-cases, arith, ℤ, ==ℤ_iff,
}
use llama_go.Lora.{matches, find_invocation, alora_start}

-- The tokens from place i on begin with the invocation from its place m on.
abbrev pub BeginsAt : List ℤ → ℕ → List ℤ → ℕ → Type 0
BeginsAt tokens i invocation m = (rest : List ℤ) × (drop i tokens ≡ drop m invocation ++ rest)

drop_at {ℓ} :
    {A : Type ℓ} (xs : List A) (i : ℕ) (x : A)
    → get_elem? xs i ≡ some x
    → drop i xs ≡ x ∷ drop (suc i) xs
drop_at [] i x e = cc
drop_at (y ∷ ys) zero x e = cc
drop_at (y ∷ ys) (suc i) x e = drop_at ys i x e

drop_end {ℓ} : {A : Type ℓ} (xs : List A) (n : ℕ) → length xs ≤ n → drop n xs ≡ []
drop_end [] zero h = refl
drop_end [] (suc n) h = refl
drop_end (x ∷ xs) zero h = absurd (omega arith)
drop_end (x ∷ xs) (suc n) h = drop_end xs n (omega arith)

matches-both : (a b : Option ℤ) → matches a b ≡ true → (x : ℤ) × (a ≡ some x) × (b ≡ some x)
unfolding matches
matches-both none b h = cc
matches-both (some x) none h = cc
matches-both (some x) (some y) h = (x, refl, ap some (sym ((==ℤ_iff x y).0 h)))

one_more :
    (invocation tokens : List ℤ) (i m : ℕ)
    → matches (get_elem? tokens i) (get_elem? invocation m) ≡ true
    → BeginsAt tokens (suc i) invocation (suc m)
    → BeginsAt tokens i invocation m
one_more invocation tokens i m h (rest, e) =
    let (x, t, v) = matches-both (get_elem? tokens i) (get_elem? invocation m) h in
    (rest, rw (drop_at tokens i x t, drop_at invocation m x v) (ap (◌∷◌ x) e))

Nat-cases : (m : ℕ) → (m ≡ 0) ⊎ ((n : ℕ) × (m ≡ suc n))
Nat-cases zero = inl refl
Nat-cases (suc n) = inr (n, refl)

suc_ne : (n : ℕ) → (suc n == 0) ≡ false
suc_ne n = ground arith

suc_pred : (n : ℕ) → suc n - 1 ≡ n
suc_pred n = omega arith

find_invocation-BeginsAt :
    (invocation tokens : List ℤ) (i m k : ℕ)
    → BeginsAt tokens i invocation (suc m)
    → find_invocation invocation tokens i m ≡ some k
    → BeginsAt tokens k invocation 0
unfolding find_invocation
find_invocation-BeginsAt invocation tokens zero m k b e = cc
find_invocation-BeginsAt invocation tokens (suc i) m k b e =
    elim (Bool-cases (matches (get_elem? tokens i) (get_elem? invocation m))) [
      | inr h ↦
          find_invocation-BeginsAt invocation tokens i (length invocation - 1) k
            (drop i tokens, rw (drop_end invocation (suc (length invocation - 1)) (omega arith)))
            (rw (h, find_invocation) at e)
      | inl h ↦
          let b' = one_more invocation tokens i m h b in
          elim (Nat-cases m) [
            | inl z ↦ subst (λ n. BeginsAt tokens n invocation 0) (ground (arith, z)) (rw z at b')
            | inr (n, s) ↦
                find_invocation-BeginsAt invocation tokens i n k (rw s at b')
                  (rw (h, s, suc_ne n, suc_pred n, find_invocation) at e)
          ]
    ]

-- Where the search finds the invocation of an aLoRA, the prompt goes on with the whole of it.
pub alora_start-BeginsAt :
    (invocation tokens : List ℤ) (k : ℕ)
    → alora_start invocation tokens ≡ some k
    → BeginsAt tokens k invocation 0
unfolding alora_start
alora_start-BeginsAt invocation tokens k e =
    find_invocation-BeginsAt invocation tokens (length tokens) (length invocation - 1) k
      (
        drop (length tokens) tokens,
        rw (drop_end invocation (suc (length invocation - 1)) (omega arith)),
      )
      e
