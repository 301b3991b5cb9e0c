-- ===== src/Tokens/Torn.antt =====
-- core/src/server/server-common.cpp, server_tokens::keep_first: a token list that is cut inside a chunk.
use native.Mathlib.Nat.{add-zero, zero-add}
use llama_go.Base.{
  ℕ, suc, ◌+◌, ◌-◌, ◌<◌, ◌≤◌, ◌≡◌, refl, ap, sym, subst, ◌∙◌, ◌≢◌, true, List, [], ◌∷◌, ◌++◌,
  append_assoc, ltb, length, take, replicate, keep, All, arith, ℤ, ok, length-append, keep-append,
  take-append_length, ◌>>=◌,
}
use llama_go.Tokens.{Chunk, Tokens, null_token, keep_check, is_null_at, keep_first}
use llama_go.Tokens.Segments.{
  Segment, word, media, IsValid, places, width, media_from, build, length-places, places-append,
  media_from-append, media_from_below, media_from_above, find_chunk-build, width-append,
}
use llama_go.Tokens.KeepFirst.{keep_none, null_at, keep_check_null}

media_from_fits :
    (k : ℕ) (xs : List Segment) → All (λ e. e.0 + e.1.n_tokens ≤ k + width xs) (media_from k xs)
media_from_fits k [] = tt
media_from_fits k (word t ∷ xs) =
    let e : suc k + width xs ≡ k + suc (width xs) = omega arith in
    rw e at (media_from_fits (suc k) xs)
media_from_fits k (media c ∷ xs) =
    let e : k + c.n_tokens + width xs ≡ k + (c.n_tokens + width xs) = omega arith in
    (omega arith, rw e at (media_from_fits (k + c.n_tokens) xs))

All-last {ℓ κ} : {A : Type ℓ} (P : A → Type κ) (xs : List A) (a : A) → All P (xs ++ a ∷ []) → P a
All-last P [] a h = h.0
All-last P (x ∷ xs) a h = All-last P xs a h.1

-- What is left of a token list that is cut behind the first place of a chunk.
torn : List Segment → Chunk → Tokens
torn xs c = record {
  has_mtmd = true;
  map_idx_to_media = media_from 0 (xs ++ media c ∷ []);
  tokens = places xs ++ null_token ∷ [];
}

torn_lem : (xs zs : List Segment) (c : Chunk) → 1 < c.n_tokens → torn xs c ≢ build zs
unfolding torn
torn_lem xs zs c h e =
    let last : width xs + c.n_tokens ≤ width zs =
      All-last (λ m. m.0 + m.1.n_tokens ≤ width zs) (media_from 0 xs) (width xs, c)
        (simp zero-add at (
          subst (All (λ m. m.0 + m.1.n_tokens ≤ 0 + width zs))
            (sym (ap (λ (t : Tokens). t.map_idx_to_media) e)
              ∙ media_from-append 0 xs (media c ∷ []))
            (media_from_fits 0 zs))) in
    absurd (
      omega (
        arith,
        last,
        ap (λ (t : Tokens). length t.tokens) e,
        length-places zs,
        length-places xs,
        length-append (places xs) (null_token ∷ []),
      ))

keep-All_below :
    (m : List (ℕ × Chunk)) (n : ℕ)
    → All (λ e. ltb e.0 n ≡ true) m
    → keep (λ e. ltb e.0 (suc n)) m ≡ m
unfolding keep
keep-All_below [] n h = refl
keep-All_below (e ∷ m) n h = ground (arith, keep-All_below m n h.1)

kept_in_media :
    (xs ys : List Segment) (c : Chunk)
    → IsValid xs
    → 0 < c.n_tokens
    → keep (λ e. ltb e.0 (suc (width xs))) (media_from 0 (xs ++ media c ∷ ys))
      ≡ media_from 0 xs ++ (width xs, c) ∷ []
unfolding keep
kept_in_media xs ys c v h =
    rw
      (
        media_from-append 0 xs (media c ∷ ys),
        zero-add,
        keep-append (λ e. ltb e.0 (suc (width xs))) (media_from 0 xs)
            (media_from (width xs) (media c ∷ ys)),
        keep-All_below (media_from 0 xs) (width xs) (rw zero-add at (media_from_below 0 xs v)),
      )
      (ground (
        arith,
        keep_none (media_from (width xs + c.n_tokens) ys) (suc (width xs))
            (media_from_above (width xs + c.n_tokens) (suc (width xs)) ys (omega arith)),
      ))

take_in_media :
    (xs ys : List Segment) (c : Chunk) (k : ℕ)
    → c.n_tokens ≡ suc k
    → take (suc (width xs)) (places (xs ++ media c ∷ ys)) ≡ places xs ++ null_token ∷ []
take_in_media xs ys c k e =
    let one : List ℤ = null_token ∷ [] in
    let w : suc (width xs) ≡ length (places xs ++ one) =
      omega (arith, length-append (places xs) one, length-places xs) in
    let split : places (xs ++ media c ∷ ys)
        ≡ (places xs ++ one) ++ (replicate k null_token ++ places ys) =
      places-append xs (media c ∷ ys) ∙ rw (e, append_assoc) in
    rw (w, split) (take-append_length (places xs ++ one) (replicate k null_token ++ places ys))

check_in_media :
    (xs ys : List Segment) (c : Chunk)
    → IsValid xs
    → 1 < c.n_tokens
    → keep_check (build (xs ++ media c ∷ ys)) (suc (width xs)) ≡ ok tt
check_in_media xs ys c v h =
    keep_check_null (build (xs ++ media c ∷ ys)) (width xs)
      (subst (λ (n : ℕ). is_null_at (places (xs ++ media c ∷ ys)) n ≡ true) (add-zero (width xs))
        (null_at xs ys c 0 (omega arith)))
      (subst (λ (n : ℕ). is_null_at (places (xs ++ media c ∷ ys)) n ≡ true) {y = suc (width xs)}
        (omega arith) (null_at xs ys c 1 h))
    ∙ ap (λ r. r >>= λ _. ok tt) (find_chunk-build xs ys c v)

keep_first_in_media :
    (xs ys : List Segment) (c : Chunk)
    → IsValid xs
    → 1 < c.n_tokens
    → keep_first (build (xs ++ media c ∷ ys)) (suc (width xs)) ≡ ok (torn xs c)
unfolding keep_first torn
keep_first_in_media xs ys c v h =
    rw
      (
        kept_in_media xs ys c v (omega arith),
        take_in_media xs ys c (c.n_tokens - 1) (omega arith),
        check_in_media xs ys c v h,
        media_from-append 0 xs (media c ∷ []),
        zero-add,
      )
      (ground (arith, length-places (xs ++ media c ∷ ys), width-append xs (media c ∷ ys)))

-- Behind the first place of a media chunk that fills more than one place a token list is cut
-- nevertheless, and what is left is torn: it is no list of whole segments.
pub keep_first-torn :
    (xs ys : List Segment) (c : Chunk)
    → IsValid xs
    → 1 < c.n_tokens
    → (t : Tokens) × (keep_first (build (xs ++ media c ∷ ys)) (suc (width xs)) ≡ ok t)
      × ((zs : List Segment) → t ≢ build zs)
keep_first-torn xs ys c v h = (torn xs c, keep_first_in_media xs ys c v h, λ zs. torn_lem xs zs c h)
