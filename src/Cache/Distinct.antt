-- ===== src/Cache/Distinct.antt =====
-- core/src/server/server-task.cpp, server_prompt_cache::alloc: no prompt is cached twice.
use llama_go.Base.{
  ℕ, suc, ◌≡◌, refl, ap, sym, ◌∙◌, inl, inr, Bool, true, false, not, List, [], ◌∷◌, ◌++◌,
  append-nil, ==_iff, length, any, keep, All, All-append, All-keep, Bool-cases, arith, ℤ, ==ℤ_refl,
  ok,
}
use llama_go.Floats.{Floats}
use llama_go.Tokens.{Tokens, text_prefix, get_text_tokens}
use llama_go.Cache.{Prompt, Cache, prefix_with, is_obsolete, covers, alloc}

-- The second text begins with the first.
abbrev pub Begins : List ℤ → List ℤ → Type 0
Begins xs ys = (zs : List ℤ) × (ys ≡ xs ++ zs)

text_prefix_left : (xs ys : List ℤ) → Begins xs ys → text_prefix xs ys ≡ length xs
unfolding text_prefix
text_prefix_left [] ys b = refl
text_prefix_left (x ∷ xs) ys (zs, e) =
    rw (e, text_prefix) (rw (==ℤ_refl x) (ap suc (text_prefix_left xs (xs ++ zs) (zs, refl))))

text_prefix_right : (xs ys : List ℤ) → Begins ys xs → text_prefix xs ys ≡ length ys
unfolding text_prefix
text_prefix_right [] [] b = refl
text_prefix_right (x ∷ xs) [] b = refl
text_prefix_right xs (y ∷ ys) (zs, e) =
    rw (e, text_prefix) (rw (==ℤ_refl y) (ap suc (text_prefix_right (ys ++ zs) ys (zs, refl))))

-- Neither prompt begins with the other.
abbrev pub Apart : Prompt → Prompt → Type 0
Apart p q =
    (Begins p.tokens.tokens q.tokens.tokens → ⊥) × (Begins q.tokens.tokens p.tokens.tokens → ⊥)

-- No two of the prompts begin with one another.
abbrev pub AllApart : List Prompt → Type 0
AllApart [] = Unit {0}
AllApart (p ∷ ps) = All (Apart p) ps × AllApart ps

keep-AllApart : (f : Prompt → Bool) (ps : List Prompt) → AllApart ps → AllApart (keep f ps)
unfolding keep
keep-AllApart f [] h = tt
keep-AllApart f (p ∷ ps) h = elim (Bool-cases (f p)) [
  | inl k ↦ rw (k, keep) (All-keep (Apart p) f ps h.0, keep-AllApart f ps h.1)
  | inr k ↦ rw (k, keep) (keep-AllApart f ps h.1)
]

append-AllApart :
    (ps : List Prompt) (n : Prompt)
    → AllApart ps
    → All (λ p. Apart p n) ps
    → AllApart (ps ++ n ∷ [])
append-AllApart [] n h k = (tt, tt)
append-AllApart (p ∷ ps) n h k =
    (All-append (Apart p) ps (n ∷ []) h.0 (k.0, tt), append-AllApart ps n h.1 k.1)

module _ (fl : Floats) where
  covers_last :
      (t : Tokens) (n : Prompt) (ps : List Prompt)
      → covers fl t n ≡ true
      → any (covers fl t) (ps ++ n ∷ []) ≡ true
  unfolding any
  covers_last t n [] h = rw h
  covers_last t n (p ∷ ps) h = ground (arith, covers_last t n ps)

  covers_self : (t : Tokens) (n : Prompt) → n.tokens.tokens ≡ t.tokens → covers fl t n ≡ true
  unfolding covers prefix_with
  covers_self t n e =
      (==_iff _ (length t.tokens)).1
        (text_prefix_right n.tokens.tokens t.tokens ([], e ∙ sym (append-nil t.tokens)))

  not_obsolete :
      (t : Tokens) (p : Prompt) → is_obsolete fl t p ≡ false → Begins p.tokens.tokens t.tokens → ⊥
  unfolding is_obsolete prefix_with
  not_obsolete t p h b = ground (arith, text_prefix_left p.tokens.tokens t.tokens b)

  not_covering :
      (t : Tokens) (p : Prompt) → covers fl t p ≡ false → Begins t.tokens p.tokens.tokens → ⊥
  unfolding covers prefix_with
  not_covering t p h b = ground (arith, text_prefix_right p.tokens.tokens t.tokens b)

  none_covers :
      (t : Tokens) (ps : List Prompt)
      → any (covers fl t) ps ≡ false
      → All (λ p. covers fl t p ≡ false) ps
  unfolding any
  none_covers t [] h = tt
  none_covers t (p ∷ ps) h = ground (arith, none_covers t ps)

  kept-Apart :
      (t : Tokens) (n : Prompt) (ps : List Prompt)
      → n.tokens.tokens ≡ t.tokens
      → All (λ p. covers fl t p ≡ false) ps
      → All (λ p. Apart p n) (keep (λ p. not (is_obsolete fl t p)) ps)
  unfolding keep
  kept-Apart t n [] e h = tt
  kept-Apart t n (p ∷ ps) e h = elim (Bool-cases (is_obsolete fl t p)) [
    | inl k ↦ rw (k, keep) (kept-Apart t n ps e h.1)
    | inr k ↦
        rw (k, keep)
          (
            (
              λ b. not_obsolete t p k (b.0, sym e ∙ b.1),
              λ b. not_covering t p h.0 (b.0, b.1 ∙ ap (λ l. l ++ b.0) e),
            ),
            kept-Apart t n ps e h.1,
          )
  ]

  -- If no two cached prompts begin with one another, then so it is after a text prompt was given to the
  -- cache while memory was left; and the cache has a state that begins with the prompt then.
  pub alloc-AllApart :
      (c : Cache) (prompt : Prompt) (state_size : ℕ)
      → prompt.tokens.has_mtmd ≡ false
      → AllApart c.states
      → (c' : Cache) × (added : Bool) × (alloc fl c prompt state_size true ≡ ok (c', added))
        × AllApart c'.states
        × (any (covers fl prompt.tokens) c'.states ≡ true)
  unfolding alloc get_text_tokens
  alloc-AllApart c prompt state_size text h =
      elim (Bool-cases (any (covers fl prompt.tokens) c.states)) [
        | inl k ↦ (c, false, rw (k, alloc), h, k)
        | inr k ↦
            let kept : List Prompt = keep (λ p. not (is_obsolete fl prompt.tokens p)) c.states in
            let n : Prompt = record {
              tokens = record {
                has_mtmd = false;
                map_idx_to_media = [];
                tokens = prompt.tokens.tokens;
              };
              data_size = state_size;
              checkpoints = prompt.checkpoints;
            } in
            (
              record c { states = kept ++ n ∷ [] },
              true,
              rw (k, alloc) (rw text),
              append-AllApart kept n
                  (keep-AllApart (λ p. not (is_obsolete fl prompt.tokens p)) c.states h)
                  (kept-Apart prompt.tokens n c.states refl (none_covers prompt.tokens c.states k)),
              covers_last prompt.tokens n kept (covers_self prompt.tokens n refl),
            )
      ]
