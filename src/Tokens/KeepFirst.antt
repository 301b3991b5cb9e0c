-- ===== src/Tokens/KeepFirst.antt =====
-- core/src/server/server-common.cpp, server_tokens::keep_first: where a token list may be cut.
use native.Mathlib.Nat.{zero-add}
use llama_go.Base.{
  ℕ, zero, suc, ◌+◌, ◌-◌, ◌<◌, ◌≡◌, refl, ap, subst, ◌∙◌, true, false, some, List, [], ◌∷◌, ◌++◌,
  append-nil, append_assoc, ltb, length, get_elem?, take, replicate, keep, All, All-append, arith,
  ℤ, ◌==ℤ◌, ==ℤ_refl, ok, err, Result, runtime_error, length-append, length-replicate,
  get_elem?-append, get_elem?-replicate, get_elem?-append_left, keep-append, keep_all_lem,
  take-append_length, ◌>>=◌,
}
use llama_go.Tokens.{Chunk, Tokens, null_token, find_chunk, keep_check, is_null_at, keep_first}
use llama_go.Tokens.Segments.{
  Segment, word, media, IsSegment, IsValid, places, width, media_from, build, length-places,
  places-append, media_from-append, media_from_below, media_from_above, find_chunk-inside,
  width-append,
}

pub keep_none :
    (m : List (ℕ × Chunk)) (n : ℕ) → All (λ e. ltb e.0 n ≡ false) m → keep (λ e. ltb e.0 n) m ≡ []
unfolding keep
keep_none [] n h = refl
keep_none (e ∷ m) n h = ground (arith, keep_none m n h.1)

-- What is erased from the map is what starts behind the cut.
keep-media_from :
    (xs ys : List Segment) (n : ℕ)
    → IsValid xs
    → n ≡ width xs
    → keep (λ e. ltb e.0 n) (media_from 0 (xs ++ ys)) ≡ media_from 0 xs
keep-media_from xs ys n v e = rw (
  e,
  media_from-append 0 xs ys,
  zero-add,
  keep-append (λ e. ltb e.0 (width xs)) (media_from 0 xs) (media_from (width xs) ys),
  keep_all_lem (λ e. ltb e.0 (width xs)) (media_from 0 xs)
      (rw zero-add at (media_from_below 0 xs v)),
  keep_none (media_from (width xs) ys) (width xs)
      (media_from_above (width xs) (width xs) ys (omega arith)),
  append-nil,
)

take-places : (xs ys : List Segment) (n : ℕ) → n ≡ width xs → take n (places (xs ++ ys)) ≡ places xs
take-places xs ys n e =
    rw (e, ← length-places xs, places-append xs ys) (take-append_length (places xs) (places ys))

cut : (xs ys : List Segment) → Result (Unit {0}) → Result Tokens
cut xs ys r = r >>= λ _. ok (build xs)

-- A cut at a boundary is whole if the check lets it through.
keep_first-cut :
    (xs ys : List Segment) (n : ℕ)
    → IsValid xs
    → n ≡ width xs
    → 0 < width ys
    → keep_first (build (xs ++ ys)) n ≡ cut xs ys (keep_check (build (xs ++ ys)) n)
unfolding keep_first cut
keep_first-cut xs ys n v e h =
    rw (keep-media_from xs ys n v e, take-places xs ys n e)
      (ground (
        arith,
        length-places xs,
        length-places ys,
        ap length (places-append xs ys),
        length-append (places xs) (places ys),
      ))

-- The place at an offset behind some segments.
place_at :
    (xs ys : List Segment) (n j : ℕ)
    → n ≡ width xs + j
    → get_elem? (places (xs ++ ys)) n ≡ get_elem? (places ys) j
place_at xs ys n j e =
    rw (e, ← length-places xs, places-append xs ys) (get_elem?-append (places xs) (places ys) j)

pub keep_check_ok : (t : Tokens) (n : ℕ) → is_null_at t.tokens n ≡ false → keep_check t n ≡ ok tt
unfolding keep_check
keep_check_ok t zero h = refl
keep_check_ok t (suc m) h = ground arith

pub keep_check_ok_before :
    (t : Tokens) (m : ℕ) → is_null_at t.tokens m ≡ false → keep_check t (suc m) ≡ ok tt
unfolding keep_check
keep_check_ok_before t m h = ground arith

pub keep_check_null :
    (t : Tokens) (m : ℕ)
    → is_null_at t.tokens m ≡ true
    → is_null_at t.tokens (suc m) ≡ true
    → keep_check t (suc m) ≡ (find_chunk t m >>= λ _. ok tt)
unfolding keep_check
keep_check_null t m h k = rw (h, k, keep_check)

cut_ok : (xs ys : List Segment) → cut xs ys (ok tt) ≡ ok (build xs)
unfolding cut
cut_ok xs ys = refl

is_null_of :
    (xs : List ℤ) (i : ℕ) {x : ℤ} → get_elem? xs i ≡ some x → is_null_at xs i ≡ (x ==ℤ null_token)
is_null_of xs i e = rw (e, is_null_at)

word_at :
    (xs ys : List Segment) (t : ℤ)
    → IsSegment (word t)
    → is_null_at (places (xs ++ word t ∷ ys)) (width xs) ≡ false
word_at xs ys t h =
    is_null_of (places (xs ++ word t ∷ ys)) (width xs)
      (place_at xs (word t ∷ ys) (width xs) 0 (omega arith))
    ∙ h

pub null_at :
    (xs ys : List Segment) (c : Chunk) (j : ℕ)
    → j < c.n_tokens
    → is_null_at (places (xs ++ media c ∷ ys)) (width xs + j) ≡ true
null_at xs ys c j h =
    is_null_of (places (xs ++ media c ∷ ys)) (width xs + j) (
      place_at xs (media c ∷ ys) (width xs + j) j refl
      ∙ get_elem?-append_left (replicate c.n_tokens null_token) (places ys) j
          (rw (length-replicate c.n_tokens null_token) h)
      ∙ get_elem?-replicate c.n_tokens null_token j h)
    ∙ ==ℤ_refl null_token

keep_first_all :
    (t : Tokens) (n : ℕ) → t.has_mtmd ≡ true → n ≡ length t.tokens → keep_first t n ≡ ok t
unfolding keep_first
keep_first_all t n m e = ground arith

keep_first_behind :
    (xs ys : List Segment) (t : ℤ)
    → IsValid xs
    → IsValid ys
    → IsSegment (word t)
    → keep_first (build ((xs ++ word t ∷ []) ++ ys)) (suc (width xs))
      ≡ ok (build (xs ++ word t ∷ []))
keep_first_behind xs [] t v w h =
    let zs = xs ++ word t ∷ [] in
    rw append-nil (
      keep_first_all (build zs) (suc (width xs)) refl
        (omega (arith, length-places zs, width-append xs (word t ∷ []))))
keep_first_behind xs (y ∷ ys) t v w h =
    keep_first-cut (xs ++ word t ∷ []) (y ∷ ys) (suc (width xs))
      (All-append IsSegment xs (word t ∷ []) v (h, tt))
      (omega (arith, width-append xs (word t ∷ []))) (width_pos y ys w.0)
    ∙ ap (cut (xs ++ word t ∷ []) (y ∷ ys)) (
        keep_check_ok_before (build ((xs ++ word t ∷ []) ++ y ∷ ys)) (width xs)
          (rw append_assoc (word_at xs (y ∷ ys) t h)))
    ∙ cut_ok (xs ++ word t ∷ []) (y ∷ ys)
  where
    width_pos : (y : Segment) (ys : List Segment) → IsSegment y → 0 < width (y ∷ ys)
    width_pos (word t) ys h = omega arith
    width_pos (media c) ys h = omega arith

-- Around a word of text, the last one too, a token list of valid segments can be cut: before the word the
-- segments in front of it are left, and behind the word those and the word, each with its part of the map
-- of media.
pub keep_first-word :
    (xs ys : List Segment) (t : ℤ)
    → IsValid xs
    → IsValid ys
    → IsSegment (word t)
    → (keep_first (build (xs ++ word t ∷ ys)) (width xs) ≡ ok (build xs))
      × (keep_first (build ((xs ++ word t ∷ []) ++ ys)) (suc (width xs))
          ≡ ok (build (xs ++ word t ∷ [])))
keep_first-word xs ys t v w h = (
  keep_first-cut xs (word t ∷ ys) (width xs) v refl (omega arith)
      ∙ ap (cut xs (word t ∷ ys))
          (keep_check_ok (build (xs ++ word t ∷ ys)) (width xs) (word_at xs ys t h))
      ∙ cut_ok xs (word t ∷ ys),
  keep_first_behind xs ys t v w h,
)

check_between_media :
    (xs ys : List Segment) (c d : Chunk)
    → IsValid xs
    → 1 < c.n_tokens
    → 0 < d.n_tokens
    → keep_check (build ((xs ++ media c ∷ []) ++ media d ∷ ys)) (width (xs ++ media c ∷ []))
      ≡ err runtime_error
check_between_media xs ys c d v h k =
    let last : ℕ = width xs + (c.n_tokens - 1) in
    let e : width (xs ++ media c ∷ []) ≡ suc last = omega (arith, width-append xs (media c ∷ [])) in
    let before : is_null_at (places ((xs ++ media c ∷ []) ++ media d ∷ ys)) last ≡ true =
      rw append_assoc (null_at xs (media d ∷ ys) c (c.n_tokens - 1) (omega arith)) in
    let after : is_null_at (places ((xs ++ media c ∷ []) ++ media d ∷ ys)) (suc last) ≡ true =
      subst (λ (n : ℕ). is_null_at (places ((xs ++ media c ∷ []) ++ media d ∷ ys)) n ≡ true)
        (omega (arith, e)) (null_at (xs ++ media c ∷ []) ys d 0 k) in
    let missing : find_chunk (build ((xs ++ media c ∷ []) ++ media d ∷ ys)) last
        ≡ err runtime_error =
      rw append_assoc
        (find_chunk-inside xs (media d ∷ ys) c (c.n_tokens - 1) v (omega arith) (omega arith)) in
    ap (keep_check (build ((xs ++ media c ∷ []) ++ media d ∷ ys))) e
    ∙ keep_check_null (build ((xs ++ media c ∷ []) ++ media d ∷ ys)) last before after
    ∙ ap (λ r. r >>= λ _. ok tt) missing

-- Between two media chunks a token list cannot be cut, if the first fills more than one place: the
-- code asks whether a chunk starts at the last place that is kept, and throws.
pub keep_first_between_media :
    (xs ys : List Segment) (c d : Chunk)
    → IsValid xs
    → 1 < c.n_tokens
    → 0 < d.n_tokens
    → keep_first (build ((xs ++ media c ∷ []) ++ media d ∷ ys)) (width (xs ++ media c ∷ []))
      ≡ err runtime_error
unfolding cut
keep_first_between_media xs ys c d v h k =
    keep_first-cut (xs ++ media c ∷ []) (media d ∷ ys) (width (xs ++ media c ∷ []))
      (All-append IsSegment xs (media c ∷ []) v (omega arith, tt)) refl (omega arith)
    ∙ ap (cut (xs ++ media c ∷ []) (media d ∷ ys)) (check_between_media xs ys c d v h k)
