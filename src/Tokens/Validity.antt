-- ===== src/Tokens/Validity.antt =====
-- core/src/server/server-common.cpp, server_tokens::validate.
use llama_go.Base.{
  ℕ, zero, suc, ◌+◌, ◌<◌, ◌≡◌, refl, ap, sym, ◌∙◌, Bool, true, false, ◌&&◌, List, [], ◌∷◌, ◌++◌,
  append-nil, append_assoc, Result, none, some, ltb, Bool-cases, inl, inr, length, get_elem?,
  All-append, arith, ℤ, pos, negsuc, ◌==ℤ◌, ==ℤ_refl, ok,
}
use llama_go.Tokens.{Chunk, Tokens, null_token, find_chunk, in_vocab, validate_from, validate}
use llama_go.Tokens.Segments.{
  Segment, word, media, IsSegment, IsValid, places, width, build, length-places, find_chunk-build,
  width-append, length-le-width, at_start,
}

-- Every word is a token of a vocabulary of n_vocab tokens; what a media chunk holds is not asked.
abbrev pub words_in : ℕ → List Segment → Bool
words_in n [] = true
words_in n (word (pos t) ∷ xs) = ltb t n && words_in n xs
words_in n (word (negsuc t) ∷ xs) = false
words_in n (media c ∷ xs) = words_in n xs

get_elem?_end : (xs : List ℤ) → get_elem? xs (length xs) ≡ none
get_elem?_end [] = refl
get_elem?_end (x ∷ xs) = get_elem?_end xs

module _ (fuel n : ℕ) (t : Tokens) (i : ℕ) where
  round_end : get_elem? t.tokens i ≡ none → validate_from (suc fuel) n t i ≡ ok true
  unfolding validate_from
  round_end h = rw (h, validate_from)

  round_word :
      (x : ℤ)
      → get_elem? t.tokens i ≡ some x
      → (x ==ℤ null_token) ≡ false
      → validate_from (suc fuel) n t i
        ≡ (elim (in_vocab n x) [ true ↦ validate_from fuel n t (suc i) | false ↦ ok false ])
  unfolding validate_from
  round_word x h k = rw (h, validate_from) (rw (k, validate_from))

  round_media :
      (c : Chunk)
      → get_elem? t.tokens i ≡ some null_token
      → find_chunk t i ≡ ok c
      → validate_from (suc fuel) n t i ≡ validate_from fuel n t (i + c.n_tokens)
  unfolding validate_from
  round_media c h k = rw (h, validate_from) (rw (==ℤ_refl null_token, k, validate_from))

next :
    (fuel n : ℕ) (ps xs : List Segment) (x : Segment) (k : ℕ) {r : Result Bool}
    → validate_from fuel n (build ((ps ++ x ∷ []) ++ xs)) k ≡ r
    → validate_from fuel n (build (ps ++ x ∷ xs)) k ≡ r
next fuel n ps xs x k h =
    sym (ap (λ p. validate_from fuel n (build p) k) (append_assoc ps (x ∷ []) xs)) ∙ h

validate_from-build :
    (fuel n : ℕ) (ps xs : List Segment) (i : ℕ)
    → IsValid ps
    → IsValid xs
    → i ≡ width ps
    → length xs < fuel
    → validate_from fuel n (build (ps ++ xs)) i ≡ ok (words_in n xs)
unfolding in_vocab
validate_from-build zero n ps xs i vp vx e h = elim h [ ]
validate_from-build (suc fuel) n ps [] i vp vx e h =
    round_end fuel n (build (ps ++ [])) i
      (rw append-nil (rw (e, ← length-places ps) (get_elem?_end (places ps))))
validate_from-build (suc fuel) n ps (word (pos s) ∷ xs) i vp vx e h =
    round_word fuel n (build (ps ++ word (pos s) ∷ xs)) i (pos s)
      (rw e (at_start ps (word (pos s)) xs vx.0)) vx.0
    ∙ (elim (Bool-cases (ltb s n)) [
      | inl q ↦
          rw (q, in_vocab)
            (next fuel n ps xs (word (pos s)) (suc i) (
              validate_from-build fuel n (ps ++ word (pos s) ∷ []) xs (suc i)
                (All-append IsSegment ps _ vp (vx.0, tt)) vx.1
                (omega (arith, e, width-append ps (word (pos s) ∷ []))) (omega arith)))
      | inr q ↦ rw (q, in_vocab)
    ])
validate_from-build (suc fuel) n ps (word (negsuc s) ∷ xs) i vp vx e h =
    round_word fuel n (build (ps ++ word (negsuc s) ∷ xs)) i (negsuc s)
      (rw e (at_start ps (word (negsuc s)) xs vx.0)) vx.0
validate_from-build (suc fuel) n ps (media c ∷ xs) i vp vx e h =
    round_media fuel n (build (ps ++ media c ∷ xs)) i c (rw e (at_start ps (media c) xs vx.0))
      (rw e (find_chunk-build ps xs c vp))
    ∙ next fuel n ps xs (media c) (i + c.n_tokens) (
        validate_from-build fuel n (ps ++ media c ∷ []) xs (i + c.n_tokens)
          (All-append IsSegment ps _ vp (vx.0, tt)) vx.1
          (omega (arith, e, width-append ps (media c ∷ []))) (omega arith))

-- A token list is found valid exactly if every word of its meaning is a token of the vocabulary, and
-- the loop over its places ends.
pub validate-build :
    (n : ℕ) (xs : List Segment) → IsValid xs → validate n (build xs) ≡ ok (words_in n xs)
unfolding validate
validate-build n xs v =
    validate_from-build (suc (length (places xs))) n [] xs 0 tt v refl
      (omega (arith, length-places xs, length-le-width xs v))
