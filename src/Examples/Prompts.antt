-- ===== src/Examples/Prompts.antt =====
-- The theorems on prompts, the prompt cache, the LoRA adapters and generated text, used on concrete data.
-- It models no file of the repository.
use llama_go.Base.{
  ℕ, ◌≡◌, ◌≢◌, refl, Bool, true, false, some, List, [], ◌∷◌, ◌++◌, any, pos, ◌==ℤ◌, ok, err,
  runtime_error, arith,
}
use llama_go.Floats.{thousandths}
use llama_go.Tokens.{
  Chunk, Tokens, null_token, image, audio, push_chunk, push_back, keep_first, get_common_prefix,
  validate,
}
use llama_go.Tokens.Segments.{Segment, word, media, build, width}
use llama_go.Tokens.Edits.{push_chunk-build, push_back-text, push_back-media_never}
use llama_go.Tokens.KeepFirst.{keep_first-word, keep_first_between_media}
use llama_go.Tokens.Torn.{keep_first-torn}
use llama_go.Tokens.Prefix.{IsLongest, get_common_prefix-IsLongest, common, get_common_prefix-build}
use llama_go.Tokens.Validity.{words_in, validate-build}
use llama_go.Cache.{Cache, covers, alloc}
use llama_go.Cache.Distinct.{AllApart, Apart, alloc-AllApart}
use llama_go.Lora.{alora_start, find_invocation, matches}
use llama_go.Lora.Invocation.{BeginsAt, alora_start-BeginsAt}
use llama_go.Examples.{text, prompt}

abbrev picture : Chunk
picture = record { id = 7; n_tokens = 2; n_pos = 1 }

abbrev mixed : List Segment
mixed = word (pos 1) ∷ media picture ∷ []

is_word : (n : ℕ) → (pos n ==ℤ null_token) ≡ false
unfolding ◌==ℤ◌
is_word n = refl

push_chunk-build_example :
    (push_chunk (build mixed) (image picture) ≡ ok (build (mixed ++ media picture ∷ [])))
    × (push_chunk (build mixed) (audio picture) ≡ ok (build (mixed ++ media picture ∷ [])))
push_chunk-build_example = push_chunk-build mixed picture (is_word 1, (omega arith, tt))

push_back-text_example :
    push_back 0 (build mixed) (text (pos 2 ∷ [])) ≡ ok (build (mixed ++ word (pos 2) ∷ []))
push_back-text_example = push_back-text 0 (build mixed) (text (pos 2 ∷ [])) refl (is_word 2, tt)

push_back-media_never_example : push_back 5 (build []) (build mixed) ≢ ok (build mixed)
push_back-media_never_example =
    push_back-media_never 5 (build []) (build mixed) (build mixed) 1 picture [] refl refl

keep_first-word_example :
    (keep_first (build (word (pos 1) ∷ word (pos 2) ∷ media picture ∷ [])) 1
      ≡ ok (build (word (pos 1) ∷ [])))
    × (keep_first (build (word (pos 1) ∷ word (pos 2) ∷ media picture ∷ [])) 2
        ≡ ok (build (word (pos 1) ∷ word (pos 2) ∷ [])))
keep_first-word_example =
    keep_first-word (word (pos 1) ∷ []) (media picture ∷ []) (pos 2) (is_word 1, tt)
      (omega arith, tt) (is_word 2)

keep_first_between_media_example :
    keep_first (build (word (pos 1) ∷ media picture ∷ media picture ∷ [])) 3 ≡ err runtime_error
keep_first_between_media_example =
    keep_first_between_media (word (pos 1) ∷ []) [] picture picture (is_word 1, tt) (omega arith)
      (omega arith)

keep_first-torn_example :
    (t : Tokens) × (keep_first (build (word (pos 1) ∷ media picture ∷ word (pos 2) ∷ [])) 2 ≡ ok t)
    × ((zs : List Segment) → t ≢ build zs)
keep_first-torn_example =
    keep_first-torn (word (pos 1) ∷ []) (word (pos 2) ∷ []) picture (is_word 1, tt) (omega arith)

get_common_prefix-IsLongest_example :
    (n : ℕ) × (get_common_prefix (text (pos 1 ∷ pos 2 ∷ [])) (text (pos 1 ∷ pos 3 ∷ [])) ≡ ok n)
    × IsLongest (pos 1 ∷ pos 2 ∷ []) (pos 1 ∷ pos 3 ∷ []) n
get_common_prefix-IsLongest_example =
    get_common_prefix-IsLongest (text (pos 1 ∷ pos 2 ∷ [])) (text (pos 1 ∷ pos 3 ∷ [])) refl

get_common_prefix-build_example :
    get_common_prefix (build (mixed ++ word (pos 2) ∷ [])) (build (mixed ++ word (pos 3) ∷ []))
    ≡ ok (width (common (mixed ++ word (pos 2) ∷ []) (mixed ++ word (pos 3) ∷ [])))
get_common_prefix-build_example =
    get_common_prefix-build (mixed ++ word (pos 2) ∷ []) (mixed ++ word (pos 3) ∷ [])
      (is_word 1, (omega arith, (is_word 2, tt))) (is_word 1, (omega arith, (is_word 3, tt)))

validate-build_example : validate 2 (build mixed) ≡ ok (words_in 2 mixed)
validate-build_example = validate-build 2 mixed (is_word 1, (omega arith, tt))

abbrev cache : Cache
cache = record {
  states = prompt (pos 1 ∷ pos 2 ∷ []) ∷ prompt (pos 3 ∷ []) ∷ [];
  limit_size = 1;
  limit_tokens = 0;
}

apart : Apart (prompt (pos 1 ∷ pos 2 ∷ [])) (prompt (pos 3 ∷ []))
apart = (λ b. cc, λ b. cc)

alloc-AllApart_example :
    (c' : Cache) × (added : Bool) × (alloc thousandths cache (prompt (pos 3 ∷ pos 4 ∷ [])) 1 true
      ≡ ok (c', added))
    × AllApart c'.states
    × (any (covers thousandths (text (pos 3 ∷ pos 4 ∷ []))) c'.states ≡ true)
alloc-AllApart_example =
    alloc-AllApart thousandths cache (prompt (pos 3 ∷ pos 4 ∷ [])) 1 refl ((apart, tt), (tt, tt))

alora_found : alora_start (pos 1 ∷ pos 2 ∷ []) (pos 5 ∷ pos 1 ∷ pos 2 ∷ []) ≡ some 1
unfolding alora_start find_invocation matches ◌==ℤ◌
alora_found = refl

alora_start-BeginsAt_example : BeginsAt (pos 5 ∷ pos 1 ∷ pos 2 ∷ []) 1 (pos 1 ∷ pos 2 ∷ []) 0
alora_start-BeginsAt_example =
    alora_start-BeginsAt (pos 1 ∷ pos 2 ∷ []) (pos 5 ∷ pos 1 ∷ pos 2 ∷ []) 1 alora_found
