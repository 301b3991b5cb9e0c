-- ===== src/Lib.antt =====
-- The server core of llama.go (core/src/server): the tokens of prompts, the tasks and the queue that
-- the main loop serves, the results that wait for their readers, the cache of old prompts, the slots in
-- which tasks run, and the text that is generated.
--
-- How the parts interact. A request becomes tasks (Task), which are posted to the queue (Queue). The main
-- loop (Queue.Loop) takes a task and processes it (Slots.Tasks): it chooses a slot (Slots.Select), which
-- may swap the slot's prompt with one of the cache (Cache), and launches the task there (Slots.Launch), or
-- defers it until a slot is released. When no task is left it runs a round over the slots (Update.Step): a
-- full slot is shifted (Update.Shift), sampled tokens (Update.Draft) and prompts (Update.Begin, Update.Reuse,
-- Update.Prompt) fill a batch (Update.Phases), and the batch is decoded (Update.Decode). Each token that a slot
-- samples goes through process_token (Generate). Results are sent to the readers that wait for them (Response).
--
-- Files and the code they model:
--   Tokens    server_tokens of core/src/server/server-common.h and server-common.cpp; Tokens/Segments
--             gives the meaning of a token list, and its siblings prove what the operations do to it
--   Task      the tasks and results of core/src/server/server-task.h
--   Lora      the LoRA utilities of server-common.cpp and the search for an aLoRA's invocation
--   Queue     server_queue of core/src/server/server-queue.h and server-queue.cpp; Queue/Loop is
--             start_loop as a machine of steps, with the operations of other threads in between
--   Response  server_response of the same files
--   Reader    server_response_reader of the same files, which posts tasks and collects their results
--   Cache     server_prompt and server_prompt_cache of server-task.h and server-task.cpp
--   Slots     server_slot and the scheduling of server_context_impl in core/src/server/server-context.cpp:
--             Select, Launch and Tasks hold the operations, the other children the proofs
--   Generate  process_token, has_budget and find_stopping_strings of server-context.cpp, and
--             validate_utf8 of server-common.cpp
--   Update    update_slots of server-context.cpp with the methods of server_slot that it calls, and
--             process_chunk of server-common.cpp; Round is the state of a round and its loops, and the
--             children named Paired prove what the operations keep
--   Floats    the floating-point numbers, a parameter
--   Base      lists, integers, tests and results of code that can fail
--   Examples  concrete data
--
-- Correspondence. A function of the model has the name of the C++ function, a record the fields of the
-- struct that the modelled code uses. A method that changes its object returns the new one. An exception or
-- a failed assertion is an error (Base.Error). A mutex that is held from the start to the end of an
-- operation makes the operation one step, and interleavings are lists of steps. Time is an argument. The
-- source's int identifiers are integers without overflow; slots.size() is reduced by the wrap-around of
-- size_t, and the sampling seed of a child by that of uint32_t.
--
-- Bounds. The loops of get_common_prefix and validate run on fuel, one more than the number of tokens. Each
-- round moves on by at least one place when every chunk fills a place, so this is enough, which the theorems
-- on them show. The loop of push_back over media runs on any fuel, which the theorem on it quantifies over.
-- The reuse of cached chunks runs on one round more than there are cached tokens. The decoding of a batch
-- runs on the number Decode.enough of calls; its result is none if that is used up, which a theorem excludes.
-- All other loops are structural recursions.
--
-- Not modelled: llama.cpp and mtmd, which are not part of the repository (what the code asks of them is a
-- field of Slots.Env, Generate.GenEnv, Update.UpdateEnv or Decode.Decoder), the metrics, the model router,
-- the HTTP routes, JSON, the probabilities of tokens, logging, and the Go programs.
pub mod Base
pub mod Tokens
pub mod Task
pub mod Lora
pub mod Queue
pub mod Response
pub mod Reader
pub mod Floats
pub mod Cache
pub mod Slots
pub mod Generate
pub mod Update
pub mod Examples
