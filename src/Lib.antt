-- ===== src/Lib.antt =====
-- Verification of rate_adjusting_pcm_ring: a ring between one producer and one consumer of PCM samples,
-- which converts between two clocks, conceals losses and mutes intervals of the source.
--
-- The parts. The C functions of src/lib.rs check their arguments and call the ring. The producer publishes
-- samples, gaps and mute intervals into state that both endpoints reach; the consumer takes source samples
-- into its input workspace, has them converted by a separately built adapter, and renders from a cache of converted
-- samples, through the optional concealment, silencing what the mute history covers. A finite burst is
-- closed by a token whose outcome the consumer settles.
--
-- Which file models which part of the repository:
--   Float       the operations on f32 and f64 in use, as records of functions: parameters of the model
--   Common      names, Boolean tests, lists, machine words, signed integers, and the two cursors of a
--               ring buffer that count modulo twice its capacity
--   Mute        src/mute.rs: Types (Span, Stamp, Interval, Position), Mailbox (new, free, publish, pop,
--               reset), History (insert, muted, retire, clear); Mailbox/Refine, Mailbox/Proper,
--               History/Sorted, History/Coverage and History/Retired have the proofs
--   Plc         src/plc.rs: State (new, reset, blend, loss_gain), Pitch (detect_pitch), Wave
--               (smooth_cycle_tail, expand_cycle, substitution), Process (begin_loss, conceal, recover,
--               drain_sample, process); Bounds and Sound have the proofs
--   Adapter     src/samplerate_adapter.rs: from_descriptor, create_converter and the calls of a converter
--   Ring        src/ring.rs: State (the data, cursor_distance, available, consumer_take_source_sample),
--               Settings (validate), Create (create, observe), Finish (producer_finish, finish_status),
--               Producer (producer_push, producer_gap, producer_push_tagged, producer_mute) and Consumer:
--               Monad and Input (the input loop of refill_output), Refill (refill_output), Cache (positions,
--               ConsumerState::reset, record_shortfall), Finite (drain_finite, complete_finite), Render
--               (consumer_render_sample, consumer_render, consumer_reset); Ring/Interleaving has the atomic
--               steps of producer_publish and consumer_take_source_sample
--   Api         src/lib.rs: Codes (the C structures and result codes), Checks (checked_config, checked_input,
--               checked_spans), Create (ring_create), Producer, Consumer and Query (the C functions), Session
--               (calls of both endpoints on one handle)
--   Mute/Tests, Plc/Tests, Ring/Tests, Api/Tests   concrete runs of the theorems
--
-- State and operations. `Ring` of src/ring.rs is split into Shared, which both endpoints reach, and
-- ConsumerState, the consumer's cell; an operation takes the state and returns its result with the new
-- state. The early returns of refill_output are a state monad whose `stop` is a `return`.
--
-- Choices. Each call is one step, but in Ring/Interleaving, where a schedule says which endpoint takes its
-- next atomic step; memory is sequentially consistent there. A pointer of the C API is an Option, an array
-- behind one the list of what the caller lets be read, and an out pointer what is at it before and after; a
-- handle is the ring behind it. The target has 64-bit addresses. 128-bit source positions are unbounded
-- integers. 64-bit counters saturate as in the code, and the reset serial wraps. A VecDeque has the capacity that was
-- reserved. Whether an allocation succeeds is a parameter of create. The adapter's callbacks are
-- parameters over a type of handles. Loops are structural: the input loop makes exactly as many rounds as
-- samples are wanted, the drain of mutes at most 128, the retries of a finite tail at most
-- finite_refill_limit, as in the code, and a block as many as it has samples. partition_point is the
-- length of the prefix that satisfies the test. drain_finite without a concealment, which the code would
-- answer with a panic, completes the burst; a read out of range finds nothing. The
-- producer's atomic steps in Ring/Interleaving leave out the epoch, the finish gate, the stamps and the count of
-- discards, so they allow more than the code does.
--
-- Not modelled: the descriptor's function table and ring_destroy in src/lib.rs, the C header, the loading
-- of the adapter's shared object (its outcome is a parameter), Drop, the memory model's weaker orderings, the
-- interleaving inside the mute mailbox, the tests, packaging and tools. Floating-point arithmetic is not
-- interpreted.
pub mod Common
pub mod Float
pub mod Mute
pub mod Plc
pub mod Adapter
pub mod Ring
pub mod Api
