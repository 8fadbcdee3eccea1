-- ===== src/Lib.antt =====
-- The host side of the platform, verified: the TypeScript that runs wac programs, which is in
-- packages/platform/host, the host side of packages/stream, of the tools the one for mutation testing, and of the
-- test harness its pool.
--
-- A program runs in a worker that blocks on each host call; the host answers from an event loop. Two parts
-- of the host are pure transition functions that the source keeps apart from its scheduling, and they are
-- modelled whole:
--
-- - ByteQueue (packages/platform/host/queue.ts): the stream behind every pipe of a spawned program.
--   `apply` takes a state and one event (push, next, end, endWith) to a state and the effects that the
--   driver has to carry out; `join`, `releaseRoom` and `take` are its loops. Each loop is a recursion on the
--   list that it consumes, so there is no fuel. `take` stops after it has split a chunk, since the loop's
--   test then fails. ByteQueue/Driver is the class around it: promises are numbers, the two maps of resolvers
--   are the lists of the numbers in them, and a call of a resolver is recorded.
-- - ChildLife (packages/platform/host/childLife.ts): the life of a spawned program. `step` takes a state and
--   one of five events to a state and its effects; the local functions `settleLoaded` and `finish` pass the
--   locals `next` and `effects` along.
--
-- Two more parts are state that several callers share, modelled operation by operation, and one is a
-- classification:
--
-- - Bridge (packages/platform/host/layout.ts): the shared memory between a worker and the host. The
--   constants that place the control block and the payload buffers, the views of `bridgeOf`, the two pools of
--   buffers (`acquireBuf`, `releaseBuf`) and the handles in the slots (`attach`, `attached`, `detach`). The
--   control block is a function from an index to the integer there. An operation is one step: the pool's
--   scan, which exchanges one flag after another, is taken without another party's step in between.
-- - Schedule (packages/platform/host/schedule.ts): the class `Scheduler`, which decides in test runs which
--   completed answer is delivered next. `answer_ready`, `quiet` and `idle_fires` are its three entries (the
--   last is the timer's callback), `pump`, `choose` and `arm_idle` its private methods. Random numbers are
--   computed, by xorshift on 32-bit words.
-- - Faults (packages/platform/host/faults.ts, and `faultedMessage` of call.ts): the category of an error
--   (`faultOf`, `faultOfPath`, `pathFailure`, `statFault`) and the answers that carry it (`changeBytes`,
--   `faultedBytes`, `changed`). A thrown value is a record of what `faultOf` asks of it; the text encoder and
--   decoder of the runtime are parameters, and a message is a text of Unicode characters.
--
-- A slot of the ring is where the two sides meet:
--
-- - SlotRing (packages/platform/host/call.ts and respond.ts): one slot, between the worker and the host. A
--   scene holds the slot's cells and what each side keeps for it: the tickets in flight, the handlers that
--   run, the answers in the scheduler, and where each side stands in its operation. An action is one access
--   that the other side can tell apart (SlotRing/System), and a run is any list of actions, so that the two
--   sides interleave in every way. `cancel` is three actions, since its two stores are not one; so are `take`,
--   `reply` and `write` cut where the other side can step in. A generation is an Int32 that wraps, its 32 bits
--   a natural number. A request and an answer are in one piece there. SlotRing/Pieces is one call by itself,
--   with a payload and an answer of any length: the loop of `submit` and the joining in `take`, the splitting
--   in `write` and the loop of `collect`. The handler, and whether a pooled buffer is free, are parameters.
--   Every piece is part of what is left, so that as many turns as bytes are enough. SlotRing/Ring is the
--   search of `claim` over all the slots, without the message that it fails with. SlotRing/Shutdown is what
--   `failPending` does with each slot, and a turn of `waitAny`.
--
-- What a call carries, and who may make which, are modelled above it:
--
-- - Wire (packages/platform/host/provider.ts, and the payloads of children.ts, child.ts and deno.ts): bytes as the
--   two sides write and read them. Wire/Bytes has the integers and parts of a `Uint8Array`, with what a `DataView`
--   throws at and a negative bound means; Wire/Ticket the integer that a program holds for a ticket; Wire/Requests
--   the payloads that `cliOf` builds, Wire/Unpack the host's reading of them, and Wire/Answers the answers and how
--   the worker reads those. An array that the source fills part by part is the parts in order. A text is the list
--   of its UTF-16 units, and the runtime's encoder and decoder are parameters.
-- - ChildStack (packages/platform/host/child.ts): the programs that run inside a program, the innermost first.
-- - World (packages/platform/host/deno.ts): what a world is granted and what it grants on (`startChild`), in
--   World/Serve the handlers of the file system and the network up to the call of the runtime that they make, in
--   World/Channels those of a world's own streams and of the programs pushed inside of it, and in World/Handles
--   the tables of sockets, listeners, spawned programs and error streams, where a step is what a handler does to
--   them between two waits.
--
-- The streaming host is a part of its own:
--
-- - StreamRing (packages/stream/host/layout.ts, bridge.ts and worker.ts): `ring_write` and `ring_read` on a
--   ring of 2^16 bytes, a function from an index to a byte; and in StreamRing/Pipe the two loops of the
--   input direction, `feed` and `read`, a turn of which is a step. The stored head is an Int32, with its
--   wrap written out. `free_of` is exact as long as the head is at most `cap` before the tail. A turn
--   that cannot go on changes nothing. In StreamRing/Ending a load of `read` is a step by itself, and the end
--   and the abort of the stream are marks that the producer stores;
--   StreamRing/Wakes is how it sleeps and is woken, the count of events with its wrap at 2^32 included.
--
-- Of the repository's tools, the one that measures the tests is modelled:
--
-- - Mutate (tools/mutate.ts and tools/mutate/): Mutate/Functions finds a file's functions in its tokens,
--   Mutate/Literals and Mutate/Generate make the mutants (`generate`), Mutate/Edits applies one to the sources
--   (`applyEdits`), Mutate/Sample draws some of them (`sampleMutants`), Mutate/Select chooses the tests to run
--   (`planFor`, `byCost`, `filterFor`), Mutate/Locate finds the curated mutations (`locate`, `linesOf`), and
--   Mutate/Triage decides from the compiled bytes which mutants are run (`triage`), and what the results come
--   to (the exit code). A text is the list of its UTF-16 units. The wac lexer and the compiler are parameters,
--   and so is the order of the locale; what a token of the lexer is, the end of the file, strings and
--   characters included, is in Mutate/Faithful, after packages/wacc/test/lex.test.ts. The loop over the tokens
--   takes as many turns as there are tokens, since each moves on; the rounds of a sample of n are n + 1, since
--   each takes a mutant or is the last. The counts that `generate` reports, and all that the tool prints, are
--   left out.
--
-- InFlight (harness/inFlight.ts) is the pool that the test suites run their cases with: a turn is what one of its
-- workers does between two waits, and a run is any order of turns. The work on an item is a parameter, which may
-- fail. `watch` is modelled as the entries and counts that it keeps.
--
-- Base holds what the files share. Numbers of the source (identities, lengths, caps) are natural numbers
-- without a bound; bytes are numbers too, since no theorem depends on their range.
--
-- Not modelled: everything that waits, resolves promises or calls the runtime, and the wac packages, which
-- are written in another language.
pub mod Base
pub mod ByteQueue
pub mod ChildLife
pub mod Bridge
pub mod Schedule
pub mod StreamRing
pub mod Wire
pub mod World
pub mod InFlight
pub mod ChildStack
pub mod Faults
pub mod Mutate
pub mod SlotRing
