-- ===== src/Lib.antt =====
-- ETCS, a C++ substrate that carries typed entities, their memory and their messages between modules.
--
-- The development models the parts of core/ that move bytes between producers and consumers, order the
-- events of a module, and read the lines of its scripts.
--   Base     shared names, lists, masks, maps, and the C library's memory functions.
--   Buffer   core/Buffer.h, TBuffer<N>. A buffer is a record of its array, its write extent and its
--            read offset; `write_raw` is writeRaw, `insert_string` and `extract_string` are the operators
--            << and >> on strings, and so on under the source's names; Numbers has those on numbers and
--            Booleans, and Reading shows that what was written is read back. A byte is a number. The
--            array is a list; Behind and BehindTokens have the operations with more memory behind it,
--            and History any calls in a row (Calls).
--   Ring     core/LMAXSequentialSharedPage.h, the ring of slots with many producers and one consumer.
--            Ring/Calls has each call run to its end with no other thread in between; Ring/Waiting has
--            the pauses of a spinning thread, and the sizes.
--   Stream   core/LMAXStream.h, the owner of a ring, against a bounded queue (Stream/Fifo).
--   Shared   core/SharedPage.h: SharedPage, whose `acquire_write` is also taken apart into its fetch_add
--            and its fetch_sub, and in Shared/Sequential SequentialSharedPage, a log of frames.
--   Arena    core/MemoryArena.h and core/ArenaAllocator.h: the bump allocator of one arena, its chunks,
--            its free lists and its destructor records. Where the bytes of a chunk come from is a
--            parameter: the pool of the global arena, or the operating system.
--   Gap      core/EventStream.h, GapReorderBuffer: the slots of the events in flight and what they wait
--            for; Tags is the TagMask of core/Bundles.h, as its words of 64 bits.
--   Events   core/EventStream.h, EventStream: the ordering loop, whose rounds are the steps of a relation
--            (Events/Reach). The derived stream's mask_for, on_event, on_emit and on_completion are
--            parameters (Handlers); what the two rings hold is an argument of each round.
--   Command  core/Command.h, the parser of a script's lines, parse_line, and the functions of `detail`. A
--            string is the list of its characters' codes, in the C locale; each message is a constructor
--            of an error type with the strings that it quotes.
--   Names    core/Command.h, the names that a script has bound: GlobalNames and ExecutionContext.
--   Flat     core/Bundles.h, FlatMap, over any keys with a strict weak order. Its array is a function of
--            the index up to the capacity; a write past that gives none, and what stands in a new array
--            before it is written is an argument.
--   Signals  core/SignalContext.h: who hears a flag (walk) and which flag a closure raises.
--   Scopes   core/Bundles.h, Scope: the calls in flight of an entity. Where the flag of a new entry lies
--            is an argument.
--   Rids     core/RIDList.h: the map of entities by RID with its cached view by order. An entity is the
--            address of an object, which changes in between the calls (Rids/Calls); std::stable_sort,
--            lower_bound and upper_bound are modelled by what they give on sorted ranges.
--   Mirror   core/MirrorBuffer.h, the two halves of a stream between entities: the pipe (Pipe), whose
--            frames are sent (Sending, Staging, Writes) and taken off (Receiving, Chunks, Delivery) and
--            arrive in order (Link, InOrder); the wrappers of core/InterfaceWire.h (Wraps, Unwrapped);
--            the pool of payloads behind a ring (Scratch, Overwrite); a half as text (Packing, Unpacked,
--            Copies); making, closing and tearing down a pair (Lifecycle, Closing); the streams of tokens
--            (Unframed). The operating system's write and read are lists of what their calls do, a wrapper
--            is a parameter, and a page of memory is known by its address.
--   Manifests core/Bundles.h, the comparison of two modules' manifests.
--   Pool     core/MemoryArena.h, the pool of the global arena: slabs, their pages, and the list of slabs with room. The
--            address that the operating system maps for a slab is an argument.
--
-- A size_t or a uint64_t is a number, and each operation on one that can wrap has its remainder by
-- 2 ^ 64 written out. The theorems ask for arrays shorter than 2 ^ 63 bytes, as C++ does, and for fewer
-- than 2 ^ 64 - 1 sequence numbers. An operation whose assert fails gives `none`. The walk of
-- tryAdvancePublisher runs on fuel, one round more than there are slots, which the walk of a quiet page
-- does not use up; consumeAll runs on fuel, and one round more than there are slots is enough.
-- The scan of SequentialSharedPage::acquireRead runs on one round more than the bytes that are written,
-- and a frame has a header of 32 bytes.
-- The sweeps of EventStream's service run on 129 rounds, one more than twice the slots, which
-- Events/Service shows to be enough; tail_seq_ moves at most as far as the events that were admitted.
-- The loops of flushStaged, fillAndCopyInto and emitWrapped run on the list of what the calls of the
-- operating system or the other threads do, and give none, or waiting, where the list is used up;
-- as many calls that move bytes as there are bytes are enough. Twenty digits are enough for 64 bits.
-- The binary search of FlatMap runs on one round more than there
-- are pairs. The sequence numbers of EventStream and the ids of Scope are counted without a wrap. In an arena sizes and addresses stay below 2 ^ 64; rounding up is
-- the source's mask on 64 bits. A page size or huge-page size that the constructor reads is an argument.
--
-- Not modelled: logging, the number formats other than decimal, the contexts of a pair of MirrorBuffers and the
-- resolution of its chain, the calls that spin
-- until another thread acts, the contents of an arena's memory, the running of destructors, the
-- threads and the stall reports of EventStream and its poll in the browser build, the executor of
-- commands, entities and their tags, the ontology, whose arithmetic is on floats, and the parts of
-- core/ that talk to the operating system, the dynamic loader or the network.
pub mod Arena
pub mod Base
pub mod Buffer
pub mod Command
pub mod Events
pub mod Flat
pub mod Gap
pub mod Manifests
pub mod Mirror
pub mod Names
pub mod Pool
pub mod Rids
pub mod Ring
pub mod Scopes
pub mod Shared
pub mod Signals
pub mod Stream
pub mod Tags
