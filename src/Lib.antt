-- ===== src/Lib.antt =====
-- Models and proofs of the core of libsax, the C and C++ library of this repository, under
-- libsax/sax. Each part of the program is a module, and proofs are its child modules.
--
-- - Prelude: names of the standard library, Boolean tests, 32-bit sums, bits and list lemmas.
-- - Pool.Xslab: the extensible slab `g_xslab_*` of libsax/sax/mempool.c, the chain of its free blocks
--   and the counters that shrink it.
-- - Pool.Fsb: the fixed-size block pool `g_fsb_*` of libsax/sax/mempool.c, a ring of free identifiers
--   and a header before each block, with keys that outlive a block.
-- - Timer: the hierarchical timer wheel `g_timer_*` of libsax/sax/timer.c. Its nodes come from an
--   extensible slab, so it uses Pool.Xslab. A callback is a function from the node that fires to the
--   requests, starts and cancellations, that it makes.
-- - Buffer: the byte buffer of libsax/sax/net/buffer.h. Its pages come from the operating system: the
--   function that allocates them is a parameter.
-- - Htab: the chained hash table `g_htab_*` of libsax/sax/htab.c; the user's hash and equality
--   functions and the load limit (computed in floating point) are parameters.
-- - Strings: bounded copies, comparisons, base 64, URL encoding, trimming and wildcard
--   matching of libsax/sax/os_api.c.
-- - MtRand: the Mersenne Twister of libsax/sax/mt_rand.c. MtRand.Renew has the sequence of words that
--   the renewal of its state is compared with.
-- - Adler: the checksum of libsax/sax/adler32.c.
-- - Blowfish: the cipher of libsax/sax/blowfish.c, with its tables. Its blocks of bytes are read as
--   words the way a little-endian machine does, by the functions of Buffer.Numbers.
-- - Events: the event queue of libsax/sax/stage/event_queue.h, a ring of blocks. Events.Trace has its
--   producers and its consumer as steps, one operation at a time.
-- - Bsearch: the binary searches of libsax/sax/c++/bsearch.h, for elements that are natural numbers.
-- - Fifo: the bounded queue of libsax/sax/c++/fifo.h. Fifo.Trace has the parts of its calls as steps of
--   any number of threads.
-- - Linked: the chain of blocks of libsax/sax/net/linked_buffer.h. A block is named by the number of
--   blocks that came before it, which stands for its address. Linked.Valid gives it the abstract view
--   of Buffer.Valid; Linked.Pour is the `get` from one chain into another.
-- - Thrift: the binary protocol of libsax/sax/net/thrift_binary_protocol.h over the operations of
--   Buffer. What a variable holds that was not set is a parameter, a double is its 64 bits, and the
--   type of a field or an element is read as a signed byte.
--   Thrift.Value has the values of the protocol and their bytes on the wire.
--
-- Numbers are natural numbers and 32-bit arithmetic wraps by `% 2 ^ 32`. Memory faults, reads of
-- unset memory and failed assertions are the outer `none` of a result; what `malloc` and its kin
-- answer is an argument. Where a loop runs on fuel, `none` of the whole result is fuel that ran
-- out, and in Fifo it is a semaphore that cannot be passed now. Loops are structural recursions;
-- polling a timer runs on fuel, since a callback may add nodes to the ring that is served, and the
-- theorems give a bound from which on the fuel is enough. The loops of base 64 take the length of
-- the source as fuel, and use up at least one byte in each round; the same holds of URL decoding
-- and of the checksum. Wildcard matching runs on fuel too: its bound is a product of the lengths;
-- a binary search takes at most one turn for each element and one more. Reserving blocks in a
-- chain takes at most one turn for each byte that is missing. Skipping a value of the
-- protocol runs on fuel for its depth and its fields, and a value has fewer of both than bytes.
--
-- Not modelled: the page-based slab allocator of libsax/sax/mempool.c, command lines, wrappers of
-- the operating system (threads, files, sockets), the other hash functions, the sorting routine
-- (from the GNU C Library), the other containers in C++, the databases, the logger, the threads of the
-- stages and the memory order between them, and the third-party XML library.
pub mod Prelude
pub mod Pool
pub mod Timer
pub mod Buffer
pub mod Htab
pub mod Strings
pub mod MtRand
pub mod Adler
pub mod Blowfish
pub mod Events
pub mod Bsearch
pub mod Fifo
pub mod Thrift
pub mod Linked
