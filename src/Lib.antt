-- ===== src/Lib.antt =====
-- Verification of hev-lib, a C library of containers, allocators and an event loop.
--
-- Everything below src/ of the repository is one program part per file. What is modelled:
--
-- RingBuffer (src/hev-ring-buffer.c): `RingBuffer` is `struct _HevRingBuffer`; `new`, `ref`,
-- `unref` and `reset` are the functions of those names, `Reading` holds `hev_ring_buffer_reading`
-- and `hev_ring_buffer_read_finish`, `Writing` holds `hev_ring_buffer_writing` and
-- `hev_ring_buffer_write_finish`. Each of these four has three blocks in the source, for the read
-- position at the start, inside and at the end of the storage, and the model has a function for
-- each block. A failed `assert` is the result `aborted`. The storage is a function from offsets
-- to bytes, a region's base is its offset, and `size_t` sums are taken modulo 2 ^ 64. A null
-- `self` does nothing in `read_finish` and `write_finish`, and the model starts behind that test.
--
-- HashTable (src/hev-hash-table.c): `HashTable` is `struct _HevHashTable` without its function
-- pointers, which `Settings` holds. The arrays are lists, a null array is the empty one, and an
-- access outside an array is the result `fault`. `Hash` holds the hash functions, `Shift` the table
-- of primes and the sizes, `Probe` the search `hev_hash_table_lookup_node`, `Resize` the growing
-- and shrinking, `Update` the insertions and removals of one key, `Query` the lookups and walks,
-- with the list that two of them build by its items, `Sweep` what empties a table. A null table
-- does nothing, and but for `ref` and `size` the model starts behind that test. `Valid` holds the
-- invariant, `View` what a table maps a key to, `Search` the proof of the search, `Removing`,
-- `Forgetting`, `Deleting` and `Shrinking` those of a removal, `Storing`, `Putting`, `Filling`,
-- `Replacing` and `Inserting` those of an insertion, `Sizing`, `Vacancy`, `Moving`, `Carrying`,
-- `Bare` and `Resizing` those of a change of size, `Making` that of a new table, `Entries` and
-- `Walking` those of the walks. The search loop gets as many rounds as the table has places. The
-- calls of the destroy functions are recorded in their order. The hash function and equality for
-- `double` are not modelled.
--
-- SList (src/hev-slist.c): nodes lie in a memory, a function from addresses to nodes (`Memory`).
-- An access to what is no live node is the result `fault`, and a loop without rounds left is
-- `stuck`. What the allocator returns is an argument, 0 where it has no memory. `Chain` says
-- which nodes form a list, and the theorems are in `Adding`, `Removing`, `Sweeping` and
-- `Walking`.
--
-- Queue (src/hev-queue.c): a queue is its list and its counter, over the memory of SList. The
-- allocator of `Queue.Fifo` is a function of what memory holds.
--
-- Event (src/hev-event-loop.c, src/hev-event-source.c, src/hev-event-source-fd.h): `World` holds
-- the objects by their addresses and the calls of epoll_ctl and close so far; an access to what is
-- no live object, or past a block, is the result `fault`. What the kernel and the allocator return
-- and what the functions of the user do is an argument, `Outside`. `Fd`, `Source` and `Loop` hold
-- the functions of the three files. A list of src/hev-slist.c is here the list of its items. The
-- main loop gets a number of rounds, since it ends only by `quit` or by an error. `Order`,
-- `Changing` and `Gathering` prove the queue's order, `Joining` and `Leaving` what adding and
-- deleting a source does, `Misuse` two faults. `Devices` holds the sources for descriptors, idle
-- time, timeouts and signals (src/hev-event-source-fds.c, src/hev-event-source-idle.c,
-- src/hev-event-source-timeout.c, src/hev-event-source-signal.c), with the kernel's answers in
-- `Kernel`; their functions go by addresses, where `installed` has them called. `Dispatching` and
-- `Dismissing` prove what the first descriptor's turn in the main loop does, `Draining` and
-- `Arming` the turns of these sources, `Making` what their constructors come to. The system call
-- wrappers for Android are not modelled.
--
-- SliceAllocator (src/hev-memory-allocator-slice.c): `Allocator` is the struct with the headers of
-- the blocks that malloc gave. A block goes by the address of its header. `Valid` holds the
-- invariant, with the blocks of each list; `Requests`, `Releases` and `RoundTrip` prove what a
-- request and a release do, from the cases in `Blocks`, and `Ending` what `destroy` leaves.
--
-- MemoryAllocator (src/hev-memory-allocator.c): `World` holds the allocators by their addresses, the
-- blocks that malloc gave, the bytes, the static `default_allocator`, and what other files keep. A
-- handler is that of this file, or goes by a number. `Defaults` follows a request to the handler of
-- the default allocator, `Plain` proves requests where that is malloc and free, `Life` what
-- references and their end do, and `Sliced` fills in the handlers of SliceAllocator, where a pointer
-- that is handed out lies one header behind the address of its block.
--
-- AsyncQueue (src/hev-async-queue.c): threads that share a queue. `Pc` says where a thread stands
-- in `hev_async_queue_ref`, `_unref`, `_push` or `_pop`, `act` what it does next with the mutex,
-- and `Steps` interleaves the threads, with the mutex and the condition by what they allow: the
-- wait gives the mutex back and sleeps in one step, a signal wakes a sleeping thread if there is
-- one, and a thread may wake of itself. `pthread_mutex_lock` may fail, and what the condition and
-- the unlock return is not looked at. The queue is the list of its items. `Thinned` says which
-- items may be missing, `Items`, `Invariant`, `Trying`, `Keeping` and `Reached` hold the invariant,
-- `Safety` and `Progress` what follows of it. Fewer than 2 ^ 32 threads are taken, so
-- `waiting_threads` does not wrap around. `References` says which thread has how many references,
-- and which use of them is lawful; `Effects`, `Counted` and `Freed` prove when the queue is given
-- back.
--
-- LinkedList (src/hev-list.c): as SList, with nodes that are linked both ways. `Zipper` says which
-- nodes form a list, seen from a place in it, `Unlinking` takes out the node at that place and
-- `Linking` puts one in, `Removing` proves the removals, `Inserting` the insertions at a place
-- and `Freeing` the freeing. The other functions are modelled and tested only.
--
-- Not modelled: the demos, which are examples.
pub mod AsyncQueue
pub mod Base
pub mod Event
pub mod HashTable
pub mod LinkedList
pub mod MemoryAllocator
pub mod Queue
pub mod RingBuffer
pub mod SList
pub mod SliceAllocator
