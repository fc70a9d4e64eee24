-- ===== src/Lib.antt =====
-- The programs of a computer systems course repository: bit puzzles, a cache simulator, a matrix
-- transpose, a queue, the memory allocator, and a small shell.
--
-- Parts and files:
--
-- * CacheSim models lab4-cachelab4-qinlinj/csim.c. `access_data` there is `access_data` here, in
--   three pieces: the search loop (`scan`), the three cases (`access_found`) and `lru++` on the
--   set (`tick`). `process_trace_file` takes the lines of the trace as `sscanf` reads them,
--   `simulate` and `run_main` are the end of `main`. CacheSim/Scan and CacheSim/Recency hold the
--   proofs about one set, CacheSim/Trace and CacheSim/Counts those about a run, CacheSim/Address
--   those about addresses.
-- * Tsh models the shell of lab6-shelllab6-qinlinj. Tsh/State is the state of the process (the
--   static variables of tsh_helper.c, the signal mask, what the shell has printed and sent) and
--   the monad of its functions: a run returns, aborts, exits or sleeps for ever. Tsh/Jobs is the
--   job list of tsh_helper.c, Tsh/Parse its `parseline`, Tsh/Shell is tsh.c: `eval`, the builtins,
--   the handlers and the wait for the foreground job. The names are those of the source; `reap` is
--   a round of `sigchld_handler`, `forward` the body of `sigint_handler` and `sigtstp_handler`,
--   and `exists_in`, `find_from` and `maxjid_loop` are the loops of `job_exists`, `fg_job`,
--   `job_from_pid` and `maxjid`. Tsh/Contract states what the operations of the list promise.
--
-- * Queue models lab0-cprogramminglab0-qinlinj/queue.c: `queue_t` and its list elements on a heap
--   that counts its allocations and whose `malloc` may fail. `new_element` is the two allocations
--   of an insertion, `link_head`, `link_tail` and `unlink_head` the writes to the queue.
-- * Trans models lab4-cachelab4-qinlinj/trans.c: each loop is `for_loop`, the three outer loops of
--   the blocked transposes are `for_blocks`, and a row of a block is `row_32` or `row_1024`.
-- * Puzzles models the puzzles of lab1-datalab1-qinlinj/bits.c that shift and add, on 64-bit
--   words.
-- * Mm models the short helper functions of lab5-malloclab5-qinlinj/mm.c: header words, the
--   addresses of footers and neighbours, `write_block` and the class of a size. Mm/Lists models
--   `insert_block_LIFO` and `fix_free_list` on memory and the first blocks of the lists.
-- * Mm/Alloc models the rest of mm.c on the same memory: `coalesce_block` with its four cases,
--   `split_block`, `find_fit`, `extend_heap`, `mm_init`, `malloc`, `free`, `realloc` and `calloc`.
--   The pieces of a function carry their own names: `split_two` and `take_whole` are the branches
--   of `split_block`, `extended` what `extend_heap` does with new space, `find_or_extend` the
--   search of `malloc`, `free_block` the body of `free`. Mm/Copy is `memcpy` and `memset` on
--   words. Mm/Memlib models the break of lab5-malloclab5-qinlinj/memlib.c. Mm/Layout relates
--   memory to a list of blocks, each with its size, whether it is allocated and whether it is in a
--   free list; its children prove what each operation does to that list. Mm/Contract is the
--   client's view, the list of the allocated blocks by address and size: `Represents` says that a
--   state of the allocator has that list, and Mm/Contract/Calls follows a sequence of calls
--   (`Reached`) with the addresses that the client holds. Mm/Check models the heap checker of
--   mm.c.
--
-- Interaction: `eval` parses a line, blocks signals, and changes the job list; the handlers change
-- the same list. The functions of the list check that the three signals are blocked, so in the
-- model a handler runs where the source lets it: at `sigsuspend`. What arrives there is a list in
-- the state, each element a signal with the children that `waitpid` reports to it.
--
-- Numbers and bounds: counters of csim.c wrap at 2 ^ 64; the shifts of csim.c are taken with s + b
-- below 64 and b below 31, where they are division and powers of two. The loop of `parseline` runs
-- on fuel, one more than the bytes of the line, which is proved to be enough; the loops of
-- `queue_reverse` and `queue_free` run on one more than the size of the queue, which is enough as
-- well, and the loop of `find_seg_list_class` on 60 rounds. Its shift wraps at 2 ^ 64: up to a
-- size of 2 ^ 63 it ends before that, and above it does not end in the source, so that requests
-- are taken up to 2 ^ 63 - 8 bytes. A walk through a free list runs on `rounds`: the largest
-- address of the heap is below 16 * rounds, so that no list is longer. Addresses of the heap are
-- below 2 ^ 63. The allocator's memory is a function from addresses to words: it reads and writes
-- words at multiples of 8 only, and `memcpy` and `memset` write whole words and then the first
-- bytes of one. Job numbers and process ids do not overflow: the list has 64 slots.
--
-- Not modelled: option parsing, the child's side of `fork` (it only calls the system),
-- `sigaction`, the printed text of verbose runs, the registration of the transposes, and the other
-- labs. Matrices are functions of any row and column, so accesses outside them are not told apart.
-- The debugging output and assertions of mm.c, and the emulated sparse memory of memlib.c, are
-- left out. `mprotect` and the page size are arguments of the allocator. `fork`, `open`, `waitpid`
-- and `write` are not under the repository: their results are arguments, and what the shell relies
-- on are hypotheses of the theorems, that a child has a positive process id which no job has, and
-- that a stop is reported of a child that has a job.
pub mod Base
pub mod CacheSim
pub mod Mm
pub mod Puzzles
pub mod Queue
pub mod Trans
pub mod Tsh
