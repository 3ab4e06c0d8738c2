-- ===== src/Lib.antt =====
-- Bug Museum: four memory-safety bug classes, each with single-function exhibits and one program that
-- contains the class in realistic surroundings.
--
-- Modelled are
--   * the machine: Memory/Fault (what a C statement does when its behaviour is undefined, as a value),
--     Memory/Bytes (buffers, memcpy, strcpy, strncpy), Memory/Heap (blocks, malloc, realloc, free),
--     Memory/Slots (a table of pointers under small numbers, and the number of those in use);
--   * the session store, use-after-free/capstone/src/sesscore/sesscore.c: Session/Types has its data
--     and the two globals, Session/Store one function for each of SessNew, SessOpen, SessGet,
--     SessUseRun, SessUseSet, SessUseAppend, SessClose, SessStat, SessDefer and SessFlush;
--     Session/Handlers is use-after-free/capstone/src/handlers. Session/Invariant and Session/Safety
--     say when a store is sound (table, count and ownership agree) and safe (in addition no dangling
--     pointer is kept), Session/Writes, Uses, Opens, Closes and Batch treat the operations, Moved the
--     appends that go wrong, Outlived the deferred writes into a closed session, and Session/Steps
--     sequences of calls;
--   * the session server, use-after-free/capstone/src/sessiond/sessiond.c: Session/Server has the
--     handlers, Session/Cached the session that a connection caches, Session/Connection serve, which
--     Session/Ends is about; and the replay tool, use-after-free/capstone/src/sessreplay/sessreplay.c: Session/Replay;
--   * the job store of the print spooler, double-free/capstone/src/spoolcore: Spool/Types has the job and
--     the table, Spool/Queue the ready queue (enqueue, JobDequeue, unlink_queue), Spool/Store SpoolNew,
--     JobSubmit, JobGet, JobRetire and free_job, Spool/Jobs JobRender, JobAppend, JobCancel, JobRecycle,
--     JobDup, JobStatus, JobWork and JobFlush. Spool/Linked and Spool/Order read the queue as a list,
--     Spool/Owned says which blocks a job has of its own, Spool/Pump and Spool/Flush follow the render
--     pump, Spool/Doubles, Spool/Consumed, Spool/Shared (JobDup) and Spool/TextFilter the calls that free
--     a block twice. Spool/View is the abstract store, a finite map from job numbers to a state, a filter and a document, and Spool/Invariant says
--     when a store stands for such a map; Spool/Relinked, Removes, Grows and Links treat a change of the
--     queue, of the table and of the heap in general, and Spool/Retires, Resolves (JobGet, JobRender,
--     JobStatus), Drains (JobFlush), Edits (JobCancel), Appends, Fresh, Submits and Dups the operations.
--     Spool/Calls has sequences of calls and the conditions on them, Spool/Refines their effect on the
--     map, Spool/Printed what is printed of a submitted document;
--   * its filters, double-free/capstone/src/filters: Spool/Filters; its server, spoold/spoold.c:
--     Spool/Server, with Spool/Remote for what a network client can do, and Spool/Served and Spool/Clients
--     for a connection against the finite map; its batch tool, spoolc/spoolc.c:
--     Spool/Replay;
--   * what these servers and tools share: Wire/Read (conn_read_full), Wire/Request (the eight header
--     bytes of common/protocol.h), Wire/Serve and Wire/Ends (the loop over the requests of a
--     connection), Wire/Replay (the loop over the records of a file);
--   * the cache, heap-overflow/capstone/src: Cache/Types and Cache/Store are cachecore/cachecore.c,
--     Cache/Codecs the codecs, Cache/Server is cached/cached.c, Cache/Load cacheload/cacheload.c;
--     Cache/Inserts treats CacheSet, Cache/Snapshots the identifiers of a snapshot;
--   * the configuration engine, stack-overflow/capstone/src/cfgcore/cfgcore.c, and its service,
--     stack-overflow/capstone/src/cfgsvcd/cfgsvcd.c: Config/Types has the entries, Config/Parse
--     CfgParseBlob, Config/Query CfgAdd, CfgLookup, CfgFormatLabel, CfgExpandTemplate and
--     CfgReadBlobInline, Config/Service CfgMerge and the service's peek_first_blob, handlers and
--     serve. Config/Encode is a printer for the format of common/cprof.h and the round trip,
--     Config/Bounds treats the fixed buffers, with Config/Strings, Lookups (find_entry) and Templates
--     (the loop of CfgExpandTemplate), Config/Push the pushes of well-formed bundles.
--     Config/Registry is providers/provider_reg.c, Config/Listing cfgapply/cfgapply.c and
--     regimport/regimport.c, Config/Providers providers/provider_env.c, provider_file.c and CfgOpenFile;
--   * the exhibits, the function `vuln` of <class>/variant-*/src.c: Exhibit/StackOverflow,
--     HeapOverflow, UseAfterFree, Dangling (variants 04 and 07 of the class) and DoubleFree.
-- The servers and the replay tools call the stores' functions, each through a table or a switch over the
-- operation; the session server also uses the session that a pipe connection has cached. The stores
-- call the handlers, filters and codecs. The configuration service calls the engine through
-- CfgParseBlob, CfgLookup, CfgMerge, CfgExpandTemplate and CfgReadBlobInline.
--
-- State is passed explicitly. A heap is a function from addresses to cells; address 0 is NULL. A fault
-- ends a run, as undefined behaviour does. An address is given out once, so that a dangling pointer
-- stays dangling; a real allocator may reuse it, which the model leaves out. Which requests malloc and
-- realloc grant, whether realloc moves a block, and what a fresh block holds are functions of the
-- request's number: parameters of the heap, and a theorem holds for all of them but where it names the ones it is about. An argument and its
-- length are one list; numbers are natural, with 32-bit sums written as `% 2 ^ 32` where the source
-- can wrap. Loops recur on the rounds left (256 slots, 17 bytes, 64 batch entries) or on the list that
-- they run through. The template loop has the length of the template as fuel: every round but the
-- last moves the cursor. The loops of the job store over its queue have one round more than blocks have
-- been requested, which is more than the jobs of a queue without cycles; on a queue with a cycle, where
-- the code would not end, the model gives the fault `no_end`. The loop of a connection has one round
-- more than bytes are sent, and a request takes eight of them. How recv splits the bytes of a
-- connection is a parameter, with what is documented of recv as a hypothesis; what a peer sends before it
-- closes is a list. _atoi64 is a parameter, the bit pattern of its result; _strdup in CfgMerge, which the
-- code does not test, is taken to succeed, and so is the calloc of the session and job tables. The
-- blocks of the cache each belong to one entry and are values.
--
-- Not modelled: SessTableFree, SpoolTableFree, CacheFree and CfgFree, which drop what is a value here;
-- sockets, pipes, threads, opening files and the loading of plugins, which are system calls; the
-- decompiler listings and build scripts.
mod Base
pub mod Memory
pub mod Text
pub mod Wire
pub mod Session
pub mod Cache
pub mod Config
pub mod Spool
pub mod Exhibit
