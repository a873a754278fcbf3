-- ===== src/Lib.antt =====
-- Verification of the node replication library and the page table of a kernel.
--
-- The program has two halves. Under verified-node-replication/verified-node-replication/src, a
-- sequential data structure is replicated: threads put requests into slots, a flat combiner per
-- replica collects and answers them, replicas share a log, and a reader-writer lock guards each
-- replica's data. Under page-table, a four-level page table is a tree of directories that refines a
-- map from base addresses to entries, and a process sees it as virtual memory with map and unmap.
--
-- Each file names the code it is about; the files are
--   Prelude                       tests, lists, and maps with number keys
--   NodeReplication/FlatCombiner  spec/flat_combiner.rs: `Step` has a constructor per transition
--                                 (`combiner_collect_empty` to `recv_response`); Invariant, Safety
--                                 and Round hold the theorems
--   NodeReplication/RwLock        spec/rwlock.rs: `WriterStep` and `ReaderStep` have a constructor
--                                 per transition (`exc_start` to `exc_release`, `shared_start` to
--                                 `shared_release`); Guards, Invariant and Safety likewise
--   NodeReplication/Dispatch      src/lib.rs: the replicated data structure, as an interface of its
--                                 specification, and the labels of calls
--   NodeReplication/SimpleLog     spec/simple_log.rs: `Step` has a constructor per transition
--                                 (`readonly_start` to `no_op`), at a label; Prefix, Invariant and
--                                 Answers hold the theorems
--   NodeReplication/CyclicBuffer  spec/cyclicbuffer.rs: `Step` has a constructor per transition
--                                 (`reader_start` to `append_finish`, with two for `reader_abort`);
--                                 Invariant and Pointers hold the theorems
--   NodeReplication/UnboundedLog  spec/unbounded_log.rs: `TicketStep` is `add_ticket` and
--                                 `consume_stub` of lib.rs, `ReadonlyStep` and `UpdateStep` have a
--                                 constructor per transition (`readonly_version_upper_bound` to
--                                 `exec_finish_no_change`); Ranges and Invariant state the invariants,
--                                 and Preserved that steps keep them; Interp is `interp` of
--                                 spec/unbounded_log_refines_simplelog.rs, Refinement its theorem, and
--                                 Answers what follows for the answers
--   PageTable/Arch                page-table/definitions_t.rs: regions, entries, layers and the index
--                                 arithmetic of impl_u/indexing.rs and definitions_u.rs
--   PageTable/Contents            page-table/impl_u/l0.rs: the page table as a map
--   PageTable/Directory           page-table/impl_u/l1.rs: `resolve`, `map_frame` and `unmap` on a tree
--                                 of directories; Interp is `inv` and `interp`, and the other files
--                                 prove that the operations keep the invariant and refine Contents
--   PageTable/Hardware            page-table/spec_t/hardware.rs: the bits of an entry and its `view`;
--                                 Walk is `valid_pt_walk`
--   PageTable/Entry               page-table/impl_u/l2_impl.rs: how the implementation makes entries and
--                                 reads them; RoundTrip and Reading hold the theorems
--   PageTable/Memory              page-table/spec_t/mem.rs: the pages that hold the page table; Resolve is
--                                 `resolve` of impl_u/l2_impl.rs, and Agree and Missing its theorems;
--                                 Empty is `is_directory_empty`
--   PageTable/HlSpec              page-table/spec_t/hlspec.rs: what a process sees; Steps has one
--                                 relation per transition, and the other files hold the theorems
--
-- Numbers are the source's `nat`. A Verus map is a function into options, and a domain that the source
-- calls finite is bounded. A multiset is a list, from which a transition may take an element at any
-- place. The state machines are relations between states; the states that they reach are `Reach`, or
-- those to which a `Run` leads, which lists the labels of its steps. What a transition asserts is no premise; for the flat combiner and the lock it is proved of the
-- reachable states. Where a source function is arbitrary outside its precondition, the model has `none`,
-- or a value that no theorem uses.
--
-- The recursion of a directory's operations falls with the layers that are left, which is the fuel that
-- `resolve`, `map_frame` and `unmap` give. The theorems show that this is enough for a valid directory.
-- The width of a physical address is a field of `AbstractConstants`; the value protected by the lock,
-- the condition on it, and the replicated data structure (`Dispatch`) are parameters.
--
-- The size of the cyclic buffer is any number, where the source fixes it by a constant (`LOG_SIZE`).
--
-- A word of the page table is its bits. The number of physical address bits, which the source leaves
-- open, is a parameter, and the theorems that need it ask for its bounds (32 to 52). The lookup in
-- memory recurses on the layers that are left, of which `resolve` gives four.
--
-- Not modelled: the linearization of the abstract log, the executable code of the library (exec) with
-- its atomics and ghost tokens, of the page table in memory (impl_u/l2_impl.rs) the functions that
-- change it and its refinement of the tree of directories, the steps of the processor and the operating
-- system above it, the benchmarks, and the tools. Of the cyclic buffer, the invariants on its entries
-- and their bits are not yet stated.
pub mod Prelude
pub mod NodeReplication
pub mod PageTable
