-- ===== src/Lib.antt =====
-- A model of messaging-cells, a library for programs of cells that send each other missives across
-- the cores (workerus) of a machine and its host (the manageru), with theorems about it.
--
-- Binder: the intrusive circular lists of src/cells/binder.hh and binder.cpp. A heap holds the two
-- links of each address (Binder/Heap), the methods are functions on it under their names
-- (Binder/Ops), and Binder/Ring says which list of binders a grip stands for. The loops of
-- let_all_go and calc_size run on fuel; their theorems give how much is enough.
--
-- Kernel: class kernel of src/cells/cell.hh and src/cells/cell.cpp. Kernel/State has the state of
-- one kernel and of all of them, by workeru number; the lists of the kernel, which are rings of
-- binders in the code, are lists. Kernel/Calls is what handlers may call (missive::send, stop_sys)
-- and the pool of groups (do_acquire, release); Kernel/Handlers the dispatch of missives and the
-- kernel's own handler; Kernel/Receive process_signal and the loop over in_work; Kernel/Send
-- add_out_missive and the loops over local_work, out_work and sent_work; Kernel/Manageru the work
-- that goes through the manageru; Kernel/Round handle_missives, handle_stop and one round of
-- run_sys. The user's handlers are a parameter, a function from the user's state and a missive to a
-- new state and a list of calls. A run that aborts, faults or has too little fuel gives no state.
-- The loop over local_work takes fuel, since it need not end. Kernel/Idle is about the end of
-- run_sys, Kernel/Local about the loop over local_work, Kernel/Groups about the groups of missives
-- and their pool, Kernel/Mail about the slots and acknowledgements between workerus.
--
-- Link: the same transfers access by access, for kernels that run in parallel. Link/Pw0 has the steps
-- of up to 16 senders and of process_signal in their receiver, Link/Manageru those of
-- handle_work_to_workerus and handle_work_from_manageru. The accesses of one kernel take effect in
-- the order of the program: what weaker memory allows is not modelled.
--
-- Dimacs: the loader of DIMACS files in ben-jose-embryo/bj_manageru/dimacs/dimacs.cpp and dimacs.h.
-- Dimacs/Literals has the literals and class nid_bits, Dimacs/Clauses fix_lits, Dimacs/Three
-- three_lits with calc_f_lit_equal_or, append_rr_lits and add_lits, Dimacs/Equivalents
-- calc_f_lit_equal_and. Seen and Fixed are about fix_lits, Short and Equal about three_lits.
-- Dimacs/Reader has skip_whitespace, skip_line and parse_long of
-- ben-jose-embryo/bj_manageru/utils/parse_funcs.cpp and parse_clause; RoundTrip and ClauseText are
-- about reading back what is printed. A long that is read has 64 bits and wraps around, where the
-- language leaves overflow open; the literals of a loaded clause are numbers without bound, since the
-- reader has refused those above the declared count. The loops of three_lits and parse_clause run on
-- fuel, and more than the number of literals is enough.
--
-- Sornet: the sorting network of ben-jose-embryo/bj_manageru/cnf_preload/preload_sornet.cpp. Build has
-- all that makes nodes, under the names of the code, and Create create_sornet, with its end nodes and
-- the links to the network of create_ranknet, which is a value that it is given. The checks (PTD_CK)
-- are failures; ids stand for pointers to nodes. Play has a run of the network, where a node sends two
-- values on as sornet_srt_handler of ben-jose-embryo/bj_workeru/sornet.cpp. The recursion takes fuel,
-- as much as there are wires. Values, Bitonic, Cleaners and Sorts describe the network as a function
-- of the values and show that it sorts, Counts that it only moves them; Firing, Made, Chains, Node,
-- Pairs, Nets and Sorter lead from the nodes to that function, Pow2 is about the sizes, Ends about the
-- loops over the ends, and Whole has the results. The groups and colors of sornet_srt_handler, with
-- jump_to_srt_end, are not modelled. The log2 of the C library is a parameter, exact on powers of two.
--
-- RrArray: the ring of bytes for logs, src/cells/rr_array.c. Bytes has the loops over the bytes and
-- mc_crc16, Objects the operations. Ring and Stream are about bytes round the end of the data, Fifo
-- says which objects an array holds, Write, Read and Taken are about the operations and Full about
-- objects as long as the data. Clearing runs on fuel, one more than there are bytes.
--
-- Rows: the sorts of ben-jose-embryo/bj_manageru/utils/tools.h. Heap has the heap and the sorts under
-- their names; a row is a function of the index, objects are compared by a key. heapify runs on fuel,
-- one more than there are objects. Sift is about heapify, Sorting about build, Sorted about hsort and
-- pop_top, Insert about insert, Selec about selec_sort and mix_sort, and Tally counts the objects that
-- pass a test.
--
-- Common: Boolean tests, lists and address sets that the parts share. The modules named Tests run the
-- theorems on small inputs.
--
-- Debug code (PTD_CK, logs, flags of missives) is left out but in Sornet. Missives and references are
-- values, so their pools, and the memory that the pools take from the allocators, are not modelled.
-- Outside are also the loaders, the platforms, the generators in hlang and the rest of
-- ben-jose-embryo.
pub mod Common
pub mod Binder
pub mod Kernel
pub mod Link
pub mod Sornet
pub mod RrArray
pub mod Rows
pub mod Dimacs
