-- ===== src/Lib.antt =====
-- C programs of this repository: the benchmark client weighttp (weighttp-master/src), the message queue
-- of spserver (spserver-master/spserver/event_msgqueue.c), the memory pool, the tables and the order of
-- strings of ktap (ktap-master/runtime), the I/O monitor iotop (iotop-master/src), and the lists of the
-- file system ovlfs (ovlfs-2.0.1/lists). The five stand alone; they share only the helpers of Common.
--
-- weighttp reads its options (Weighttp/Options), puts the request together from the url and the headers
-- (Weighttp/Request), looks up the address (Weighttp/Resolve) and shares clients and requests out among
-- threads (Weighttp/Split), whose counters are added up at the end (Weighttp/Totals). Each thread runs a
-- worker (Weighttp/Pool: worker_new and worker_thread of worker.c), which launches its clients and then
-- runs an event loop. An event runs the state machine of one client (Weighttp/Machine:
-- client_state_machine, client_reset and client_connect of client.c), which calls the parser of responses
-- on each read (Weighttp/Parser: client_parse, in the parts Status, Headers and Chunks). Numbers from
-- text are in Weighttp/Number, the structs in Weighttp/Types.
--
-- The state machine is a step relation (Weighttp/Run): one step goes from one system call to the next,
-- and the result of the call is an argument of the step, so that a run stands for each behaviour of the
-- system. Its places are those of Pc. The only assumption on a system call is that read brings no more
-- bytes than it was asked for. A pool of clients steps by whole runs, since a thread runs one client at a
-- time. The names of functions are those of the source; on_ goes with a case of the state machine, and
-- _case with a case of the parser.
--
-- Msgqueue models the circular queue: pointers are numbers, and malloc is an argument that returns a
-- block or none. Msgqueue/Ring reads the array as a sequence of messages. Msgqueue/Events is
-- msgqueue_push and msgqueue_pop as a step relation: a push is one step, since it holds the lock, and the
-- loop of msgqueue_pop is a step for each test, since it gives the lock back around the callback. send
-- never fails there, and recv is called when there is a byte to read.
--
-- Ktap/Mempool models kp_mempool.c, and Ktap/Str kp_str_cmp of kp_str.c, whose loop has fuel for each
-- byte of the first string. Ktap/Tab models kp_tab.c: the nodes of the hash part are numbered, a key is
-- hashed to its main node, and a chain links the nodes of one main node (Get for the getters, Set for the
-- setters and kp_tab_newkey, New for new tables, Walk for the traversal). The strings that the
-- environment makes of events and stacks are arguments. The fuel of its loops is a bound on the length of
-- the chains, which grows by one at most with each new key (Chains, Rebuilt and the files beside them);
-- Refine compares getters and setters with a map.
--
-- iotop takes a sample in each round of its loop (Iotop/Loop: main of main.c): fetch_data of xxxid_info.c
-- (Iotop/Fetch) asks the generator of process numbers of utils.c (Iotop/Pids) for each process, whose
-- statistics come from the kernel, and drops those that filter1 refuses. The views compare the sample
-- with the last one (Iotop/Diff: create_diff, calc_total and humanize_val of views.c), sort the
-- differences (Iotop/Sort: sort_diff) and show priorities (Iotop/Prio: str_ioprio of ioprio.c). A chain
-- is a list, double is a parameter with its operations (Doubles in Iotop/Types), and directories and the
-- kernel's answers are arguments. The fuel of pidgen_next is the depth of its recursion, twice the names
-- in /proc and one, and that of the loop of main is its rounds.
--
-- Klist models kernel_lists.c for lists of the kind ABSTRACT: a node is a number in a memory of nodes, 0
-- the null pointer, and what an allocation returns is an argument of each call, a fresh node being one
-- that is not in the list (Klist/Insert: Memory). Klist/Sort is ssort, bsearch and __find_insert_pos,
-- which share the loop that halves a range; its fuel is one more than the elements, and each round takes
-- one off at least. Klist/Index is the primary index and its readers, Klist/Alt the additional indexes,
-- Klist/Insert and Klist/Remove the functions that change the chain, Klist/Whole those that go through a
-- whole list; the loops of remove_element and remove_node have fuel for each node. Klist/Chain and
-- Klist/Holds say what a list is, and Klist/Steps runs calls one after the other. Counts are taken to
-- stay below 2^31, which the memory for their nodes bounds.
--
-- Unsigned arithmetic wraps with % written out; signed fields are bit patterns (Common/Words). A buffer
-- is a function from offsets to bytes (Common/Bytes). strchr, strncmp, strtol and the like are written
-- after the C standard, as the source uses them. The loops of the parser run on fuel of 32768, the size
-- of the buffer, and give none if they use it up: each header line and each chunk takes some bytes of it,
-- but a chunk of 2^31 bytes or more can take the parser back, and then client_parse may call itself for
-- ever.
--
-- Not modelled: time stamps, printing, client_free and worker_free, the destruction of the message queue,
-- the netlink messages, options and output of iotop, of the lists of ovlfs the locks, insert_many,
-- clear_list and those of the kind USER_LIST, and the other programs of the repository (ab, the rest of
-- ktap and of ovlfs, overlayfs, the scripts and the C++ of spserver).
pub mod Common
pub mod Weighttp
pub mod Msgqueue
pub mod Ktap
pub mod Iotop
pub mod Klist
