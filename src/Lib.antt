-- ===== src/Lib.antt =====
-- A verification library for NetCCL, collective communication with aggregation in the switch.
--
-- The frontend (server/frontend/src/c) is a library in the training process and a daemon thread that
-- stages tensors in shared memory. Through a queue pair (server/common/common.hpp) it hands operations
-- to the backend (server/backend), where a load balancer cuts each operation into one part for every
-- worker and hands the parts over through further queue pairs. A worker cuts a part into packets,
-- sends them through a sliding window under congestion control, takes the aggregated answers from
-- the switch, copies them to the operation's buffer, and reports the part as done; when all workers
-- have, the load balancer reports the operation to the frontend.
--
-- Files and the code that they model:
--   Prelude         the library's names, Boolean tests, lists, Option as abort, w-bit arithmetic
--   Op              server/common/common.hpp: op_t, group_t, need_tx, need_rx
--   QueuePair       server/common/common.hpp: queue_pair_t, every operation. boost's spsc_queue is the
--                   record Spsc, with a bounded list as an instance (QueuePair/ListQueue)
--   CopyBuffer      server/frontend/src/c/common.hpp: copy_buffer_t
--   LoadBalancer    server/backend/load_balancer.cpp, sub_op_t of server/backend/common.hpp
--   Packet          server/backend/header.hpp, htobe of server/backend/net_utils.hpp, the word copies of
--                   server/backend/worker.cpp
--   Congestion      cc_t of server/backend/common.hpp, the arithmetic of adjust_rate. C++ double is
--                   the record Double, with fixed-point numbers as an instance
--   Window          window_t of server/backend/common.hpp; positions and get_position of worker.cpp
--   Frontend        server/frontend/src/c/api.cpp from create_op to post_collective_c, op_buffer_t and
--                   op_with_fut_t of server/frontend/src/c/common.hpp; Frontend/Collective is
--                   post_collective_c as a state machine
--   Daemon          server/frontend/src/c/daemon.cpp, with a log of its CUDA calls; Daemon/Run has its
--                   interleavings with the training process and the backend
--   ProcessBuffer   server/backend/process_buffer.hpp; the bursts of DPDK are the record Nic;
--                   ProcessBuffer/Linked fills the record Link of the worker with it
--   Worker          server/backend/worker.cpp: Worker/Receive from complete_pkt to rx_process, Worker/Send
--                   from fill_pkt to tx_process, Worker/Loop from adjust_rate to worker_loop; Worker/Stream
--                   has the invariant that ties the window, the queues and the numbering together, and
--                   the runs of a worker beside its load balancer and the network
--   Startup         server/backend/main.cpp and the helpers of server/backend/net_utils.hpp that it calls:
--                   Startup/Device, Cpus, Port and Flow are its steps, Startup/Launch is dpdk_init; the
--                   operating system and DPDK are the records Machine, Port and FlowApi
--   Backend         the load balancer and its workers together, from the state in which main.cpp leaves them:
--                   Backend/Run has their interleavings with the frontend and the network
--   ProcessBufferCopy server/backend/process_buffer_copy.hpp, which no other file includes
--   NetCcl          the daemon and the backend together, over the queue pair and the buffers that they share;
--                   NetCcl/Run has their interleavings with the training process and the network
-- The children of a module hold its proofs; a module called Tests evaluates the definitions on
-- concrete inputs and applies the theorems there.
--
-- State is passed explicitly: a function that changes members or thread-local variables returns the
-- new record. The result none is a failed assert (both builds keep asserts), a null pointer that is
-- followed, or a division by zero (of fill_pkt, on a part without slots of the aggregator). Unsigned arithmetic of 16, 32 and 64 bits is written with its wrap-around. Pointers are
-- addresses: operations are read in a memory of operations, and their data in a memory of bytes.
--
-- The loops of the worker over window positions run on fuel MAX_WIN_LEN: a position is a remainder
-- modulo MAX_WIN_LEN, so that a loop that goes from one position to another takes fewer steps. The
-- loop of shift_send runs on fuel MAX_PKT_BURST, since the length that it aims at is at most the
-- present length and MAX_PKT_BURST.
--
-- recv_all_resp runs on fuel QUEUE_SIZE + 1, more rounds than operations can be out, and the loop of
-- post_collective_c on one more than the number of full segments in the tensor.
--
-- flush and the wait of send run on fuel for the bursts that they wait, as long as the NIC makes them.
--
-- The loop of rx_process over arrivals has no bound in the code: it goes on while the NIC brings packets
-- faster than they are handled. Its argument is the list of what its calls of receive find, at most one
-- packet each, of any finite length; a call that finds none ends the loop, and the stop test on the
-- counts of buffered packets is a list that ends. That the loop ends is an assumption on the NIC, and
-- so is, in the worker's record Link, that a packet is sent once transmit is called.
--
-- The runs of a worker (Worker/Stream/Run) and of the backend (Backend/Run) are for operations of one
-- group, and so are those of NetCCL (NetCcl/Run). In the runs of the backend, of the daemon (Daemon/Run)
-- and of NetCCL a call of a thread's function is one step. The training process, there, posts
-- only at addresses and in elements that are not in use.
--
-- The runs of the staging buffer (CopyBuffer/Steps) and of the frontend (Frontend/Live) leave out a chunk
-- that ends exactly on the last byte of the buffer, which the code allocates, and after which it aborts
-- or releases the wrong bytes: CopyBuffer/Exact is about that case.
--
-- In the runs of a queue pair (QueuePair/History) the responder answers the requests in the order in
-- which it takes them.
--
-- Not modelled: logging and its formats, the command line, the ioctl and the file of /sys behind
-- get_pci_by_dev and get_socket_by_pci, sockets and shared memory, CUDA, Python, the P4 program of the
-- switch, and the vendored spdlog and argparse.
pub mod Prelude
pub mod Op
pub mod QueuePair
pub mod CopyBuffer
pub mod LoadBalancer
pub mod Packet
pub mod Congestion
pub mod Window
pub mod Worker
pub mod Frontend
pub mod Daemon
pub mod ProcessBuffer
pub mod Startup
pub mod ProcessBufferCopy
pub mod Backend
pub mod NetCcl
