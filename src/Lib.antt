-- ===== src/Lib.antt =====
-- A verification of the programs of this repository: small C programs on Linux, mostly one to a file.
-- Each program that keeps a state of its own has a module here; its child modules hold the proofs, and
-- its child Tests the runs at concrete inputs. Prelude.antt passes on the shared names: tests on numbers,
-- lists with numeric indices, results of computations that may fail (Yields), sums over a list, signed
-- integers (Prelude/Int.antt) and the laws of the bit operations (Prelude/Bits.antt).
--
-- Pool.antt, Pool/: practise/thread_pool.c and thread_pool.h.
--   Pool is the struct threadpool_t, with the ring of tasks and the array of thread ids. A worker stands at
--   a Pc, and threadpool_thread is one critical section of it; threadpool_add_task, threadpool_create and
--   threadpool_destroy are whole functions; Pool/Admin.antt has the two halves of admin_thread. In
--   Pool/System.antt workers, clients, the admin thread and the closing of the pool take turns in any
--   order, a critical section at a time, and any pthread_create may fail. threadpool_free and
--   threadpool_destroy give the list of what they do; to use a lock that is not initialised is undefined.
--   malloc, the outcome of the initialisation of the locks, what pthread_create writes and pthread_kill come
--   in as arguments (Alloc, tid, kill). Printing, sleeping and failures of the locks after their
--   initialisation are left out.
-- QuickSort.antt, QuickSort/: learn_c/quick_sort.c.
--   exchange_value and sort on a list of ints. none is an access outside the array, an overflow of an index
--   sum, or no fuel: each loop has the array's length as fuel, plus 2 for the outer loop of a partition,
--   and sort has as fuel the depth of its calls, for which right - left + 1 is enough.
-- Crc.antt, Crc/: socket/socket_raw/CRC.c.
--   InvertUint8, InvertUint16 and CRC16_MODBUS, on numbers with the wrap-around of the C types.
-- Ping.antt, Ping/: socket/socket_raw/ping.c.
--   The table of packets, one round of icmp_send and of icmp_recv with icmp_unpack, icmp_findpacket,
--   icmp_tvsub, icmp_pack (which calls CRC16_MODBUS), the signal handler and the statistics. The clock,
--   the value of sendto, the fields of a received message and the layout of struct icmp are arguments. A
--   round of a thread is modelled as it runs while the other thread leaves the table alone; the races between
--   the two, which no lock prevents, are left out. In Ping/Start.antt the calls of main.
-- Nodes.antt, Nodes/: the heap of nodes that the next two share, and the lists on it.
-- LinkList.antt, LinkList/: practise/link_list.c and link_list.h.
--   The functions on a heap of nodes, where none is a bad access or no fuel; a list with n nodes behind its
--   header needs n + 1.
-- Contacts.antt, Contacts/: practise/contacts.c.
--   The operations on such a heap, with the sizes of the two arrays; the same fuel, and one more for
--   displayPerson. Contacts/Menu.antt is the loop of main, with the texts typed and the results of malloc
--   as arguments; Contacts/Book.antt what it means, on a list of contacts.
-- SelectServer.antt, SelectServer/: socket/io_model/select.c.
--   The table fds and the loop of main, with server_handle and max_client; what select, recv and accept report
--   are arguments. In SelectServer/SetUp.antt the calls before the loop.
-- Sys.antt, Sys/: a program as a tree of system calls, for the programs whose work is done by the kernel.
--   A kernel is a list of answers, one for each call, or, where it has to look at the call, a function with a
--   state (run_on). A Protocol says which calls are allowed in which state
--   and which answers are honest; Sys/Rule.antt has the rules by which a program is shown to keep to one, and
--   Sys/Depth.antt those by which it is shown to return. Loops
--   that never end are followed for a number of rounds, an argument, and cut stands for what comes then; a
--   theorem about them is for every number of rounds.
-- Sockets.antt, Sockets/: the calls of the socket programs and what each wants of its descriptor, the sizes of
--   buffers as a protocol (Sockets/Limits.antt), and the way to a bound or a listening socket that the servers
--   share (Sockets/Setup.antt), where main returns -1 on each failure.
-- TcpServer.antt, TcpServer/: socket/exmaple/TCP/server.c. Clients.antt, Clients/: socket/exmaple/TCP/client.c, and
--   in Clients/IoModel.antt socket/io_model/client.c, in Clients/Chat.antt practise/chat/client.c.
--   All functions. A child that comes back from server_handle goes on in the loop of its parent, as in C.
-- Epoll.antt, Epoll/: socket/io_model/epoll.c. EpollPool.antt, EpollPool/: practise/epoll_thread_model.c.
-- SocketOptions.antt, SocketOptions/: socket/socket_opt/example.c.
--   All functions. The events of one epoll_wait are the descriptors in its answer; set_no_blocking, two calls
--   of fcntl, is one call here, and threadpool_add_task is a call with the address of its argument. What
--   epoll.c receives comes with all that readbuf then holds, since it is not cleared.
--   EpollPool/Frees.antt puts main together with the system of Pool/.
-- BufferSizes.antt, BufferSizes/: socket/socket_opt/cache_area.c, with the address of optlen, which it passes
--   as a length, as an argument. Arp.antt, Arp/: socket/spread_method/arp.c.
--   All functions, over calls of their own; the frame of arp.c is an array of bytes.
-- ByteOrder.antt, ByteOrder/: socket/byte_order.c. UnixSocket.antt, UnixSocket/: socket/UNIX_socket/main.c.
-- Chat.antt, Chat/: practise/chat/server.c.
--   The array of clients in the shared memory, push_fd, which fills it, and the loop that reads it; in
--   Chat/Server.antt the processes. What a process finds in the shared memory, which the others change, is an
--   argument for each message.
-- ThreadServer.antt, ThreadServer/: practise/chat/thread_server.c.
--   The slots of the clients, the loop of main, and a round of a client's thread, with the results of accept,
--   pthread_create and read as arguments; none is an access outside the slots. In ThreadServer/Process.antt the
--   calls of main.
-- Udp.antt, Udp/: socket/exmaple/UDP (Echo.antt, Client.antt) and socket/spread_method (Finder.antt is
--   server.c, Broadcast.antt broadcast.c).
-- Semaphores.antt, Semaphores/: process/communication/sem/main.c. SharedMemory.antt, SharedMemory/:
--   process/communication/share_mem/main.c. Messages.antt, Messages/: process/communication/msg/msg.c.
--   All functions, over the calls of System V; what the manual pages say that the calls return is in
--   Semaphores/Kernel.antt and Messages/Kernel.antt, and a hypothesis of the theorems.
-- Files.antt, Files/: linux_file/read_file.c (Read.antt), mmap.c (Mapped.antt), write_file.c (Append.antt), fcntl.c
--   (Flags.antt), open_file.c (Opened.antt) and lseek_file.c (Seek.antt), and, from process/communication/pipe, pipe.c
--   (Pipe.antt), pipe_buf_test.c (PipeBuf.antt), read_clog.c (Clog.antt) and get_pipe_buf.c (PipeSize.antt).
-- TwoSum.antt, TwoSum/: test.c.
--   twoSum, where none is an access outside the array, an overflow of a sum, or a write through a null pointer.
-- Functions.antt, Functions/: return_func.c, func_point.c, swap.c and variable_arg.c of learn_c/function.
-- Growing.antt, Growing/: learn_c/memory/init_memory.c.
-- Processes.antt, Processes/: process/create_process/create.c and process/communication/signal/main.c.
-- ThreadJoin.antt, ThreadJoin/: thread/example.c.
--   The thread and main, as steps, and schedules of them.
-- ThreadLock.antt, ThreadLock/: thread/thread_lock.c. ThreadSem.antt, ThreadSem/: thread/thread_sem.c.
--   Two threads each, as step relations: with a mutex, where ++ and -- are a read and a write, and with a
--   semaphore.
--
-- Not modelled: the programs that only show a system call or a construct of C (execve, system and FIFO, the rest of
-- linux_file and of learn_c, the build examples): they have no state of their own beyond a call's result.
pub mod Prelude
pub mod Sys
pub mod Sockets
pub mod TcpServer
pub mod Pool
pub mod QuickSort
pub mod Crc
pub mod Ping
pub mod Nodes
pub mod Functions
pub mod Growing
pub mod LinkList
pub mod Contacts
pub mod SelectServer
pub mod ThreadJoin
pub mod ThreadLock
pub mod ThreadSem
pub mod Epoll
pub mod Clients
pub mod SocketOptions
pub mod EpollPool
pub mod Arp
pub mod BufferSizes
pub mod ByteOrder
pub mod Chat
pub mod ThreadServer
pub mod Semaphores
pub mod SharedMemory
pub mod Messages
pub mod Udp
pub mod UnixSocket
pub mod Files
pub mod Processes
pub mod TwoSum
