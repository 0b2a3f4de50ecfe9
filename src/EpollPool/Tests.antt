-- ===== src/EpollPool/Tests.antt =====
-- Runs of practise/epoll_thread_model.c, and its theorems at some.
use learn_c_linux.Prelude.{◌+◌, ◌*◌, ◌≡◌, refl, true, false, List, [], ◌∷◌, ◌++◌, arith}
use learn_c_linux.Prelude.Int.{pos}
use learn_c_linux.Sys.{Answer, returned, refused, run, obeys}
use learn_c_linux.Sockets.{sockets, fresh_net, raw, recv, send}
use learn_c_linux.Sockets.Setup.{listening_socket}
use learn_c_linux.EpollPool.{server_handle, main}
use learn_c_linux.EpollPool.Obeys.{main-obeys-sockets}
use learn_c_linux.EpollPool.Events.{event}
use learn_c_linux.EpollPool.Frees.{Events, IsInside, Freed, main-frees_events}
use learn_c_linux.Pool.{
  task, Pool, ready, taken, look, take_task, threadpool_thread, put_task, threadpool_add_task,
}
use learn_c_linux.Pool.System.{System, work, submit, Reach, start, later}
use learn_c_linux.Pool.System.Safety.{IsFresh}

echo :
    run (server_handle (pos 5)) (record { res = pos 2; bytes = 8 ∷ 9 ∷ [] } ∷ refused ∷ [])
    ≡ (recv (pos 5) 1024, record { res = pos 2; bytes = 8 ∷ 9 ∷ [] })
      ∷ (send (pos 5) (raw (8 ∷ 9 ∷ [])) (pos 1024), refused)
      ∷ []
unfolding server_handle
echo = refl

-- The socket 3 and the epoll instance 4; the client 5 knocks, and then sends something.
abbrev one_client : List Answer
one_client =
    let ok = returned (pos 0) in
    returned (pos 3)
    ∷ ok
    ∷ ok
    ∷ returned (pos 4)
    ∷ ok
    ∷ ok
    ∷ event 3
    ∷ returned (pos 5)
    ∷ ok
    ∷ ok
    ∷ event 5
    ∷ ok
    ∷ []

main-obeys-sockets_example :
    obeys sockets fresh_net (run (main (λ i. 4096 + 12 * i) 3) one_client) ≡ true
unfolding main listening_socket
main-obeys-sockets_example = main-obeys-sockets (λ i. 4096 + 12 * i) 3 one_client refl

-- The client sends once more.
abbrev busy_client : List Answer
busy_client = one_client ++ (event 5 ∷ returned (pos 0) ∷ [])

-- A pool with one slot and one worker, which takes the first of two tasks and is in it when the second comes.
abbrev one_slot : Pool
one_slot = record {
  at = 100;
  threads_at = 200;
  queue_at = 300;
  threads = 1 ∷ [];
  admin_tid = 9;
  task_queue = task 0 0 ∷ [];
  min_thr_num = 1;
  max_thr_num = 1;
  live_thr_num = 1;
  busy_thr_num = 0;
  wait_exit_thr_num = 0;
  queue_front = 0;
  queue_rear = 0;
  queue_size = 0;
  queue_max_size = 1;
  shutdown = false;
  freed = [];
}

one_slot-IsFresh : IsFresh one_slot
one_slot-IsFresh = record { valid = omega arith; empty = refl; idle = refl; full = refl }

abbrev served : System
served = record {
  pool = record one_slot { task_queue = task 7 4096 ∷ []; queue_size = 1; freed = 4096 ∷ [] };
  pcs = taken (task 7 4096) ∷ [];
  failed = 0;
  submitted = task 7 4096 ∷ task 7 4096 ∷ [];
  dequeued = task 7 4096 ∷ [];
}

served-Reach : Reach one_slot served
unfolding threadpool_add_task put_task threadpool_thread look take_task
served-Reach =
    later (later (later (start 1 0 refl) (submit 7 4096 refl)) (work 0 {pc = ready} refl refl))
      (submit 7 4096 refl)

-- The array begins at 4092, and `data.fd` stands at 4 of the 12 bytes of an event.
abbrev events : Events
events = record { at = 4092; size = 12; offset = 4; there = omega arith; within = omega arith }

main-frees_events_example : Freed (IsInside events) 1 [] (4096 ∷ [])
unfolding main listening_socket
main-frees_events_example =
    main-frees_events events 4 busy_client one_slot-IsFresh served-Reach (omega arith) refl
      (omega arith)
