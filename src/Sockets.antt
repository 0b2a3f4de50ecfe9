-- ===== src/Sockets.antt =====
-- The system calls of the socket programs, and the order in which a program may make them: what each call
-- wants of its descriptor, as the manual pages of the calls say.
pub mod Setup
pub mod Limits
use learn_c_linux.Prelude.{
  ℕ, ◌≡◌, Bool, true, false, not, ◌&&◌, ◌||◌, ◌==◌, leb, if◌then◌else◌, List, [], ◌∷◌,
}
use learn_c_linux.Prelude.Int.{ℤ, pos, negsuc, ltb_ℤ}
use learn_c_linux.Sys.{Answer, Protocol}

-- What is sent: bytes as they were received, a text that `sprintf` makes of a number or of a number and a
-- string, or a fixed text.
pub data Text : Type 0 where
  raw : List ℕ → Text
  report : ℤ → Text
  from : ℤ → List ℕ → Text
  fixed : Text

-- The last argument of `recv` and `recvfrom` is the size that is asked for, that of `send` and `sendto` the
-- size that is given. `read` and `write` on a socket count as `recv` and `send`. `add_task` is the call of
-- `threadpool_add_task` with an address as the task's argument.
pub data SocketCall : Type 0 where
  socket : SocketCall
  setsockopt : ℤ → SocketCall
  bind : ℤ → SocketCall
  listen : ℤ → ℕ → SocketCall
  accept : ℤ → SocketCall
  connect : ℤ → SocketCall
  recv : ℤ → ℕ → SocketCall
  send : ℤ → Text → ℤ → SocketCall
  recvfrom : ℤ → ℕ → SocketCall
  sendto : ℤ → Text → ℤ → SocketCall
  close : ℤ → SocketCall
  fork : SocketCall
  pthread_create : ℤ → SocketCall
  set_nonblock : ℤ → SocketCall
  epoll_create : ℕ → SocketCall
  epoll_add : ℤ → ℤ → Bool → SocketCall
  epoll_wait : ℤ → ℕ → SocketCall
  add_task : ℕ → SocketCall
  ioctl : ℤ → SocketCall
  unlink : SocketCall

pub data Status : Type 0 where
  closed : Status
  created : Status
  bound : Status
  listening : Status
  connected : Status
  polling : Status

abbrev pub Net : Type 0
Net = ℕ → Status

abbrev pub status : Net → ℤ → Status
status net (pos n) = net n
status net (negsuc n) = closed

abbrev pub put : Net → ℤ → Status → Net
put net (pos n) s k = if k == n then s else net k
put net (negsuc n) s k = net k

abbrev pub is_closed : Status → Bool
is_closed closed = true
is_closed _ = false

abbrev pub is_created : Status → Bool
is_created created = true
is_created _ = false

abbrev pub is_bound : Status → Bool
is_bound bound = true
is_bound _ = false

abbrev pub is_listening : Status → Bool
is_listening listening = true
is_listening _ = false

abbrev pub is_connected : Status → Bool
is_connected connected = true
is_connected _ = false

abbrev pub is_polling : Status → Bool
is_polling polling = true
is_polling _ = false

abbrev pub is_open : Net → ℤ → Bool
is_open net fd = not (is_closed (status net fd))

-- Whether the call may be made: the descriptor is open and in the state that the call is for, and a size
-- is not negative.
abbrev pub allows_call : Net → SocketCall → Bool
allows_call net socket = true
allows_call net (setsockopt fd) = is_open net fd
allows_call net (bind fd) = is_created (status net fd)
allows_call net (listen fd n) = is_bound (status net fd)
allows_call net (accept fd) = is_listening (status net fd)
allows_call net (connect fd) = is_created (status net fd)
allows_call net (recv fd n) = is_connected (status net fd)
allows_call net (send fd t n) = is_connected (status net fd) && not (ltb_ℤ n (pos 0))
allows_call net (recvfrom fd n) = is_bound (status net fd) || is_created (status net fd)
allows_call net (sendto fd t n) =
    (is_bound (status net fd) || is_created (status net fd)) && not (ltb_ℤ n (pos 0))
allows_call net (close fd) = is_open net fd
allows_call net fork = true
allows_call net (pthread_create fd) = true
allows_call net (set_nonblock fd) = is_open net fd
allows_call net (epoll_create n) = true
allows_call net (epoll_add ep fd et) = is_polling (status net ep) && is_open net fd
allows_call net (epoll_wait ep n) = is_polling (status net ep)
allows_call net (add_task arg) = true
allows_call net (ioctl fd) = is_open net fd
allows_call net unlink = true

abbrev pub put_if_done : Net → ℤ → Status → ℤ → Net
put_if_done net fd s (pos n) = put net fd s
put_if_done net fd s (negsuc n) = net

abbrev pub after_call : Net → SocketCall → Answer → Net
after_call net socket a = put net a.res created
after_call net (bind fd) a = put_if_done net fd bound a.res
after_call net (listen fd n) a = put_if_done net fd listening a.res
after_call net (accept fd) a = put net a.res connected
after_call net (connect fd) a = put_if_done net fd connected a.res
after_call net (close fd) a = put net fd closed
after_call net (epoll_create n) a = put net a.res polling
after_call net _ a = net

abbrev is_new : Net → ℤ → Bool
is_new net (pos n) = is_closed (net n)
is_new net (negsuc n) = true

-- A descriptor that the kernel returns was not open before.
abbrev pub honest_answer : Net → SocketCall → Answer → Bool
honest_answer net socket a = is_new net a.res
honest_answer net (accept fd) a = is_new net a.res
honest_answer net (epoll_create n) a = is_new net a.res
honest_answer net _ a = true

abbrev pub sockets : Protocol SocketCall Net
sockets = record { allows = allows_call; after = after_call; is_honest = honest_answer }

-- The same in a process that stays the parent at each `fork`.
abbrev pub parent_answer : Net → SocketCall → Answer → Bool
parent_answer net fork a = not (is_zero a.res)
  where
    is_zero : ℤ → Bool
    is_zero (pos n) = n == 0
    is_zero (negsuc n) = false
parent_answer net c a = honest_answer net c a

abbrev pub sockets_of_parent : Protocol SocketCall Net
sockets_of_parent = record sockets { is_honest = parent_answer }

-- When a program starts, the terminal is open on 0, 1 and 2.
abbrev pub fresh_net : Net
fresh_net n = if leb n 2 then connected else closed
