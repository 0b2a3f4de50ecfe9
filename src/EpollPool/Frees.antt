-- ===== src/EpollPool/Frees.antt =====
-- practise/epoll_thread_model.c with practise/thread_pool.c: what becomes of the addresses that `main` hands
-- to the pool as arguments.
use learn_c_linux.Prelude.{
  ℕ, zero, suc, ◌+◌, ◌-◌, ◌*◌, ◌≤◌, ◌<◌, ◌≡◌, ◌≢◌, refl, ap, sym, subst, ◌∙◌, false, ◌&&◌, ◌==◌,
  ltb, Bool-cases, inl, inr, List, [], ◌∷◌, ◌++◌, map, All, arith, length, length-append,
  length-take, take, append_assoc,
}
use learn_c_linux.Prelude.Int.{ℤ, pos, negsuc}
use learn_c_linux.Sys.{Answer, Prog, done, exit, cut, call, on_sign, run}
use learn_c_linux.Sockets.{SocketCall, epoll_wait, add_task}
use learn_c_linux.Sockets.Setup.{listening_socket, bound_socket}
use learn_c_linux.Pool.{Task, Pool}
use learn_c_linux.Pool.Fifo.{length-ring}
use learn_c_linux.Pool.System.{System, Reach}
use learn_c_linux.Pool.System.Safety.{IsFresh}
use learn_c_linux.Pool.System.Frees.{slots, freeing, freeing-append, Reach-freed}
use learn_c_linux.EpollPool.{add_fd_epoll, handle_events, serve, main, max_client, max_event}

All-append : (P : ℕ → Type 0) (xs ys : List ℕ) → All P xs → All P ys → All P (xs ++ ys)
All-append P [] ys h k = k
All-append P (x ∷ xs) ys h k = (h.0, All-append P xs ys h.1 k)

abbrev pub argument : SocketCall → List ℕ
argument (add_task arg) = arg ∷ []
argument _ = []

-- The arguments handed over, in order.
abbrev pub handed : List (SocketCall × Answer) → List ℕ
handed [] = []
handed ((c, _) ∷ t) = argument c ++ handed t

-- `epoll_wait` reports no more events than it is given room for.
abbrev pub Reports : SocketCall × Answer → Type 0
Reports (epoll_wait ep n, a) = length a.bytes ≤ n
Reports _ = Unit

-- Every call of the program that hands over something hands over an address that satisfies `P`.
module _ (P : ℕ → Type 0) where
  abbrev Hands : Prog SocketCall → Type 0
  Hands (done r) = Unit
  Hands (exit r) = Unit
  Hands cut = Unit
  Hands (call c k) = All P (argument c) × ((a : Answer) → Reports (c, a) → Hands (k a))

  Hands-run :
      (m : Prog SocketCall) (tape : List Answer)
      → Hands m
      → All Reports (run m tape)
      → All P (handed (run m tape))
  Hands-run (done r) tape h fair = tt
  Hands-run (exit r) tape h fair = tt
  Hands-run cut tape h fair = tt
  Hands-run (call c k) [] h fair = tt
  Hands-run (call c k) (a ∷ tape) h fair =
      All-append P (argument c) _ h.0 (Hands-run (k a) tape (h.1 a fair.0) fair.1)

  Hands-on_sign :
      (z : ℤ) (bad : Prog SocketCall) (good : ℕ → Prog SocketCall)
      → Hands bad
      → ((n : ℕ) → Hands (good n))
      → Hands (on_sign z bad good)
  Hands-on_sign (pos n) bad good h k = k n
  Hands-on_sign (negsuc n) bad good h k = h

-- The addresses of the first `max_client` events satisfy `P`.
module _ (P : ℕ → Type 0) (event_at : ℕ → ℕ)
    (first : (i : ℕ) → i < max_client → P (event_at i)) where
  handle_events-Hands :
      (epollfd : ℤ) (ss i : ℕ) (fds : List ℕ) (cur_fd : ℕ) (next : ℕ → Prog SocketCall)
      → i + length fds ≤ max_client
      → cur_fd ≤ max_client
      → ((k : ℕ) → k ≤ max_client → Hands P (next k))
      → Hands P (handle_events event_at epollfd ss i fds cur_fd next)
  unfolding handle_events add_fd_epoll
  handle_events-Hands epollfd ss i [] cur_fd next room few h = h cur_fd few
  handle_events-Hands epollfd ss i (fd ∷ fds) cur_fd next room few h =
      let room' : i + 1 + length fds ≤ max_client = omega arith in
      elim (Bool-cases ((fd == ss) && ltb cur_fd max_client)) [
        | inl e ↦
            let fewer : cur_fd + 1 ≤ max_client = ground (arith, e) in
            rw (handle_events, e)
              (
                tt,
                λ cs _.
                    Hands-on_sign P cs.res _ _
                      (handle_events-Hands epollfd ss (i + 1) fds cur_fd next room' few h)
                      λ _. (
                        tt,
                        λ _ _. (
                          tt,
                          λ _ _.
                              handle_events-Hands epollfd ss (i + 1) fds (cur_fd + 1) next room'
                                fewer h,
                        ),
                      ),
              )
        | inr e ↦
            rw (handle_events, e)
              (
                (first i (omega arith), tt),
                λ _ _. handle_events-Hands epollfd ss (i + 1) fds cur_fd next room' few h,
              )
      ]

  serve-Hands :
      (n : ℕ) (epollfd : ℤ) (ss cur_fd : ℕ)
      → cur_fd ≤ max_client
      → Hands P (serve event_at n epollfd ss cur_fd)
  unfolding serve
  serve-Hands zero epollfd ss cur_fd few = tt
  serve-Hands (suc n) epollfd ss cur_fd few = (
    tt,
    λ w fair. Hands-on_sign P w.res _ _ tt λ _.
        handle_events-Hands epollfd ss 0 w.bytes cur_fd _ (omega (arith, fair, few)) few
          λ k le. serve-Hands n epollfd ss k le,
  )

  main-Hands : (n : ℕ) → Hands P (main event_at n)
  unfolding main listening_socket bound_socket add_fd_epoll
  main-Hands n =
      let again = Hands-on_sign P in
      (
        tt,
        λ ss _. again ss.res _ _ tt λ fd. (
          tt,
          λ b _. again b.res _ _ tt λ _. (
            tt,
            λ l _. again l.res _ _ tt λ _. (
              tt,
              λ e _.
                  again e.res _ _ tt
                    λ _. (tt, λ _ _. (tt, λ _ _. serve-Hands n e.res fd 1 (omega arith))),
            ),
          ),
        ),
      )

-- Where the array `events` of `main` lies: its address, the size of a `struct epoll_event`, and where in it
-- `data.fd` stands.
pub record Events : Type 0 where
  pub at : ℕ
  pub size : ℕ
  pub offset : ℕ
  pub there : at ≢ 0
  pub within : offset + 4 ≤ size

-- The address of `events[i].data.fd`.
abbrev pub fd_at : Events → ℕ → ℕ
fd_at events i = events.at + i * events.size + events.offset

-- The four bytes from this address on lie inside the array.
abbrev pub IsInside : Events → ℕ → Type 0
IsInside events a = (events.at ≤ a) × (a + 4 ≤ events.at + max_event * events.size)

fd_at-IsInside : (events : Events) (i : ℕ) → i < max_client → IsInside events (fd_at events i)
fd_at-IsInside events i lt =
    let rows : i * events.size + events.size ≤ 1024 * events.size = grind arith in
    (omega arith, omega (arith, rows, events.within))

All-take :
    (P : ℕ → Type 0) (k : ℕ) (ts : List Task)
    → All P (map (λ t. t.arg) ts)
    → All P (map (λ t. t.arg) (take k ts))
All-take P zero ts h = tt
All-take P (suc k) [] h = tt
All-take P (suc k) (t ∷ ts) h = (h.0, All-take P k ts h.1)

take-beyond :
    (m k : ℕ) (xs ys : List Task)
    → length xs ≡ m
    → m ≤ k
    → take k (xs ++ ys) ≡ xs ++ take (k - m) ys
take-beyond m k [] ys e le =
    let none_before : k - m ≡ k = omega (arith, e) in ap (λ j. take j ys) (sym none_before)
take-beyond m zero (x ∷ xs) ys e le = absurd (omega (arith, e, le))
take-beyond m (suc k) (x ∷ xs) ys e le =
    let shorter : suc k - m ≡ k - length xs = omega (arith, e) in
    ap (λ r. x ∷ r)
      (take-beyond (length xs) k xs ys refl (omega (arith, e, le))
        ∙ ap (λ j. xs ++ take j ys) (sym shorter))

-- On top of `before`, so many pointers have been freed, all of which satisfy `P`.
pub record Freed (P : ℕ → Type 0) (count : ℕ) (before freed : List ℕ) : Type 0 where
  pub more : List ℕ
  pub split : freed ≡ more ++ before
  pub many : length more ≡ count
  pub all_fit : All P more

freeing-Freed :
    (P : ℕ → Type 0) (before : List ℕ) (ts : List Task)
    → ((a : ℕ) → P a → a ≢ 0)
    → All P (map (λ t. t.arg) ts)
    → Freed P (length ts) before (freeing before ts)
freeing-Freed P before [] ne h = record { more = []; split = refl; many = refl; all_fit = tt }
freeing-Freed P before (t ∷ ts) ne h =
    let there : (t.arg == 0) ≡ false = ground (arith, ne t.arg h.0) in
    let r = freeing-Freed P (t.arg ∷ before) ts ne h.1 in
    rw there (record {
      more = r.more ++ (t.arg ∷ []);
      split = r.split ∙ sym (append_assoc r.more (t.arg ∷ []) before);
      many = omega (arith, length-append r.more (t.arg ∷ []), r.many);
      all_fit = All-append P r.more (t.arg ∷ []) r.all_fit (h.0, tt);
    })

-- When the pool has the tasks that `main` has handed over so far, and these are at least as many as its
-- queue has slots, and `epoll_wait` never reports more events than it is given room for: then
-- `threadpool_add_task` has passed to `free`, after what the slots held at the start, one pointer for each
-- task beyond the number of slots, and each of them points to four bytes inside the array `events` of `main`.
pub main-frees_events :
    (events : Events) (n : ℕ) (tape : List Answer) {p : Pool} {s : System}
    → IsFresh p
    → Reach p s
    → All Reports (run (main (fd_at events) n) tape)
    → map (λ t. t.arg) s.submitted ≡ handed (run (main (fd_at events) n) tape)
    → p.queue_max_size ≤ length s.submitted
    → Freed
        (IsInside events)
        (length s.submitted - p.queue_max_size)
        (freeing p.freed (slots p))
        s.pool.freed
main-frees_events events n tape {p} {s} fresh r fair same enough =
    let m = p.queue_max_size in
    let k = length s.submitted in
    let inside = IsInside events in
    let size : length (slots p) ≡ m = length-ring p.task_queue m p.queue_rear m in
    let freed : s.pool.freed ≡ freeing (freeing p.freed (slots p)) (take (k - m) s.submitted) =
      Reach-freed fresh r
      ∙ (ap (freeing p.freed) (take-beyond m k (slots p) s.submitted size enough)
          ∙ freeing-append p.freed (slots p) (take (k - m) s.submitted)) in
    let tasks = All-take inside (k - m) s.submitted (
      subst (All inside) (sym same) (
        Hands-run inside (main (fd_at events) n) tape
          (main-Hands inside (fd_at events) (fd_at-IsInside events) n) fair)) in
    let r =
      freeing-Freed inside (freeing p.freed (slots p)) (take (k - m) s.submitted)
        (λ a h. omega (arith, events.there, h.0)) tasks in
    record {
      more = r.more;
      split = freed ∙ r.split;
      many = r.many ∙ length-take (k - m) s.submitted ∙ omega arith;
      all_fit = r.all_fit;
    }
