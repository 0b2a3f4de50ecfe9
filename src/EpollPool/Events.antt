-- ===== src/EpollPool/Events.antt =====
-- practise/epoll_thread_model.c: the addresses that the pool gets.
use learn_c_linux.Prelude.{ℕ, suc, ◌≡◌, ◌≢◌, refl, false, ◌&&◌, ◌==◌, ltb, [], ◌∷◌, arith}
use learn_c_linux.Prelude.Int.{ℤ, pos}
use learn_c_linux.Sys.{Answer, returned, run}
use learn_c_linux.Sys.Rule.{run-nil}
use learn_c_linux.Sockets.{epoll_wait, add_task}
use learn_c_linux.EpollPool.{handle_events, serve}

-- What `epoll_wait` returns for one event.
abbrev pub event : ℕ → Answer
event fd = record { res = pos 1; bytes = fd ∷ [] }

-- Two clients that send something in turns that follow each other are handed to the pool at one address:
-- the second `epoll_wait` may write over the first client's descriptor before a worker has read it.
pub serve-same_address :
    (event_at : ℕ → ℕ) (n ss cs cs' cur_fd : ℕ) (epollfd : ℤ)
    → cs ≢ ss
    → cs' ≢ ss
    → let added = returned (pos 0) in
      run
        (serve event_at (suc (suc n)) epollfd ss cur_fd)
        (event cs ∷ added ∷ event cs' ∷ added ∷ [])
      ≡ (epoll_wait epollfd cur_fd, event cs)
        ∷ (add_task (event_at 0), added)
        ∷ (epoll_wait epollfd cur_fd, event cs')
        ∷ (add_task (event_at 0), added)
        ∷ []
unfolding serve handle_events
serve-same_address event_at n ss cs cs' cur_fd epollfd ne ne' =
    let old : (cs == ss) && ltb cur_fd 10 ≡ false = ground arith in
    let old' : (cs' == ss) && ltb cur_fd 10 ≡ false = ground arith in
    rw (old, old', run-nil (serve event_at n epollfd ss cur_fd)) refl
