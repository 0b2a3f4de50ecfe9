-- ===== src/Processes/Tests.antt =====
-- Runs of process/create_process/create.c and process/communication/signal/main.c.
use learn_c_linux.Prelude.{◌≡◌, refl, some, [], ◌∷◌}
use learn_c_linux.Prelude.Int.{pos, negsuc}
use learn_c_linux.Sys.{returned, refused, run, result}
use learn_c_linux.Processes.{
  create, sig_handle, ask_for_signals, is_sigkill, getpid, getppid, fork, print,
}

-- In the child.
child_prints :
    run create (
      returned (pos 7)
      ∷ returned (pos 1)
      ∷ returned (pos 0)
      ∷ returned (pos 0)
      ∷ returned (pos 0)
      ∷ returned (pos 8)
      ∷ returned (pos 7)
      ∷ returned (pos 0)
      ∷ [])
    ≡ (getpid, returned (pos 7))
      ∷ (getppid, returned (pos 1))
      ∷ (print (pos 7 ∷ []), returned (pos 0))
      ∷ (print (pos 1 ∷ []), returned (pos 0))
      ∷ (fork, returned (pos 0))
      ∷ (getpid, returned (pos 8))
      ∷ (getppid, returned (pos 7))
      ∷ (print (pos 0 ∷ pos 8 ∷ pos 7 ∷ []), returned (pos 0))
      ∷ []
unfolding create
child_prints = refl

-- As the manual page signal(2) says, the signal 19 cannot be caught.
no_handler : result (ask_for_signals 19 9) (refused ∷ []) ≡ some (negsuc 0)
unfolding ask_for_signals
no_handler = refl

killed : sig_handle 19 9 9 ≡ is_sigkill
unfolding sig_handle
killed = refl
