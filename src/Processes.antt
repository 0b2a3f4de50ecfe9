-- ===== src/Processes.antt =====
-- process/create_process/create.c and process/communication/signal/main.c: a process that forks, and one that
-- asks for two signals. Texts that are printed with no number are left out.
mod Tests
use learn_c_linux.Prelude.{ℕ, Bool, true, false, ◌==◌, if◌then◌else◌, List, [], ◌∷◌}
use learn_c_linux.Prelude.Int.{ℤ, pos, negsuc}
use learn_c_linux.Sys.{Answer, Prog, done, call, ignore, on_minus_one, on_zero}

-- `print` is a line with the numbers in it, and `signal` has the number of the signal; its answer is -1 for
-- `SIG_ERR`.
pub data ProcessCall : Type 0 where
  getpid : ProcessCall
  getppid : ProcessCall
  fork : ProcessCall
  print : List ℤ → ProcessCall
  signal : ℕ → ProcessCall
  sleep : ℕ → ProcessCall

-- create.c: the line that parent and child print. C leaves open which of the two calls comes first.
unfoldable pub print_ids : ℤ → Prog ProcessCall
print_ids pid = call getpid λ id.
    call getppid λ parent_id. ignore (print (pid ∷ id.res ∷ parent_id.res ∷ [])) (done (pos 0))

unfoldable pub create : Prog ProcessCall
unfolding print_ids
create = call getpid λ id. call getppid λ parent_id. ignore (print (id.res ∷ [])) (
    ignore (print (parent_id.res ∷ []))
      (call fork λ pid. on_minus_one pid.res (done (negsuc 0)) (print_ids pid.res)))

-- What `sig_handle` prints.
pub data Line : Type 0 where
  is_sigstop : Line
  is_sigkill : Line
  other : ℕ → Line

module _ (sigstop sigkill : ℕ) where
  unfoldable pub sig_handle : ℕ → Line
  sig_handle signo =
      if signo == sigstop then is_sigstop else if signo == sigkill then is_sigkill else other signo

  unfoldable pub ask_for_signals : Prog ProcessCall
  ask_for_signals = call (signal sigstop) λ ret. on_minus_one ret.res (done (negsuc 0)) (
      call (signal sigkill)
        λ ret'. on_minus_one ret'.res (done (negsuc 0)) (ignore (sleep 10) (done (pos 0))))
