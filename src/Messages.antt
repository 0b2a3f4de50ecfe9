-- ===== src/Messages.antt =====
-- process/communication/msg/msg.c: a message queue of System V.
pub mod Kernel
pub mod Queue
mod Tests
use learn_c_linux.Prelude.Int.{ℤ, pos}
use learn_c_linux.Sys.{Prog, done, call, ignore, on_minus_one, ◌>>◌}
use learn_c_linux.Messages.Kernel.{
  MsgCall, ftok, msgget, msg_stat, msgsnd, msgrcv, msg_set, msg_rmid, received,
}

-- The function is void; what it prints is left out.
unfoldable pub msg_show_attr : ℤ → Prog MsgCall
msg_show_attr msg_id =
    call (msg_stat msg_id) λ ret. on_minus_one ret.res (done (pos 0)) (done (pos 0))

-- `main` after the receive.
unfoldable pub remove : ℤ → Prog MsgCall
unfolding msg_show_attr
remove msg_id =
    msg_show_attr msg_id
    >> call (msg_set msg_id) λ ret. on_minus_one ret.res (done (pos 0)) (
        msg_show_attr msg_id
        >> call (msg_rmid msg_id) λ ret'. on_minus_one ret'.res (done (pos 0)) (done (pos 0)))

-- The text has 13 bytes with its 0, its type is 10, and `MTEXT_SIZE`, 20, stands for the size and for the type
-- that is asked for. A failed `ftok` and a failed `msgsnd` are only reported.
unfoldable pub main : Prog MsgCall
unfolding msg_show_attr remove
main = ignore ftok (
    call msgget λ msg_id. on_minus_one msg_id.res (done (pos 0)) (
      msg_show_attr msg_id.res
      >> ignore (msgsnd msg_id.res 10 13) (
          msg_show_attr msg_id.res
          >> call (msgrcv msg_id.res 20 20) λ ret.
            on_minus_one ret.res (remove msg_id.res)
              (ignore (received ret.res) (remove msg_id.res)))))
