-- ===== src/Messages/Kernel.antt =====
-- process/communication/msg/msg.c: its system calls, and what their manual pages say of them.
use learn_c_linux.Prelude.{
  ℕ, zero, suc, Bool, true, false, not, ◌&&◌, ◌||◌, ◌==◌, if◌then◌else◌, Option, none, some, List,
  [], ◌∷◌, ◌++◌,
}
use learn_c_linux.Prelude.Int.{ℤ, pos, negsuc}
use learn_c_linux.Sys.{Answer, Protocol}

-- `msgget` has `IPC_CREAT` and `IPC_EXCL`, `msgsnd` the type in the program's struct and the size, `msgrcv` the
-- size and the type that is asked for; `msg_stat`, `msg_set` and `msg_rmid` are the commands of `msgctl`.
-- `received` is the line that `main` prints when it has got a message.
pub data MsgCall : Type 0 where
  ftok : MsgCall
  msgget : MsgCall
  msg_stat : ℤ → MsgCall
  msgsnd : ℤ → ℕ → ℕ → MsgCall
  msgrcv : ℤ → ℕ → ℕ → MsgCall
  msg_set : ℤ → MsgCall
  msg_rmid : ℤ → MsgCall
  received : ℤ → MsgCall

-- The queue that belongs to the program's key, if there is one: its id, and the types of the messages in it.
abbrev pub Queues : Type 0
Queues = Option (ℕ × List ℕ)

abbrev is_id : ℕ → ℤ → Bool
is_id k (pos n) = n == k
is_id k (negsuc n) = false

abbrev pub has_type : List ℕ → ℕ → Bool
has_type [] t = false
has_type (m ∷ ms) t = (m == t) || has_type ms t

abbrev remove_type : List ℕ → ℕ → List ℕ
remove_type [] t = []
remove_type (m ∷ ms) t = if m == t then ms else m ∷ remove_type ms t

-- Whether there is a message to receive.
abbrev pub has_message : Queues → ℤ → ℕ → Bool
has_message none id t = false
has_message (some (k, types)) id t = is_id k id && has_type types t

abbrev pub is_minus_one : ℤ → Bool
is_minus_one (negsuc zero) = true
is_minus_one (negsuc (suc n)) = false
is_minus_one (pos n) = false

abbrev pub created : Queues → ℤ → Queues
created none (pos k) = some (k, [])
created none (negsuc k) = none
created (some q) z = some q

-- What a call that returns `z` does to the queue `id`.
abbrev pub update : Queues → ℤ → ℤ → (List ℕ → Option (List ℕ)) → Queues
update none id z f = none
update (some (k, types)) id z f =
    if is_id k id && not (is_minus_one z)
    then elim (f types) [ none ↦ none | some types' ↦ some (k, types') ]
    else some (k, types)

abbrev exists : Queues → Bool
exists none = false
exists (some q) = true

-- `msgrcv` fails where no such message waits, and a queue that is there is not created again; any call may
-- fail besides. `read_type` is the number that the kernel reads as the type, where the program's struct has its
-- `int`: the kernel takes a `long`.
abbrev honest_answer : Queues → MsgCall → Answer → Bool
honest_answer s msgget a = not (exists s) || is_minus_one a.res
honest_answer s (msgrcv id size t) a = has_message s id t || is_minus_one a.res
honest_answer s _ a = true

abbrev change : (ℕ → ℕ) → Queues → MsgCall → Answer → Queues
change read_type s msgget a = created s a.res
change read_type s (msgsnd id t size) a =
    update s id a.res λ types. some (types ++ (read_type t ∷ []))
change read_type s (msgrcv id size t) a = update s id a.res λ types. some (remove_type types t)
change read_type s (msg_rmid id) a = update s id a.res λ types. none
change read_type s _ a = s

abbrev is_received : MsgCall → Bool
is_received (received n) = true
is_received _ = false

-- A program keeps to it when it never prints that it has received a message.
abbrev pub silence : (ℕ → ℕ) → Protocol MsgCall Queues
silence read_type = record {
  allows = λ _ c. not (is_received c);
  after = change read_type;
  is_honest = honest_answer;
}
