-- ===== src/ThreadLock.antt =====
-- thread/thread_lock.c: a producer and a consumer that change a count under a mutex. `++` and `--` are a
-- read and a write, with any steps of the other thread between them.
pub mod Safety
mod Tests
use learn_c_linux.Prelude.{ℕ, ◌+◌, Bool, true, false, ◌≡◌, Option, none, some}
use learn_c_linux.Prelude.Int.{ℤ, pos, ◌+ℤ◌, ◌-ℤ◌}

pub data Side : Type 0 where
  producter : Side
  consumer : Side

-- Where a thread stands in its loop; `storing v` has read `v`.
pub data Pc : Type 0 where
  testing : Pc
  locking : Pc
  loading : Pc
  storing : ℤ → Pc
  unlocking : Pc
  ended : Pc

-- `locked` is the mutex; `produced` and `consumed` count the writes of each thread.
pub record Shared : Type 0 where
  pub running : Bool
  pub locked : Bool
  pub buffer_has_item : ℤ
  pub produced : ℕ
  pub consumed : ℕ

unfoldable pub store : Side → ℤ → Shared → Shared
unfolding ◌+ℤ◌ ◌-ℤ◌
store producter v s = record s { buffer_has_item = v +ℤ pos 1; produced = s.produced + 1 }
store consumer v s = record s { buffer_has_item = v -ℤ pos 1; consumed = s.consumed + 1 }

-- One step of `producter_f` or `consumer_f`; `none` when the thread waits for the mutex or has ended.
unfoldable pub advance : Side → Shared → Pc → Option (Shared × Pc)
unfolding store
advance side s testing = elim s.running [ true ↦ some (s, locking) | false ↦ some (s, ended) ]
advance side s locking = elim s.locked [
  | true ↦ none
  | false ↦ some (record s { locked = true }, loading)
]
advance side s loading = some (s, storing s.buffer_has_item)
advance side s (storing v) = some (store side v s, unlocking)
advance side s unlocking = some (record s { locked = false }, testing)
advance side s ended = none

pub record Threads : Type 0 where
  pub shared : Shared
  pub producter_pc : Pc
  pub consumer_pc : Pc

-- `stop` is `running = 0` in `main`.
pub data Step (t : Threads) : Threads → Type 0 where
  produce :
      {s : Shared} {pc : Pc}
      → advance producter t.shared t.producter_pc ≡ some (s, pc)
      → Step t (record t { shared = s; producter_pc = pc })
  consume :
      {s : Shared} {pc : Pc}
      → advance consumer t.shared t.consumer_pc ≡ some (s, pc)
      → Step t (record t { shared = s; consumer_pc = pc })
  stop : Step t (record t { shared = record (t.shared) { running = false } })

abbrev pub initial : Threads
initial = record {
  shared = record {
    running = true;
    locked = false;
    buffer_has_item = pos 0;
    produced = 0;
    consumed = 0;
  };
  producter_pc = testing;
  consumer_pc = testing;
}

pub data Reach : Threads → Type 0 where
  start : Reach initial
  later : {t u : Threads} → Reach t → Step t u → Reach u
