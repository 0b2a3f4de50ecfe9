-- ===== src/Pool/Admin/Grow.antt =====
-- practise/thread_pool.c: what the loop of `admin_thread` that starts workers leaves.
use learn_c_linux.Prelude.{
  ℕ, zero, suc, ◌+◌, ◌≤◌, ◌<◌, ◌≡◌, inl, inr, arith, ltb, ◌&&◌, length-set, Bool-cases,
  get_elem?-in, leb, Yields, yields, Yields-mono,
}
use learn_c_linux.Pool.{Pool}
use learn_c_linux.Pool.Inv.{IsValid}
use learn_c_linux.Pool.Admin.{
  default_thread_num, min_wait_task_num, grow_slot, grow_loop, admin_grow,
}

-- What a run of the loop leaves: the invariant, with `add` grown as `live_thr_num`, up to
-- `default_thread_num` and `max_thr_num`.
pub record Grown (p : Pool) (add : ℕ) (out : Pool × ℕ) : Type 0 where
  pub valid : IsValid out.0
  pub counted : out.0.live_thr_num + add ≡ p.live_thr_num + out.1
  pub few : out.1 ≤ default_thread_num
  pub more : add ≤ out.1
  pub same_queue : out.0.task_queue ≡ p.task_queue
  pub same_front : out.0.queue_front ≡ p.queue_front
  pub same_size : out.0.queue_size ≡ p.queue_size
  pub same_max : out.0.queue_max_size ≡ p.queue_max_size
  pub same_min : out.0.min_thr_num ≡ p.min_thr_num
  pub same_slots : out.0.max_thr_num ≡ p.max_thr_num
  pub same_shutdown : out.0.shutdown ≡ p.shutdown
  pub same_busy : out.0.busy_thr_num ≡ p.busy_thr_num
  pub same_freed : out.0.freed ≡ p.freed

Grown-trans :
    {p : Pool} {add : ℕ} {mid out : Pool × ℕ}
    → Grown p add mid
    → Grown mid.0 mid.1 out
    → Grown p add out
Grown-trans g h = ground arith

module _ (kill : ℕ → ℕ) (esrch : ℕ) (tid : ℕ → ℕ) where
  grow_slot-Grown :
      (i t add : ℕ) (p : Pool)
      → IsValid p
      → p.live_thr_num < p.max_thr_num
      → add < default_thread_num
      → Grown p add (grow_slot kill esrch tid i t add p)
  unfolding grow_slot
  grow_slot-Grown i t add p v lt few = ground (arith, length-set p.threads i (tid i))

  grow_loop-Grown :
      (n i add : ℕ) (p : Pool)
      → i + n ≡ p.max_thr_num
      → add ≤ default_thread_num
      → IsValid p
      → Yields (Grown p add) (grow_loop kill esrch tid n i add p)
  unfolding grow_loop
  grow_loop-Grown zero i add p e few v = yields (ground arith)
  grow_loop-Grown (suc n) i add p e few v =
      elim (Bool-cases (ltb add default_thread_num && ltb p.live_thr_num p.max_thr_num)) [
        | inl more ↦
            let (t, held) = get_elem?-in p.threads i (omega (arith, v.slots)) in
            let next : Pool × ℕ = grow_slot kill esrch tid i t add p in
            let g : Grown p add next = grow_slot-Grown i t add p v (ground arith) (ground arith) in
            rw (more, grow_loop)
              (rw (held, grow_loop)
                (Yields-mono
                  (grow_loop-Grown n (i + 1) next.1 next.0 (omega (arith, g.same_slots)) g.few
                    g.valid)
                  λ out rest. Grown-trans g rest))
        | inr done ↦ rw (done, grow_loop) (yields (ground arith))
      ]

  pub admin_grow-Grown :
      (queue_size live : ℕ) (p : Pool)
      → IsValid p
      → Yields (Grown p 0) (admin_grow kill esrch tid queue_size live p)
  unfolding admin_grow
  admin_grow-Grown queue_size live p v =
      elim (Bool-cases (leb min_wait_task_num queue_size && leb live p.max_thr_num)) [
        | inl yes' ↦ rw yes' (grow_loop-Grown p.max_thr_num 0 0 p (omega arith) (omega arith) v)
        | inr no' ↦ rw no' (yields (ground arith))
      ]
