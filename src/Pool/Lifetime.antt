-- ===== src/Pool/Lifetime.antt =====
-- practise/thread_pool.c: what `threadpool_create` comes to, and what it frees.
use learn_c_linux.Prelude.{
  ℕ, ◌≤◌, ◌<◌, ◌≡◌, ◌≢◌, ◌⊎◌, ◌==◌, if◌then◌else◌, length, length-replicate, replicate, refl, ◌∙◌,
  true, false, none, some, List, [], ◌∷◌, ◌++◌, arith, leb, Bool-cases, inl, inr, Yields-some,
  Option, ℕ_discrete, dec_lt,
}
use learn_c_linux.Pool.{
  Alloc, Act, release, perform, free_unless_null, threadpool_free, give_up, created, failed,
  undefined, fault, fresh_pool, start_threads, threadpool_create,
}
use learn_c_linux.Pool.Inv.{start_threads-length, start_threads-outside}

-- The pointers that went to `free`.
abbrev pub released : List Act → List ℕ
released [] = []
released (release p ∷ acts) = p ∷ released acts
released (_ ∷ acts) = released acts

-- The array of threads, and in front of it the queue, where there is one.
abbrev pub arrays : Alloc → List ℕ
arrays a = if a.queue_at == 0 then a.threads_at ∷ [] else a.queue_at ∷ a.threads_at ∷ []

-- With a lock that is not initialised `threadpool_free` does not get to its end.
record Stops (inits at queue threads : ℕ) : Type 0 where
  acts : List Act
  stopped : threadpool_free inits at queue threads ≡ (none, acts)
  freed : released acts ≡ (if queue == 0 then threads ∷ [] else queue ∷ threads ∷ [])

threadpool_free-Stops :
    (inits at queue threads : ℕ) → at ≢ 0 → threads ≢ 0 → inits < 4 → Stops inits at queue threads
unfolding threadpool_free perform
threadpool_free-Stops inits at queue threads there array few =
    let run = threadpool_free inits at queue threads in
    let there' : (at == 0) ≡ false = ground arith in
    let array' : (threads == 0) ≡ false = ground arith in
    elim (Bool-cases (queue == 0)) [
      | inl e ↦ record {
        acts = run.1;
        stopped = rw (there', array', e) (ground arith);
        freed = rw (there', array', e) (ground arith);
      }
      | inr e ↦ record {
        acts = run.1;
        stopped = rw (there', array', e) (ground arith);
        freed = rw (there', array', e) (ground arith);
      }
    ]

-- The three ways in which `threadpool_create` can fail, and what it comes to otherwise.
module _ (a : Alloc) (min max size : ℕ) where
  abbrev pub NoStruct : Type 0
  NoStruct = (a.pool_at ≡ 0) × (threadpool_create a min max size ≡ failed [])

  abbrev pub NoThreads : Type 0
  NoThreads =
      (a.pool_at ≢ 0)
      × (a.threads_at ≡ 0)
      × (threadpool_create a min max size
          ≡ failed (free_unless_null a.garbage ++ (release a.pool_at ∷ [])))

  abbrev pub Undefined : Type 0
  Undefined =
      (a.pool_at ≢ 0)
      × (a.threads_at ≢ 0)
      × ((a.queue_at ≡ 0) ⊎ (a.inits < 4))
      × ((acts : List Act) × (threadpool_create a min max size ≡ undefined acts)
          × (released acts ≡ arrays a))

  abbrev pub Allocated : Type 0
  Allocated = (a.pool_at ≢ 0) × (a.threads_at ≢ 0) × (a.queue_at ≢ 0) × (4 ≤ a.inits)

  abbrev pub Filled : Type 0
  Filled =
      ((max < min) × (threadpool_create a min max size ≡ fault))
      ⊎ ((min ≤ max)
          × ((ts : List ℕ) × (length ts ≡ max)
              × (threadpool_create a min max size ≡ created (fresh_pool a min max size ts))))

  create-no_queue :
      a.pool_at ≢ 0
      → a.threads_at ≢ 0
      → a.queue_at ≡ 0
      → threadpool_create a min max size ≡ give_up (threadpool_free 0 a.pool_at 0 a.threads_at)
  unfolding threadpool_create
  create-no_queue pool threads queue = ground arith

  create-no_locks :
      a.pool_at ≢ 0
      → a.threads_at ≢ 0
      → a.queue_at ≢ 0
      → a.inits < 4
      → threadpool_create a min max size
        ≡ give_up (threadpool_free a.inits a.pool_at a.queue_at a.threads_at)
  unfolding threadpool_create
  create-no_locks pool threads queue few = ground arith

  create-Undefined :
      a.pool_at ≢ 0
      → a.threads_at ≢ 0
      → (a.queue_at ≡ 0) ⊎ ((a.queue_at ≢ 0) × (a.inits < 4))
      → Undefined
  create-Undefined pool threads (inl queue) =
      let r = threadpool_free-Stops 0 a.pool_at 0 a.threads_at pool threads (omega arith) in
      (
        pool,
        threads,
        inl queue,
        (
          r.acts,
          rw (create-no_queue pool threads queue, r.stopped) refl,
          (let empty : (a.queue_at == 0) ≡ true = ground arith in rw empty (r.freed)),
        ),
      )
  create-Undefined pool threads (inr (queue, few)) =
      let r = threadpool_free-Stops a.inits a.pool_at a.queue_at a.threads_at pool threads few in
      (
        pool,
        threads,
        inr few,
        (r.acts, rw (create-no_locks pool threads queue few, r.stopped) refl, r.freed),
      )

  create-NoThreads :
      a.pool_at ≢ 0
      → a.threads_at ≡ 0
      → threadpool_create a min max size
        ≡ failed (free_unless_null a.garbage ++ (release a.pool_at ∷ []))
  unfolding threadpool_create threadpool_free perform
  create-NoThreads pool threads = ground arith

  create-Allocated :
      Allocated
      → (out : Option (List ℕ)) → start_threads a.tid min 0 (replicate max 0) ≡ out
      → threadpool_create a min max size
        ≡ elim out [ none ↦ fault | some ts ↦ created (fresh_pool a min max size ts) ]
  unfolding threadpool_create
  create-Allocated (pool, threads, queue, locks) none e = ground (arith, e)
  create-Allocated (pool, threads, queue, locks) (some ts) e = ground (arith, e)

  create-Filled : Allocated → Filled
  create-Filled got =
      let zeros = length-replicate {0} {A = ℕ} max 0 in
      elim (Bool-cases (leb min max)) [
        | inl fits ↦
            let le : min ≤ max = ground (arith, fits) in
            let (ts, run, len) =
              Yields-some
                (start_threads-length a.tid min 0 (replicate max 0) (omega (arith, zeros, le))) in
            inr (le, (ts, len ∙ zeros, create-Allocated got (some ts) run))
        | inr more ↦
            let lt : max < min = ground (arith, more) in
            let out =
              start_threads-outside a.tid min 0 (replicate max 0) (omega arith)
                (omega (arith, zeros, lt)) in
            inl (lt, create-Allocated got none out)
      ]

-- What `threadpool_create` comes to, by what it gets. Without the struct it frees nothing. Without the array of
-- threads it frees the struct, and before it whatever the new struct happens to hold in `task_queue`, which
-- is not written yet, unless that is `NULL`. Without the queue, or where a lock cannot be initialised, it
-- frees the queue, if there is one, and the array of threads, and then uses a lock that is not initialised,
-- which is undefined: it does not come to free the struct. Otherwise it makes a pool, unless `min_thr_num` is
-- above `max_thr_num`: then it writes outside of the array of threads.
pub threadpool_create-outcome :
    (a : Alloc) (min max size : ℕ)
    → NoStruct a min max size
      ⊎ (NoThreads a min max size
          ⊎ (Undefined a min max size ⊎ (Allocated a min max size × Filled a min max size)))
unfolding threadpool_create threadpool_free
threadpool_create-outcome a min max size = elim (ℕ_discrete a.pool_at 0) [
  | yes pool ↦ inl (pool, ground arith)
  | no pool ↦ elim (ℕ_discrete a.threads_at 0) [
    | yes threads ↦ inr (inl (pool, threads, create-NoThreads a min max size pool threads))
    | no threads ↦ elim (ℕ_discrete a.queue_at 0) [
      | yes queue ↦ inr (inr (inl (create-Undefined a min max size pool threads (inl queue))))
      | no queue ↦ elim (dec_lt a.inits 4) [
        | yes few ↦
            inr (inr (inl (create-Undefined a min max size pool threads (inr (queue, few)))))
        | no all ↦
            let got : Allocated a min max size = (pool, threads, queue, omega arith) in
            inr (inr (inr (got, create-Filled a min max size got)))
      ]
    ]
  ]
]
