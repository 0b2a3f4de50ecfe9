-- ===== src/BufferSizes/Sizes.antt =====
-- socket/socket_opt/cache_area.c: the sizes that are printed.
use learn_c_linux.Prelude.{
  ℕ, ◌/◌, ◌≤◌, ◌≡◌, ◌⊎◌, inl, inr, refl, ap, ◌∙◌, true, some, sym, subst, ◌++◌, ◌&&◌, List, [], ◌∷◌,
  ◌%◌, ◌^◌, Bool-cases, if◌then◌else◌, append_assoc, length, arith,
}
use learn_c_linux.Prelude.Int.{ℤ, pos, negsuc}
use learn_c_linux.Sys.{Answer, Prog, done, ignore, run, returned_by, honest, final}
use learn_c_linux.Sys.Rule.{Safe, Safe-final, Safe-on_sign}
use learn_c_linux.Sys.Depth.{Returns, Returns-on_sign, Returns-returned_by}
use learn_c_linux.BufferSizes.{
  got, show_size, main, Buffer, BufferCall, setsockopt, sending, receiving,
}
use learn_c_linux.BufferSizes.Kernel.{
  Sizes, at_start, buffers, size_of, is_size, is_length, is_done, doubled,
}

main-Returns : (at : ℕ) → Returns 11 (main at)
unfolding main show_size
main-Returns at ss = Returns-on_sign 10 ss.res _ _ tt λ _ a b c d e f g h i j. tt

got-size : (old n : ℕ) (a : Answer) → is_done a.res && is_size n a.bytes ≡ true → got old a ≡ n
unfolding got
got-size old n a fair = sized a.res a.bytes fair
  where
    sized :
        (z : ℤ) (bytes : List ℕ)
        → is_done z && is_size n bytes ≡ true
        → got old (record { res = z; bytes = bytes }) ≡ n
    sized (pos k) [] fair = absurd (ground (arith, fair))
    sized (pos k) (m ∷ rest) fair = ground (arith, fair)
    sized (negsuc k) bytes fair = absurd (ground (arith, fair))

-- The end of `main`, from the second time that a size is read, and from where the sizes are set.
last_shown : ℤ → Prog BufferCall
last_shown ss = show_size ss receiving 8192 (done (pos 0))

resized : ℤ → ℕ → Prog BufferCall
resized ss len =
    ignore (setsockopt ss sending 4096 len)
      (ignore (setsockopt ss receiving 8192 len) (show_size ss sending 4096 (last_shown ss)))

-- The kilobytes that are in force at the end, from the sizes at the start.
abbrev pub kept_or_set : ℕ → Sizes → List ℕ
kept_or_set len s =
    if is_length len then 8 ∷ 16 ∷ [] else s.send_size / 1024 ∷ s.recv_size / 1024 ∷ []

module _ (wmem_max rmem_max : ℕ) where
  -- At the end, from the sizes at the start.
  abbrev Shown : ℕ → Sizes → Sizes → ℤ → Type 0
  Shown len s s' r =
      ((r ≡ negsuc 0) × (s'.shown ≡ []))
      ⊎ ((r ≡ pos 0) × (s'.shown ≡ s.send_size / 1024 ∷ s.recv_size / 1024 ∷ kept_or_set len s))

  show_size-Safe :
      (s : Sizes) (ss : ℤ) (b : Buffer) (old : ℕ) (rest : Prog BufferCall) (Q : Sizes → ℤ → Type 0)
      → Safe
          (buffers wmem_max rmem_max)
          (record s { shown = s.shown ++ (size_of s b / 1024 ∷ []) })
          rest
          Q
      → Safe (buffers wmem_max rmem_max) s (show_size ss b old rest) Q
  unfolding show_size
  show_size-Safe s ss b old rest Q h = (
    refl,
    λ a fair. (
      refl,
      λ p _.
          subst
            (λ n.
              Safe (buffers wmem_max rmem_max) (record s { shown = s.shown ++ (n / 1024 ∷ []) })
                rest Q)
            (sym (got-size old (size_of s b) a fair)) h,
    ),
  )

  -- The second half, from any sizes in force, with the last two calls shown.
  again-Safe :
      (s : Sizes) (ss : ℤ) (Q : Sizes → ℤ → Type 0)
      → Q
          (record s { shown = (s.shown ++ (s.send_size / 1024 ∷ [])) ++ (s.recv_size / 1024 ∷ []) })
          (pos 0)
      → Safe (buffers wmem_max rmem_max) s (show_size ss sending 4096 (last_shown ss)) Q
  unfolding last_shown
  again-Safe s ss Q h = show_size-Safe s ss sending 4096 (last_shown ss) Q (
      show_size-Safe (record s { shown = s.shown ++ (s.send_size / 1024 ∷ []) }) ss receiving 8192
        (done (pos 0)) Q h)

  resized-Safe :
      (s : Sizes) (ss : ℤ) (len : ℕ) (Q : Sizes → ℤ → Type 0)
      → 4096 ≤ wmem_max
      → 8192 ≤ rmem_max
      → ((s' : Sizes)
          → s'.shown
            ≡ s.shown
              ++ (if is_length len
                  then 8 ∷ 16 ∷ []
                  else s.send_size / 1024 ∷ s.recv_size / 1024 ∷ [])
          → Q s' (pos 0))
      → Safe (buffers wmem_max rmem_max) s (resized ss len) Q
  unfolding resized
  resized-Safe s ss len Q wmem rmem h = elim (Bool-cases (is_length len)) [
    | inl good ↦
        let send_size : doubled wmem_max 4096 / 1024 ≡ 8 = ground (arith, wmem) in
        let recv_size : doubled rmem_max 8192 / 1024 ≡ 16 = ground (arith, rmem) in
        let s' : Sizes = record s {
          send_size = doubled wmem_max 4096;
          recv_size = doubled rmem_max 8192;
        } in
        rw good (
          refl,
          λ _ _. (
            refl,
            λ _ _.
                again-Safe s' ss Q
                  (h _ (rw (good, send_size, recv_size) (append_assoc s.shown (8 ∷ []) (16 ∷ [])))),
          ),
        )
    | inr bad ↦ rw bad (
      refl,
      λ _ _. (
        refl,
        λ _ _. again-Safe s ss Q (
            h _
              (rw bad (append_assoc s.shown (s.send_size / 1024 ∷ []) (s.recv_size / 1024 ∷ [])))),
      ),
    )
  ]

  main-Safe :
      (at : ℕ) (s : Sizes)
      → s.shown ≡ []
      → 4096 ≤ wmem_max
      → 8192 ≤ rmem_max
      → Safe (buffers wmem_max rmem_max) s (main at) (Shown (at % 2 ^ 32) s)
  unfolding main resized last_shown
  main-Safe at s none_yet wmem rmem =
      let p = buffers wmem_max rmem_max in
      let len = at % 2 ^ 32 in
      let q = Shown len s in
      let print : Sizes → ℕ → Sizes = λ s' n. record s' { shown = s'.shown ++ (n ∷ []) } in
      let s1 : Sizes = print s (s.send_size / 1024) in
      let s2 : Sizes = print s1 (s.recv_size / 1024) in
      (
        refl,
        λ ss _.
            Safe-on_sign p s ss.res _ _ _ (λ k _. inl (refl, none_yet))
              λ n _.
                show_size-Safe s ss.res sending 0
                  (show_size ss.res receiving 0 (resized ss.res len)) q
                  (show_size-Safe s1 ss.res receiving 0 (resized ss.res len) q (
                    resized-Safe s2 ss.res len q wmem rmem
                      λ s' e. inr (refl, e ∙ rw none_yet refl))),
      )

-- When the kernel answers as the manual pages say, with limits of at least 4096 and 8192, and gives eleven
-- answers, `main` returns: -1 with nothing printed, or 0 after it has printed the two sizes that the socket
-- had, in kilobytes, and then 8 and 16, which is twice what was set, where the low 32 bits of the address of
-- `optlen` pass for a length; where they do not, nothing is set, and the first two sizes are printed again.
pub main-prints :
    (optlen_at wmem_max rmem_max send_size recv_size : ℕ) (tape : List Answer)
    → 4096 ≤ wmem_max
    → 8192 ≤ rmem_max
    → 11 ≤ length tape
    → honest (buffers wmem_max rmem_max) (at_start send_size recv_size) (run (main optlen_at) tape)
      ≡ true
    → let start = at_start send_size recv_size in
      let printed = (final (buffers wmem_max rmem_max) start (run (main optlen_at) tape)).shown in
      ((returned_by (main optlen_at) tape ≡ some (negsuc 0)) × (printed ≡ []))
      ⊎ ((returned_by (main optlen_at) tape ≡ some (pos 0))
          × (printed
              ≡ send_size / 1024 ∷ recv_size / 1024 ∷ kept_or_set (optlen_at % 2 ^ 32) start))
main-prints at wmem_max rmem_max send_size recv_size tape wmem rmem enough fair =
    let s = at_start send_size recv_size in
    let (r, e) = Returns-returned_by 11 (main at) tape (main-Returns at) enough in
    let shown =
      Safe-final (buffers wmem_max rmem_max) s (main at) (Shown wmem_max rmem_max (at % 2 ^ 32) s)
        tape r (main-Safe wmem_max rmem_max at s refl wmem rmem) fair e in
    elim shown [
      | inl (bad, empty) ↦ inl (e ∙ ap some bad, empty)
      | inr (good, sizes) ↦ inr (e ∙ ap some good, sizes)
    ]
