-- ===== src/Ping/Time.antt =====
-- socket/socket_raw/ping.c: differences of times.
use learn_c_linux.Prelude.{◌+◌, ◌*◌, ◌<◌, ◌≡◌, true, false, inl, inr, Bool-cases, arith}
use learn_c_linux.Prelude.Int.{ℤ, pos, pos_part, neg_part, ◌+ℤ◌, ◌-ℤ◌, ltb_ℤ, int_laws, ◌≤ℤ◌}
use learn_c_linux.Ping.{Timeval, icmp_tvsub}

-- A time as the clock gives it: less than a million microseconds.
abbrev pub IsTime : Timeval → Type 0
IsTime t = (pos 0 ≤ℤ t.tv_usec) × (pos_part t.tv_usec < 1000000)

-- The microseconds of `a` are those of `b` more, or fewer, than `c`: all terms on the side where they
-- are positive.
abbrev pub Elapsed : Timeval → Timeval → Timeval → Type 0
Elapsed end begin d =
    (pos_part d.tv_sec + pos_part begin.tv_sec + neg_part end.tv_sec) * 1000000
      + (pos_part d.tv_usec + pos_part begin.tv_usec + neg_part end.tv_usec)
    ≡ (neg_part d.tv_sec + neg_part begin.tv_sec + pos_part end.tv_sec) * 1000000
      + (neg_part d.tv_usec + neg_part begin.tv_usec + pos_part end.tv_usec)

nonneg_part : (a : ℤ) → pos 0 ≤ℤ a → neg_part a ≡ 0
nonneg_part a h = ground arith

IsTime-carry :
    (a b : ℤ)
    → pos 0 ≤ℤ a
    → pos_part a < 1000000
    → pos 0 ≤ℤ b
    → pos_part b < 1000000
    → ltb_ℤ (a -ℤ b) (pos 0) ≡ true
    → (pos 0 ≤ℤ a -ℤ b +ℤ pos 1000000) × (pos_part (a -ℤ b +ℤ pos 1000000) < 1000000)
unfolding ◌+ℤ◌ ◌-ℤ◌
IsTime-carry a b = ground arith

IsTime-plain :
    (a b : ℤ)
    → pos 0 ≤ℤ a
    → pos_part a < 1000000
    → pos 0 ≤ℤ b
    → ltb_ℤ (a -ℤ b) (pos 0) ≡ false
    → (pos 0 ≤ℤ a -ℤ b) × (pos_part (a -ℤ b) < 1000000)
unfolding ◌-ℤ◌
IsTime-plain a b = ground arith

-- The difference of two normalised times is normalised, and it is the exact number of microseconds
-- between them, also where the second is later than the first.
pub icmp_tvsub-Elapsed :
    (end begin : Timeval)
    → IsTime end
    → IsTime begin
    → IsTime (icmp_tvsub end begin) × Elapsed end begin (icmp_tvsub end begin)
unfolding icmp_tvsub
icmp_tvsub-Elapsed end begin he hb =
    let usec = end.tv_usec -ℤ begin.tv_usec in
    elim (Bool-cases (ltb_ℤ usec (pos 0))) [
      | inl less ↦
          rw less (IsTime-carry end.tv_usec begin.tv_usec he.0 he.1 hb.0 hb.1 less, omega int_laws)
      | inr more ↦
          rw more (IsTime-plain end.tv_usec begin.tv_usec he.0 he.1 hb.0 more, omega int_laws)
    ]
