-- ===== src/Udp/Broadcast/Bound.antt =====
-- socket/spread_method/broadcast.c: that it ends.
use learn_c_linux.Prelude.{
  ℕ, zero, suc, ◌*◌, ◌≤◌, ◌≡◌, refl, ◌⊎◌, inl, inr, Option, some, List, [], ◌∷◌, length, arith,
}
use learn_c_linux.Prelude.Int.{ℤ, pos, negsuc}
use learn_c_linux.Sys.{Answer, Prog, run, result}
use learn_c_linux.Sys.Rule.{on_sign-either, if-either}
use learn_c_linux.Sockets.{SocketCall, sendto}
use learn_c_linux.Udp.Broadcast.{find, main, starts_with, ip_found_ack, received}

-- How many datagrams are sent.
abbrev pub sends : List (SocketCall × Answer) → ℕ
sends [] = 0
sends ((sendto fd text n, a) ∷ t) = suc (sends t)
sends ((c, a) ∷ t) = sends t

-- The loop, of `n` rounds.
module _ (n : ℕ) where
  -- With enough answers it ends.
  abbrev Ends : Prog SocketCall → Type 0
  Ends m = (tape : List Answer) → 2 * n ≤ length tape → result m tape ≡ some (pos 0)

  abbrev SendsFew : Prog SocketCall → Type 0
  SendsFew m = (tape : List Answer) → sends (run m tape) ≤ n

find-Ends : (n : ℕ) (ss : ℤ) (buff : List ℕ) → Ends n (find n ss buff)
unfolding find
find-Ends zero ss buff tape h = refl
find-Ends (suc n) ss buff [] h = absurd (omega (arith, h))
find-Ends (suc n) ss buff (a ∷ []) h = absurd (omega (arith, h))
find-Ends (suc n) ss buff (a ∷ b ∷ tape) h =
    let found = starts_with ip_found_ack (received b.bytes buff) in
    on_sign-either (λ m. result m (b ∷ tape) ≡ some (pos 0)) a.res _ _
      (find-Ends n ss buff (b ∷ tape) (omega (arith, h)))
      λ _.
        if-either (λ m. result m tape ≡ some (pos 0)) found _ _ refl
          (find-Ends n ss (received b.bytes buff) tape (omega (arith, h)))

find-SendsFew : (n : ℕ) (ss : ℤ) (buff : List ℕ) → SendsFew n (find n ss buff)
unfolding find
find-SendsFew zero ss buff tape = omega arith
find-SendsFew (suc n) ss buff [] = omega arith
find-SendsFew (suc n) ss buff (a ∷ []) =
    on_sign-either (λ m. suc (sends (run m [])) ≤ suc n) a.res _ _
      (omega (arith, find-SendsFew n ss buff [])) λ _. omega arith
find-SendsFew (suc n) ss buff (a ∷ b ∷ tape) =
    let found = starts_with ip_found_ack (received b.bytes buff) in
    on_sign-either (λ m. suc (sends (run m (b ∷ tape))) ≤ suc n) a.res _ _
      (omega (arith, find-SendsFew n ss buff (b ∷ tape)))
      λ _.
        if-either (λ m. suc (sends (run m tape)) ≤ suc n) found _ _ (omega arith)
          (omega (arith, find-SendsFew n ss (received b.bytes buff) tape))

abbrev Over : Option ℤ → Type 0
Over r = (r ≡ some (pos 0)) ⊎ (r ≡ some (negsuc 0))

-- Whatever the kernel answers, 23 answers are enough for `main` to end, with 0 or with -1; and it never sends
-- more than ten datagrams.
pub main-ends :
    (buff : List ℕ) (tape : List Answer)
    → 23 ≤ length tape
    → ((result (main buff) tape ≡ some (pos 0)) ⊎ (result (main buff) tape ≡ some (negsuc 0)))
      × (sends (run (main buff) tape) ≤ 10)
unfolding main
main-ends buff [] h = absurd (omega (arith, h))
main-ends buff (a ∷ []) h = absurd (omega (arith, h))
main-ends buff (a ∷ b ∷ []) h = absurd (omega (arith, h))
main-ends buff (a ∷ b ∷ c ∷ tape) h = (
  on_sign-either (λ m. Over (result m (b ∷ c ∷ tape))) a.res _ _ (inr refl)
      λ _.
        on_sign-either (λ m. Over (result m (c ∷ tape))) b.res _ _ (inr refl)
          λ _. inl (find-Ends 10 a.res buff tape (omega (arith, h))),
  on_sign-either (λ m. sends (run m (b ∷ c ∷ tape)) ≤ 10) a.res _ _ (omega arith)
      λ _.
        on_sign-either (λ m. sends (run m (c ∷ tape)) ≤ 10) b.res _ _ (omega arith)
          λ _. find-SendsFew 10 a.res buff tape,
)
