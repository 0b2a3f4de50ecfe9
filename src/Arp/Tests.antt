-- ===== src/Arp/Tests.antt =====
-- A run of socket/spread_method/arp.c, and its theorem at it.
use learn_c_linux.Prelude.{
  ℕ, ◌/◌, ◌%◌, ◌≤◌, ◌≡◌, refl, some, List, [], ◌∷◌, length, All, arith, Yields, ◌>>=◌,
}
use learn_c_linux.Prelude.Int.{ℤ}
use learn_c_linux.Sys.{Answer, run, returned_by}
use learn_c_linux.Arp.{Layout, Frame, put, fill_packet, main}
use learn_c_linux.Arp.Frame.{IsLayout, Headed, frames, main-sends}

-- With pointers of eight bytes.
abbrev usual : Layout
usual = record {
  size = 40;
  ar_hrd = 0;
  ar_pro = 2;
  ar_hln = 4;
  ar_pln = 5;
  ar_sha = 8;
  ar_sip = 16;
  ar_tha = 24;
  ar_tip = 32;
}

usual-IsLayout : IsLayout usual
usual-IsLayout = omega arith

abbrev network : ℕ → List ℕ
network n = n / 256 ∷ n % 256 ∷ []

abbrev pointer : List ℕ
pointer = 172 ∷ 19 ∷ 111 ∷ 143 ∷ 0 ∷ 0 ∷ 0 ∷ 0 ∷ []

abbrev memory : Frame
memory i = 99

-- The operation code is never written; the hardware type is at 560.
packet :
    (fill_packet usual network pointer pointer memory >>= λ ef.
    some (ef 14 ∷ ef 560 ∷ ef 561 ∷ ef 566 ∷ []))
    ≡ some (99 ∷ 0 ∷ 1 ∷ 99 ∷ [])
unfolding fill_packet put
packet = refl

main-sends_example :
    Yields
      (λ m.
        (tape : List Answer)
        → (11 ≤ length tape → (r : ℤ) × (returned_by m tape ≡ some r))
          × (length (frames (run m tape)) ≤ 8)
          × All (Headed network memory) (frames (run m tape)))
      (main usual network pointer pointer memory)
main-sends_example =
    main-sends usual network pointer pointer memory usual-IsLayout (λ n. refl) refl refl
