-- ===== src/Arp/Frame.antt =====
-- socket/spread_method/arp.c: which frames it sends, and how many.
use learn_c_linux.Prelude.{
  ℕ, zero, suc, ◌+◌, ◌-◌, ◌*◌, ◌≤◌, ◌<◌, ◌≡◌, refl, ap, ◌∙◌, ◌&&◌, leb, ltb, if◌then◌else◌, true,
  Option, some, ◌>>=◌, List, [], ◌∷◌, length, get_or, All, arith, Yields, yields, Yields-some, ◌⊎◌,
  inl, inr,
}
use learn_c_linux.Prelude.Int.{ℤ}
use learn_c_linux.Sys.{Answer, Prog, call, run, returned_by}
use learn_c_linux.Sys.Depth.{Returns, Returns-on_sign, Returns-returned_by}
use learn_c_linux.Sys.Rule.{on_sign-either}
use learn_c_linux.Arp.{
  Layout, Frame, put, eth_dest, eth_source, fill_header, fill_packet, p_arp, ArpCall, socket, write,
  send_frames, main,
}

-- The layout of a struct of at least three bytes, of which a frame holds fifteen, with its fields inside.
pub record IsLayout (l : Layout) : Type 0 where
  pub some_size : 3 ≤ l.size
  pub fits : 15 * l.size ≤ 1514
  pub hrd : l.ar_hrd + 2 ≤ l.size
  pub pro : l.ar_pro + 2 ≤ l.size
  pub hln : l.ar_hln + 1 ≤ l.size
  pub pln : l.ar_pln + 1 ≤ l.size
  pub sha : l.ar_sha + 6 ≤ l.size
  pub sip : l.ar_sip + 8 ≤ l.size
  pub tha : l.ar_tha + 6 ≤ l.size
  pub tip : l.ar_tip + 8 ≤ l.size

abbrev written : ℕ → List ℕ → Frame → Frame
written at bytes ef i =
    if leb at i && ltb i (at + length bytes) then get_or bytes (i - at) 0 else ef i

put-written :
    (at : ℕ) (bytes : List ℕ) (ef : Frame)
    → at + length bytes ≤ 1514
    → put at bytes ef ≡ some (written at bytes ef)
unfolding put
put-written at bytes ef le = ground (arith, le)

written-inside :
    (at : ℕ) (bytes : List ℕ) (ef : Frame) (i : ℕ)
    → i < length bytes
    → written at bytes ef (at + i) ≡ get_or bytes i 0
written-inside at bytes ef i lt =
    let back : at + i - at ≡ i = omega arith in
    let above : leb at (at + i) ≡ true = ground arith in
    let below : ltb (at + i) (at + length bytes) ≡ true = ground (arith, lt) in
    rw (above, below, back) refl

written-outside :
    (at : ℕ) (bytes : List ℕ) (ef : Frame) (i : ℕ)
    → (i < at) ⊎ (at + length bytes ≤ i)
    → written at bytes ef i ≡ ef i
written-outside at bytes ef i out = ground (arith, out)

-- Nothing is changed before index 42, where an ARP packet would end.
abbrev Same : Frame → Frame → Type 0
Same ef ef' = (i : ℕ) → i < 42 → ef' i ≡ ef i

and_put :
    (ef : Frame) (o : Option Frame) (at : ℕ) (bytes : List ℕ)
    → Yields (Same ef) o
    → 42 ≤ at
    → at + length bytes ≤ 1514
    → Yields (Same ef) (o >>= put at bytes)
and_put ef o at bytes y above below =
    let (ef', e, same) = Yields-some y in
    rw (e, put-written at bytes ef' below)
      (yields λ i lt. written-outside at bytes ef' i (inl (omega (arith, lt, above))) ∙ same i lt)

-- The header of a frame, and what the memory held where the packet should be.
pub record Headed (htons : ℕ → List ℕ) (ef frame : Frame) : Type 0 where
  pub dest : (i : ℕ) → i < 6 → frame i ≡ get_or eth_dest i 0
  pub source : (i : ℕ) → i < 6 → frame (6 + i) ≡ get_or eth_source i 0
  pub proto : (i : ℕ) → i < 2 → frame (12 + i) ≡ get_or (htons 2054) i 0
  pub untouched : (i : ℕ) → 14 ≤ i → i < 42 → frame i ≡ ef i

module _ (l : Layout) (htons : ℕ → List ℕ) (sip tip : List ℕ)
    (short : (n : ℕ) → length (htons n) ≡ 2) where
  fill_header-Headed : (ef : Frame) → Yields (Headed htons ef) (fill_header l htons sip tip ef)
  unfolding fill_header
  fill_header-Headed ef =
      let first = written 6 eth_source ef in
      let second = written 0 eth_dest first in
      rw
        (
          put-written 6 eth_source ef (omega arith),
          put-written 0 eth_dest first (omega arith),
          put-written 12 (htons 2054) second (omega (arith, short 2054)),
        )
        (yields (record {
          dest = λ i lt.
              let same_place : i ≡ 0 + i = omega arith in
              written-outside 12 (htons 2054) second i (inl (omega (arith, lt)))
              ∙ (ap (λ k. second k) same_place ∙ written-inside 0 eth_dest first i lt);
          source = λ i lt.
              written-outside 12 (htons 2054) second (6 + i) (inl (omega (arith, lt)))
              ∙ (written-outside 0 eth_dest first (6 + i) (inr (omega arith))
                  ∙ written-inside 6 eth_source ef i lt);
          proto = λ i lt. written-inside 12 (htons 2054) second i (omega (arith, lt, short 2054));
          untouched = λ i le lt.
              written-outside 12 (htons 2054) second i (inr (omega (arith, le, short 2054)))
              ∙ (written-outside 0 eth_dest first i (inr (omega (arith, le)))
                  ∙ written-outside 6 eth_source ef i (inr (omega (arith, le))));
        }))

  fill_packet-Same :
      IsLayout l
      → length sip ≡ 8
      → length tip ≡ 8
      → (ef : Frame) → Yields (Same ef) (fill_packet l htons sip tip ef)
  unfolding fill_packet
  fill_packet-Same v eight eight' ef =
      let start : Yields (Same ef) (some ef) = yields λ i lt. refl in
      let step : (o : Option Frame) (field : ℕ) (bytes : List ℕ)
          → field + length bytes ≤ l.size
          → Yields (Same ef) o
          → Yields (Same ef) (o >>= put (p_arp l htons sip tip + field) bytes) =
        λ o field bytes inside y.
          and_put ef o _ bytes y (omega (arith, v.some_size)) (omega (arith, v.fits, inside)) in
      step _ l.ar_tip tip (omega (arith, v.tip, eight')) (
        step _ l.ar_tha eth_dest (omega (arith, v.tha)) (
          step _ l.ar_sip sip (omega (arith, v.sip, eight)) (
            step _ l.ar_sha eth_source (omega (arith, v.sha)) (
              step _ l.ar_pln (4 ∷ []) (omega (arith, v.pln)) (
                step _ l.ar_hln (6 ∷ []) (omega (arith, v.hln)) (
                  step _ l.ar_pro (htons 2048) (omega (arith, v.pro, short 2048))
                    (step (some ef) l.ar_hrd (htons 1) (omega (arith, v.hrd, short 1)) start)))))))

-- The frames that are written, in order.
abbrev pub frames : List (ArpCall × Answer) → List Frame
frames [] = []
frames ((write fd ef, a) ∷ t) = ef ∷ frames t
frames ((_, a) ∷ t) = frames t

send_frames-Returns : (n : ℕ) (fd : ℤ) (ef : Frame) → Returns (suc (suc n)) (send_frames n fd ef)
unfolding send_frames
send_frames-Returns zero fd ef = λ size. Returns-on_sign 1 size.res _ _ tt λ _ a. tt
send_frames-Returns (suc n) fd ef =
    λ size. Returns-on_sign (suc (suc n)) size.res _ _ tt λ _. send_frames-Returns n fd ef

abbrev NoFrame : (Frame → Type 0) → List (ArpCall × Answer) → Type 0
NoFrame P t = All P (frames t) × (length (frames t) ≤ 0)

send_frames-frames :
    (P : Frame → Type 0) (n : ℕ) (fd : ℤ) (ef : Frame) (tape : List Answer)
    → P ef
    → All P (frames (run (send_frames n fd ef) tape))
      × (length (frames (run (send_frames n fd ef) tape)) ≤ n)
unfolding send_frames
send_frames-frames P zero fd ef [] h = (tt, omega arith)
send_frames-frames P zero fd ef (a ∷ []) h =
    on_sign-either (λ m. NoFrame P (run m [])) a.res _ _ (tt, omega arith) λ _. (tt, omega arith)
send_frames-frames P zero fd ef (a ∷ b ∷ tape) h =
    on_sign-either (λ m. NoFrame P (run m (b ∷ tape))) a.res _ _ (tt, omega arith)
      λ _. (tt, omega arith)
send_frames-frames P (suc n) fd ef [] h = (tt, omega arith)
send_frames-frames P (suc n) fd ef (a ∷ tape) h =
    let sent : (m : Prog ArpCall) → Type 0 =
      λ m. All P (ef ∷ frames (run m tape)) × (length (ef ∷ frames (run m tape)) ≤ suc n) in
    on_sign-either sent a.res _ _ ((h, tt), omega arith)
      λ _. let r = send_frames-frames P n fd ef tape h in ((h, r.0), omega (arith, r.1))

opened_frames :
    (P : Frame → Type 0) (ef : Frame) (tape : List Answer)
    → P ef
    → let t = run (call socket λ fd. send_frames 8 fd.res ef) tape in
      (length (frames t) ≤ 8) × All P (frames t)
opened_frames P ef [] h = (omega arith, tt)
opened_frames P ef (a ∷ tape) h = let r = send_frames-frames P 8 a.res ef tape h in (r.1, r.0)

-- With any layout of the struct that fits and any bytes from the library, whatever the memory held: `main` writes
-- inside the frame, and then returns after at most eleven calls; it sends at most eight frames, and each
-- of them has the two addresses and the type in its header, and in the 28 bytes of the packet behind it what the memory held.
pub main-sends :
    (l : Layout) (htons : ℕ → List ℕ) (sip tip : List ℕ) (ef : Frame)
    → IsLayout l
    → ((n : ℕ) → length (htons n) ≡ 2)
    → length sip ≡ 8
    → length tip ≡ 8
    → Yields
        (λ m.
          (tape : List Answer)
          → (11 ≤ length tape → (r : ℤ) × (returned_by m tape ≡ some r))
            × (length (frames (run m tape)) ≤ 8)
            × All (Headed htons ef) (frames (run m tape)))
        (main l htons sip tip ef)
unfolding main
main-sends l htons sip tip ef v short eight eight' =
    let (headed, e, h) = Yields-some (fill_header-Headed l htons sip tip short ef) in
    let (filled, e', same) =
      Yields-some (fill_packet-Same l htons sip tip short v eight eight' headed) in
    let sound : Headed htons ef filled = record {
      dest = λ i lt. same i (omega (arith, lt)) ∙ h.dest i lt;
      source = λ i lt. same (6 + i) (omega (arith, lt)) ∙ h.source i lt;
      proto = λ i lt. same (12 + i) (omega (arith, lt)) ∙ h.proto i lt;
      untouched = λ i le lt. same i lt ∙ h.untouched i le lt;
    } in
    rw (main, e, e')
      (yields λ tape.
        let few = opened_frames (Headed htons ef) filled tape sound in
        (
          Returns-returned_by 11 (call socket λ fd. send_frames 8 fd.res filled) tape
              λ fd. send_frames-Returns 8 fd.res filled,
          few.0,
          few.1,
        ))
