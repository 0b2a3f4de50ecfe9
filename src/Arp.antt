-- ===== src/Arp.antt =====
-- socket/spread_method/arp.c: a program that fills an Ethernet frame with a request for an address and sends
-- it eight times. The frame is the array `ef`, by its indices; `none` is a write outside it. What the library
-- and the compiler give are arguments: `htons` the two bytes in memory of its result, `sip` and `tip` the bytes of
-- the pointers that are made of the results of `inet_addr`, and the layout of `struct arppacket`. Sleeping
-- and printing are left out.
pub mod Frame
mod Tests
use learn_c_linux.Prelude.{
  ℕ, zero, suc, ◌+◌, ◌-◌, ◌*◌, ◌≤◌, leb, ltb, ◌&&◌, if◌then◌else◌, Option, none, some, ◌>>=◌, List,
  [], ◌∷◌, length, get_or,
}
use learn_c_linux.Prelude.Int.{ℤ, pos, negsuc}
use learn_c_linux.Sys.{Answer, Prog, done, call, ignore, on_sign}

abbrev pub eth_frame_len : ℕ
eth_frame_len = 1514

abbrev pub eth_hlen : ℕ
eth_hlen = 14

-- `sizeof(struct arppacket)`, and where its fields begin.
pub record Layout : Type 0 where
  pub size : ℕ
  pub ar_hrd : ℕ
  pub ar_pro : ℕ
  pub ar_hln : ℕ
  pub ar_pln : ℕ
  pub ar_sha : ℕ
  pub ar_sip : ℕ
  pub ar_tha : ℕ
  pub ar_tip : ℕ

abbrev pub Frame : Type 0
Frame = ℕ → ℕ

-- Bytes written from an index on.
unfoldable pub put : ℕ → List ℕ → Frame → Option Frame
put at bytes ef =
    if leb (at + length bytes) eth_frame_len
    then some (λ i. if leb at i && ltb i (at + length bytes) then get_or bytes (i - at) 0 else ef i)
    else none

abbrev pub eth_dest : List ℕ
eth_dest = 255 ∷ 255 ∷ 255 ∷ 255 ∷ 255 ∷ 255 ∷ []

abbrev pub eth_source : List ℕ
eth_source = 0 ∷ 21 ∷ 93 ∷ 211 ∷ 135 ∷ 179 ∷ []

module _ (l : Layout) (htons : ℕ → List ℕ) (sip tip : List ℕ) where
  -- `(struct arppacket*)ef + ETH_HLEN`, which counts in structs.
  abbrev pub p_arp : ℕ
  p_arp = eth_hlen * l.size

  unfoldable pub fill_header : Frame → Option Frame
  fill_header ef = put 6 eth_source ef >>= put 0 eth_dest >>= put 12 (htons 2054)

  unfoldable pub fill_packet : Frame → Option Frame
  fill_packet ef =
      put (p_arp + l.ar_hrd) (htons 1) ef
      >>= put (p_arp + l.ar_pro) (htons 2048)
      >>= put (p_arp + l.ar_hln) (6 ∷ [])
      >>= put (p_arp + l.ar_pln) (4 ∷ [])
      >>= put (p_arp + l.ar_sha) eth_source
      >>= put (p_arp + l.ar_sip) sip
      >>= put (p_arp + l.ar_tha) eth_dest
      >>= put (p_arp + l.ar_tip) tip

pub data ArpCall : Type 0 where
  socket : ArpCall
  write : ℤ → Frame → ArpCall
  read : ℤ → ℕ → ArpCall
  close : ℤ → ArpCall

-- The loop, with `n` frames left, and what follows it.
unfoldable pub send_frames : ℕ → ℤ → Frame → Prog ArpCall
send_frames zero fd ef =
    call (read fd 512)
      λ size. on_sign size.res (done (negsuc 0)) λ _. ignore (close fd) (done (pos 0))
send_frames (suc n) fd ef =
    call (write fd ef) λ size. on_sign size.res (done (negsuc 0)) λ _. send_frames n fd ef

-- `ef` is what the memory held.
unfoldable pub main : Layout → (ℕ → List ℕ) → List ℕ → List ℕ → Frame → Option (Prog ArpCall)
unfolding fill_header fill_packet send_frames
main l htons sip tip ef = do
  headed ← fill_header l htons sip tip ef
  filled ← fill_packet l htons sip tip headed
  some (call socket λ fd. send_frames 8 fd.res filled)
