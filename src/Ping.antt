-- ===== src/Ping.antt =====
-- socket/socket_raw/ping.c: the table of packets under way, the two threads' loop bodies, and the
-- header of a request. The clock, `sendto` and the received bytes come in as arguments.
mod Start
pub mod Time
pub mod Table
pub mod Pack
mod Tests
use Prim.Native.Nat.{bit_and}
use learn_c_linux.Prelude.{
  ℕ, zero, suc, ◌+◌, ◌-◌, ◌*◌, ◌/◌, ◌%◌, ◌^◌, Bool, true, false, not, ◌&&◌, Option, none, some,
  List, [], ◌∷◌, ltb, leb, ◌==◌, if◌then◌else◌, length, get_elem?, set, take, ◌>>=◌,
}
use learn_c_linux.Prelude.Int.{ℤ, pos, negsuc, pos_part, neg_part, sub_ℕ, ◌+ℤ◌, ◌-ℤ◌, ◌*ℤ◌, ltb_ℤ}
use learn_c_linux.Crc.{crc16_modbus}

pub record Timeval : Type 0 where
  pub tv_sec : ℤ
  pub tv_usec : ℤ

unfoldable pub icmp_tvsub : Timeval → Timeval → Timeval
unfolding ◌-ℤ◌ ◌+ℤ◌
icmp_tvsub end begin =
    let sec = end.tv_sec -ℤ begin.tv_sec in
    let usec = end.tv_usec -ℤ begin.tv_usec in
    if ltb_ℤ usec (pos 0)
    then record { tv_sec = sec -ℤ pos 1; tv_usec = usec +ℤ pos 1000000 }
    else record { tv_sec = sec; tv_usec = usec }

-- `tv_end` is never written.
pub record PingmPacket : Type 0 where
  pub tv_begin : Timeval
  pub seq : ℤ
  pub flag : ℕ

-- The static variables that the two threads and the signal handler share.
pub record Ping : Type 0 where
  pub alive : Bool
  pub pid : ℕ
  pub packet_send : ℤ
  pub packet_recv : ℤ
  pub pingpacket : List PingmPacket
  pub tv_interval : Timeval

abbrev pub eq_ℤ : ℤ → ℤ → Bool
eq_ℤ a b = (pos_part a == pos_part b) && (neg_part a == neg_part b)

-- The first index from `i` whose packet passes the test.
unfoldable pub find_from : (PingmPacket → Bool) → ℕ → List PingmPacket → Option ℕ
find_from is_found i [] = none
find_from is_found i (p ∷ ps) = if is_found p then some i else find_from is_found (i + 1) ps

-- `if(seq = -1)` assigns: what is tested is the new value.
unfoldable pub icmp_findpacket : List PingmPacket → ℤ → Option ℕ
unfolding find_from
icmp_findpacket packets _ =
    let seq = negsuc 0 in
    if not (eq_ℤ seq (pos 0))
    then find_from (λ p. p.flag == 0) 0 packets
    else if not (ltb_ℤ seq (pos 0))
    then find_from (λ p. eq_ℤ p.seq seq) 0 packets
    else none

-- `++` on a `short`.
abbrev pub next_short : ℤ → ℤ
next_short (pos n) = if n == 32767 then negsuc 32767 else pos (n + 1)
next_short (negsuc zero) = pos 0
next_short (negsuc (suc n)) = negsuc n

-- Division as C does it, towards zero.
abbrev pub div_ℤ : ℤ → ℕ → ℤ
div_ℤ (pos n) d = pos (n / d)
div_ℤ (negsuc n) d = sub_ℕ 0 ((n + 1) / d)

-- A received message: its length and the header fields that `icmp_unpack` reads behind the IP header.
pub record Message : Type 0 where
  pub len : ℕ
  pub ip_hl : ℕ
  pub is_echo_reply : Bool
  pub icmp_id : ℕ
  pub icmp_seq : ℕ

-- `icmp_unpack`, on a table that the other thread leaves alone in the meantime; there is no lock. It returns
-- -1, or it ends with no `return`, having printed the round-trip time.
pub data Unpacked : Type 0 where
  rejected : Unpacked
  accepted : Ping → ℤ → Unpacked

pub round_trip : Timeval → ℤ
unfolding ◌+ℤ◌ ◌*ℤ◌
round_trip tv = tv.tv_sec *ℤ pos 1000 +ℤ div_ℤ tv.tv_usec 1000

unfoldable pub accept_reply : Timeval → Ping → ℕ → PingmPacket → Unpacked
unfolding icmp_tvsub round_trip
accept_reply now s i packet =
    accepted
      (record s {
        pingpacket = set s.pingpacket i (record packet { flag = 0 });
        packet_recv = next_short s.packet_recv;
      })
      (round_trip (icmp_tvsub now packet.tv_begin))

unfoldable pub icmp_unpack : Timeval → Message → Ping → Unpacked
unfolding icmp_findpacket accept_reply
icmp_unpack now m s =
    if ltb m.len (m.ip_hl * 4 + 8)
    then rejected
    else if m.is_echo_reply && (m.icmp_id == s.pid)
    then elim (icmp_findpacket s.pingpacket (pos m.icmp_seq)) [
      | none ↦ rejected
      | some i ↦ elim (get_elem? s.pingpacket i) [
        | none ↦ rejected
        | some packet ↦ accept_reply now s i packet
      ]
    ]
    else rejected

-- The table after `icmp_send` has looked for a free packet.
unfoldable pub mark_sent : Timeval → ℤ → List PingmPacket → List PingmPacket
unfolding icmp_findpacket
mark_sent now seq packets = elim (icmp_findpacket packets (negsuc 0)) [
  | none ↦ packets
  | some i ↦ set packets i (record { tv_begin = now; seq = seq; flag = 1 })
]

-- One round of the loop of `icmp_send`, on a table that the other thread leaves alone in the meantime. `size`
-- is what `sendto` returns.
unfoldable pub icmp_send : Timeval → ℤ → Ping → Ping
unfolding mark_sent
icmp_send now size s =
    let marked = record s { pingpacket = mark_sent now s.packet_send s.pingpacket } in
    if ltb_ℤ size (pos 0) then marked else record marked { packet_send = next_short s.packet_send }

-- One such round of the loop of `icmp_recv`, when `select` reports a message and `recvfrom` gets it.
unfoldable pub icmp_recv : Timeval → Message → Ping → Ping
unfolding icmp_unpack
icmp_recv now m s = elim (icmp_unpack now m s) [ rejected ↦ s | accepted s' _ ↦ s' ]

unfoldable pub icmp_sigint : Timeval → Timeval → Ping → Ping
unfolding icmp_tvsub
icmp_sigint tv_end tv_begin s = record s { alive = false; tv_interval = icmp_tvsub tv_end tv_begin }

-- The loss in percent that `icmp_statistics` prints for two counts; `none` is a division by zero.
unfoldable pub icmp_statistics : ℕ → ℕ → Option ℤ
unfolding ◌*ℤ◌ ◌-ℤ◌
icmp_statistics zero recv = none
icmp_statistics (suc n) recv = some (div_ℤ ((pos (suc n) -ℤ pos recv) *ℤ pos 100) (suc n))

pub record Icmp : Type 0 where
  pub icmp_type : ℕ
  pub icmp_code : ℕ
  pub icmp_cksum : ℕ
  pub icmp_seq : ℕ
  pub icmp_id : ℕ
  pub icmp_data : List ℕ

-- The loop that numbers the data, with the counter an `unsigned char`; `none` is a write outside the
-- buffer, or no fuel left.
unfoldable pub fill_data : ℕ → ℕ → ℕ → List ℕ → Option (List ℕ)
fill_data zero i len buf = none
fill_data (suc f) i len buf =
    let rest = fill_data f ((i + 1) % 2 ^ 8) len (set buf i i) in
    if ltb i len then (if ltb i (length buf) then rest else none) else some buf

-- The conversion of an `int` to a 16-bit field.
abbrev pub to_u16 : ℤ → ℕ
to_u16 (pos n) = n % 2 ^ 16
to_u16 (negsuc n) = 2 ^ 16 - 1 - n % 2 ^ 16

-- `icmp_pack`. `bytes` is how the struct lies in memory, and `echo` stands for `ICMP_ECHO`.
unfoldable pub icmp_pack : (Icmp → List ℕ) → ℕ → ℕ → Icmp → ℤ → ℕ → Option Icmp
unfolding fill_data
icmp_pack bytes echo pid icmph seq len = do
  filled ← fill_data (len + 1) 0 len icmph.icmp_data
  let packed : Icmp = record {
    icmp_type = echo;
    icmp_code = 0;
    icmp_cksum = 0;
    icmp_seq = to_u16 seq;
    icmp_id = bit_and pid 0xffff;
    icmp_data = filled;
  }
  some (record packed { icmp_cksum = crc16_modbus (take len (bytes packed)) })
