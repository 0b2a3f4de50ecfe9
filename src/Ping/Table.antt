-- ===== src/Ping/Table.antt =====
-- socket/socket_raw/ping.c: which packet a reply is matched with.
use learn_c_linux.Prelude.{
  ℕ, ◌+◌, ◌*◌, ◌≤◌, ◌<◌, ◌≡◌, ◌≢◌, ◌⊎◌, true, false, none, some, List, ◌==◌, get_elem?, set, take,
  All,
}
use learn_c_linux.Ping.{
  Timeval, Ping, PingmPacket, Message, find_from, icmp_unpack, next_short, round_trip, icmp_tvsub,
  accepted,
}

abbrev pub IsUsed : PingmPacket → Type 0
IsUsed p = p.flag ≢ 0

-- The packet at `i` is free, and those in front of it are not.
pub record FirstFree (packets : List PingmPacket) (i : ℕ) (p : PingmPacket) : Type 0 where
  pub at : get_elem? packets i ≡ some p
  pub free : p.flag ≡ 0
  pub before : All IsUsed (take i packets)

-- The search from the index `i` on.
Searched : ℕ → List PingmPacket → Type 0
Searched i packets =
    ((find_from (λ p. p.flag == 0) i packets ≡ none) × All IsUsed packets)
    ⊎ ((k : ℕ) × (p : PingmPacket) × (find_from (λ p. p.flag == 0) i packets ≡ some (i + k))
        × FirstFree packets k p)

-- Why a message is rejected.
pub record IsRefused (m : Message) (s : Ping) : Type 0 where
  pub why :
      (m.len < m.ip_hl * 4 + 8)
      ⊎ ((m.is_echo_reply ≡ false) ⊎ ((m.icmp_id ≢ s.pid) ⊎ All IsUsed s.pingpacket))

-- A message that is accepted, and the packet that it is matched with.
pub record IsMatched (now : Timeval) (m : Message) (s : Ping) : Type 0 where
  pub long : m.ip_hl * 4 + 8 ≤ m.len
  pub reply : m.is_echo_reply ≡ true
  pub ours : m.icmp_id ≡ s.pid
  pub index : ℕ
  pub packet : PingmPacket
  pub first : FirstFree s.pingpacket index packet
  pub result :
      icmp_unpack now m s
      ≡ accepted
          (record s {
            pingpacket = set s.pingpacket index (record packet { flag = 0 });
            packet_recv = next_short s.packet_recv;
          })
          (round_trip (icmp_tvsub now packet.tv_begin))
