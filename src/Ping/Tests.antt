-- ===== src/Ping/Tests.antt =====
-- Runs of socket/socket_raw/ping.c, and its theorems at concrete inputs.
use learn_c_linux.Prelude.{
  ℕ, ◌≡◌, refl, true, none, some, List, [], ◌∷◌, replicate, arith, Yields, take,
}
use learn_c_linux.Prelude.Int.{pos}
use learn_c_linux.Crc.{crc16_modbus}
use learn_c_linux.Ping.{
  Timeval, icmp_tvsub, PingmPacket, Ping, Message, Icmp, icmp_statistics, icmp_pack,
}
use learn_c_linux.Ping.Time.{IsTime, Elapsed, icmp_tvsub-Elapsed}
use learn_c_linux.Ping.Pack.{Numbered, icmp_pack-Numbered}

abbrev early : Timeval
early = record { tv_sec = pos 5; tv_usec = pos 999000 }

abbrev late : Timeval
late = record { tv_sec = pos 7; tv_usec = pos 1000 }

tvsub_run : icmp_tvsub late early ≡ record { tv_sec = pos 1; tv_usec = pos 2000 }
unfolding icmp_tvsub
tvsub_run = refl

icmp_tvsub-Elapsed_example :
    IsTime (icmp_tvsub late early) × Elapsed late early (icmp_tvsub late early)
icmp_tvsub-Elapsed_example =
    icmp_tvsub-Elapsed late early (omega arith, omega arith) (omega arith, omega arith)

no_loss_to_count : icmp_statistics 0 0 ≡ none
unfolding icmp_statistics
no_loss_to_count = refl

loss_run : icmp_statistics 4 3 ≡ some (pos 25)
unfolding icmp_statistics
loss_run = refl

abbrev free_packet : PingmPacket
free_packet = record { tv_begin = early; seq = pos 0; flag = 0 }

abbrev idle : Ping
idle = record {
  alive = true;
  pid = 42;
  packet_send = pos 0;
  packet_recv = pos 0;
  pingpacket = replicate 128 free_packet;
  tv_interval = early;
}

abbrev reply : Message
reply = record { len = 84; ip_hl = 5; is_echo_reply = true; icmp_id = 42; icmp_seq = 0 }

abbrev request : Icmp
request = record {
  icmp_type = 0;
  icmp_code = 0;
  icmp_cksum = 7;
  icmp_seq = 0;
  icmp_id = 0;
  icmp_data = 9 ∷ 9 ∷ 9 ∷ 9 ∷ [];
}

-- A layout for the test.
abbrev bytes_of : Icmp → List ℕ
bytes_of h =
    h.icmp_type ∷ h.icmp_code ∷ h.icmp_cksum ∷ 0 ∷ h.icmp_id ∷ 0 ∷ h.icmp_seq ∷ 0 ∷ h.icmp_data

icmp_pack-Numbered_example :
    Yields
      (λ h.
        (h.icmp_type ≡ 8)
        × (h.icmp_seq ≡ 3)
        × Numbered 3 request.icmp_data h.icmp_data
        × (h.icmp_cksum ≡ crc16_modbus (take 3 (bytes_of (record h { icmp_cksum = 0 })))))
      (icmp_pack bytes_of 8 42 request (pos 3) 3)
icmp_pack-Numbered_example =
    icmp_pack-Numbered bytes_of 8 42 request (pos 3) 3 (omega arith) (omega arith)
