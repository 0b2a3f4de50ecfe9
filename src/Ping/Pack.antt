-- ===== src/Ping/Pack.antt =====
-- socket/socket_raw/ping.c: the data of a request, and the statistics.
use learn_c_linux.Prelude.{
  ℕ, zero, suc, ◌+◌, ◌%◌, ◌^◌, ◌<◌, ◌≤◌, ◌≡◌, refl, ltb, false, List, arith, length, set,
  length-set, get_or, get_or-set_self, get_or-set_ne, Yields, yields, Yields-mono, Yields-some,
  lt→ltb, ◌∙◌, ◌⊎◌, inl, inr, dec_lt, ℕ_discrete, take,
}
use learn_c_linux.Prelude.Int.{ℤ}
use learn_c_linux.Crc.{crc16_modbus}
use learn_c_linux.Ping.{fill_data, Icmp, icmp_pack, to_u16}

-- The data from index `i` and before `len` hold their own index, and the others are as before.
record Numbering (i len : ℕ) (buf out : List ℕ) : Type 0 where
  size : length out ≡ length buf
  inside : (k : ℕ) → i ≤ k → k < len → get_or out k 0 ≡ k
  outside : (k : ℕ) → (k < i) ⊎ (len ≤ k) → get_or out k 0 ≡ get_or buf k 0

-- The data before index `len` hold their own index, and the others are as before.
pub record Numbered (len : ℕ) (buf out : List ℕ) : Type 0 where
  pub size : length out ≡ length buf
  pub each :
      (k : ℕ) → ((k < len) × (get_or out k 0 ≡ k)) ⊎ ((len ≤ k) × (get_or out k 0 ≡ get_or buf k 0))

Numbered-of : (len : ℕ) (buf out : List ℕ) → Numbering 0 len buf out → Numbered len buf out
Numbered-of len buf out n = record {
  size = n.size;
  each = λ k. elim (dec_lt k len) [
    | yes lt ↦ inl (lt, n.inside k (omega arith) lt)
    | no ge ↦ let past : len ≤ k = omega arith in inr (past, n.outside k (inr past))
  ];
}

not_below : (a b : ℕ) → ¬ (a < b) → ltb a b ≡ false
not_below a b h = ground arith

sides : (i len k : ℕ) → i < len → (k < i) ⊎ (len ≤ k) → (k < i + 1) ⊎ (len ≤ k)
sides i len k lt (inl h) = inl (omega arith)
sides i len k lt (inr h) = inr h

fill_data-Numbering :
    (f i len : ℕ) (buf : List ℕ)
    → len < 2 ^ 8
    → len ≤ length buf
    → i ≤ len
    → len < i + f
    → Yields (Numbering i len buf) (fill_data f i len buf)
unfolding fill_data
fill_data-Numbering zero i len buf byte fits up fuel = absurd (omega arith)
fill_data-Numbering (suc f) i len buf byte fits up fuel = elim (dec_lt i len) [
  | no ge ↦ rw (not_below i len ge) (
      yields (record {
        size = refl;
        inside = λ k from to. absurd (omega arith);
        outside = λ k which. refl;
      }))
  | yes lt ↦
      let within : i < length buf = omega arith in
      let wrap : (i + 1) % 2 ^ 8 ≡ i + 1 = omega arith in
      rw (lt→ltb i len lt, lt→ltb i (length buf) within, wrap)
        (Yields-mono
          (fill_data-Numbering f (i + 1) len (set buf i i) byte (rw (length-set buf i i) fits)
            (omega arith) (omega arith))
          λ out r. record {
            size = r.size ∙ length-set buf i i;
            inside = λ k from to. elim (ℕ_discrete k i) [
              | yes e ↦ rw e (r.outside i (inl (omega arith)) ∙ get_or-set_self buf i i 0 within)
              | no ne ↦ r.inside k (omega arith) to
            ];
            outside = λ k which.
                r.outside k (sides i len k lt which) ∙ get_or-set_ne buf i k i 0 (omega arith);
          })
]

-- `icmp_pack` with a length below 256, when the buffer has room for the data: it ends, inside the
-- buffer; the type and the sequence number are in the header, the first `length` data bytes count up
-- from 0, the others stay, and the checksum is the CRC of the packet's first `length` bytes taken with
-- the checksum field at 0.
pub icmp_pack-Numbered :
    (bytes : Icmp → List ℕ) (echo pid : ℕ) (icmph : Icmp) (seq : ℤ) (len : ℕ)
    → len < 2 ^ 8
    → len ≤ length icmph.icmp_data
    → Yields
        (λ h.
          (h.icmp_type ≡ echo)
          × (h.icmp_seq ≡ to_u16 seq)
          × Numbered len icmph.icmp_data h.icmp_data
          × (h.icmp_cksum ≡ crc16_modbus (take len (bytes (record h { icmp_cksum = 0 })))))
        (icmp_pack bytes echo pid icmph seq len)
unfolding icmp_pack
icmp_pack-Numbered bytes echo pid icmph seq len byte fits =
    let (filled, e, r) =
      Yields-some (
        fill_data-Numbering (len + 1) 0 len icmph.icmp_data byte fits (omega arith)
          (omega arith)) in
    rw e (yields (refl, refl, Numbered-of len icmph.icmp_data filled r, refl))
