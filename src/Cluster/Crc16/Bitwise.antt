-- ===== src/Cluster/Crc16/Bitwise.antt =====
-- The CRC with the polynomial x^16 + x^12 + x^5 + 1, computed bit by bit, beside `crc16`.
use icore_tax_gateway.Base.{
  ℕ, zero, suc, ◌+◌, ◌*◌, ◌/◌, ◌%◌, ◌<◌, bit_and, bit_xor, Bool, true, ◌≡◌, refl, sym, ◌∙◌, [], ◌∷◌,
  Bytes, arith, ltb, ◌==◌, if◌then◌else◌, ==_iff, get_or, All, ltb→lt,
}
use icore_tax_gateway.Base.Bits.{
  bit_xor-split, quarters, all_below, all_below_sound, zero-xor, xor-zero,
}
use icore_tax_gateway.Cluster.Crc16.{crc16tab, crc16_step, crc16_loop, crc16}

-- One bit of the division: shift left, and subtract the polynomial if a one falls out.
pub shift_bit : ℕ → ℕ
shift_bit x = if ltb x 0x8000 then x * 2 else bit_xor (x * 2 % 0x10000) 0x1021

abbrev shift_bits : ℕ → ℕ → ℕ
shift_bits zero x = x
shift_bits (suc n) x = shift_bits n (shift_bit x)

-- One byte: add it to the high byte of the register, then divide through eight bits.
abbrev pub divide_byte : ℕ → ℕ → ℕ
divide_byte crc c = shift_bits 8 (bit_xor crc (c * 256))

abbrev pub crc16_bitwise : ℕ → Bytes → ℕ
crc16_bitwise crc [] = crc
crc16_bitwise crc (c ∷ buf) = crc16_bitwise (divide_byte crc c) buf

-- The table has the eight steps for each high byte, whatever the low byte.
entry_divides : ℕ → ℕ → Bool
entry_divides y lo = shift_bits 8 (y * 256 + lo) == bit_xor (lo * 256) (get_or crc16tab y 0)

table_divides : all_below 256 (λ y. all_below 256 (λ lo. entry_divides y lo)) ≡ true
unfolding all_below entry_divides shift_bit
table_divides = refl

divides :
    (y lo : ℕ)
    → y < 256
    → lo < 256
    → shift_bits 8 (y * 256 + lo) ≡ bit_xor (lo * 256) (get_or crc16tab y 0)
unfolding entry_divides
divides y lo hy hl =
    (==_iff _ _).0 (all_below_sound 256 _ lo (all_below_sound 256 _ y table_divides hy) hl)

-- Facts about single bytes, by checking them all.
bytes_xor : all_below 256 (λ x. all_below 256 (λ y. ltb (bit_xor x y) 256)) ≡ true
unfolding all_below
bytes_xor = refl

xor-lt : (x y : ℕ) → x < 256 → y < 256 → bit_xor x y < 256
xor-lt x y hx hy = ltb→lt _ _ (all_below_sound 256 _ y (all_below_sound 256 _ x bytes_xor hx) hy)

bytes_mask : all_below 256 (λ y. bit_and y 0x00ff == y) ≡ true
unfolding all_below
bytes_mask = refl

mask_byte : (y : ℕ) → y < 256 → bit_and y 0x00ff ≡ y
mask_byte y h = (==_iff _ _).0 (all_below_sound 256 _ y bytes_mask h)

entries_fit : all_below 256 (λ y. ltb (get_or crc16tab y 0) 0x10000) ≡ true
unfolding all_below
entries_fit = refl

entry-lt : (y : ℕ) → y < 256 → get_or crc16tab y 0 < 0x10000
entry-lt y h = ltb→lt _ _ (all_below_sound 256 _ y entries_fit h)

-- The register after the byte is added: its low byte is as it was.
add_byte : (crc c : ℕ) → bit_xor crc (c * 256) ≡ bit_xor (crc / 256) c * 256 + crc % 256
add_byte crc c = omega (
  arith,
  bit_xor-split crc (c * 256),
  quarters (crc / 256) (crc / 256) (c * 256 / 256) c refl (omega arith),
  quarters (crc % 256) (crc % 256) (c * 256 % 256) 0 refl (omega arith),
  xor-zero (crc % 256),
)

-- A word in the high byte of which another byte is added.
add_high : (crc t : ℕ) → bit_xor (crc * 256) t ≡ bit_xor crc (t / 256) * 256 + t % 256
add_high crc t = omega (
  arith,
  bit_xor-split (crc * 256) t,
  quarters (crc * 256 / 256) crc (t / 256) (t / 256) (omega arith) refl,
  quarters (crc * 256 % 256) 0 (t % 256) (t % 256) (omega arith) refl,
  zero-xor (t % 256),
)

-- What the cut to 16 bits leaves of the shifted register.
cut_word : (crc t : ℕ) → t < 0x10000 → bit_xor (crc * 256) t % 0x10000 ≡ bit_xor (crc % 256 * 256) t
cut_word crc t h = omega (
  arith,
  add_high crc t,
  add_high (crc % 256) t,
  bit_xor-split crc (t / 256),
  quarters (crc % 256) (crc % 256) (t / 256 % 256) (t / 256) refl (omega arith),
  xor-lt (crc % 256) (t / 256) (omega arith) (omega arith),
)

-- The step through the table is the step through eight bits.
step_divides : (crc c : ℕ) → crc < 0x10000 → c < 256 → crc16_step crc c ≡ divide_byte crc c
unfolding crc16_step
step_divides crc c h k =
    let y = bit_xor (crc / 256) c in
    let hy : y < 256 = xor-lt (crc / 256) c (omega arith) k in
    rw (mask_byte y hy, add_byte crc c)
      (cut_word crc (get_or crc16tab y 0) (entry-lt y hy)
        ∙ sym (divides y (crc % 256) hy (omega arith)))

pub crc16_step-lt : (crc c : ℕ) → crc16_step crc c < 0x10000
unfolding crc16_step
crc16_step-lt crc c = omega arith

loop_divides :
    (crc : ℕ) (buf : Bytes)
    → crc < 0x10000
    → All (λ c. c < 256) buf
    → crc16_loop crc buf ≡ crc16_bitwise crc buf
unfolding crc16_loop
loop_divides crc [] h k = refl
loop_divides crc (c ∷ buf) h k =
    rw (← step_divides crc c h k.0) (loop_divides (crc16_step crc c) buf (crc16_step-lt crc c) k.1)

-- On every buffer of bytes, the table-driven checksum is the one computed bit by bit with the
-- polynomial 0x1021 from a register of zero.
pub crc16-eq-crc16_bitwise :
    (buf : Bytes) → All (λ c. c < 256) buf → crc16 buf ≡ crc16_bitwise 0 buf
unfolding crc16
crc16-eq-crc16_bitwise buf h = loop_divides 0 buf (omega arith) h
