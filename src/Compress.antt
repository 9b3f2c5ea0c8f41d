-- ===== src/Compress.antt =====
-- redis-6.0.2/library.c, `crc8` and the LZ4 branches of `redis_compress` and `redis_uncompress`: a value
-- with a header of its length and the checksum of that. An int has four bytes, the lowest first.
pub mod RoundTrip
pub mod Tests
use icore_tax_gateway.Base.{
  ℕ, zero, suc, ◌*◌, ◌/◌, ◌%◌, ◌^◌, ◌<◌, ◌≡◌, bit_and, bit_xor, Option, none, some, List, [], ◌∷◌,
  ◌++◌, Bytes, ltb, ◌==◌, if◌then◌else◌, length, ◌-◌,
}
use icore_tax_gateway.Base.Int.{ℤ, pos, to_int, little_endian}

-- LZ4_compress_default or LZ4_compress_HC, by the level, and LZ4_decompress_safe with its room; `none` is
-- a result that is not positive. What is compressed is an int long, and comes back in its own room.
pub record Lz4 : Type 0 where
  pub compress : ℤ → Bytes → Option Bytes
  pub decompress_safe : Bytes → ℤ → Option Bytes
  pub compress_fits :
      (level : ℤ) (buf out : Bytes) → compress level buf ≡ some out → length out < 2 ^ 31
  pub decompress_compress :
      (level : ℤ) (buf out : Bytes)
      → compress level buf ≡ some out
      → decompress_safe out (pos (length buf)) ≡ some buf

-- `if (crc & 0x80) crc = (uint8_t)(crc << 1) ^ 0x31; else crc <<= 1;`
unfoldable pub crc8_bit : ℕ → ℕ
crc8_bit crc = if bit_and crc 0x80 == 0 then crc * 2 % 256 else bit_xor (crc * 2 % 256) 0x31

unfoldable pub crc8_bits : ℕ → ℕ → ℕ
crc8_bits zero crc = crc
crc8_bits (suc i) crc = crc8_bits i (crc8_bit crc)

unfoldable pub crc8_loop : ℕ → Bytes → ℕ
crc8_loop crc [] = crc
crc8_loop crc (c ∷ input) = crc8_loop (crc8_bits 8 (bit_xor crc c)) input

unfoldable pub crc8 : Bytes → ℕ
unfolding crc8_loop crc8_bits crc8_bit
crc8 input = crc8_loop 0xff input

-- The bytes of an int that is not negative.
unfoldable pub int_bytes : ℕ → Bytes
int_bytes n = n % 256 ∷ n / 256 % 256 ∷ n / 256 / 256 % 256 ∷ n / 256 / 256 / 256 % 256 ∷ []

module _ (lz4 : Lz4) where
  unfoldable pub with_header : Bytes → Option Bytes → Option Bytes
  with_header buf none = none
  with_header buf (some out) =
      some (crc8 (int_bytes (length buf)) ∷ (int_bytes (length buf) ++ out))

  -- `none` leaves the value as it is.
  unfoldable pub lz4_compress : ℤ → Bytes → Option Bytes
  lz4_compress level buf =
      if ltb (length buf) 1
      then none
      else if ltb (2 ^ 31 - 1) (length buf)
      then none
      else with_header buf (lz4.compress level buf)

  unfoldable pub with_length : ℤ → Option Bytes → Option (Bytes × ℤ)
  with_length datalen none = none
  with_length datalen (some plain) = some (plain, datalen)

  -- The bytes that were decompressed, and the length that is set for the value; `none` leaves the value
  -- as it is.
  unfoldable pub lz4_uncompress : Bytes → Option (Bytes × ℤ)
  lz4_uncompress (lz4crc ∷ l1 ∷ l2 ∷ l3 ∷ l4 ∷ copy) =
      let header = l1 ∷ l2 ∷ l3 ∷ l4 ∷ [] in
      let datalen = to_int (pos (little_endian header)) in
      if ltb (2 ^ 31 - 1) (length copy)
      then none
      else if crc8 header == lz4crc
      then with_length datalen (lz4.decompress_safe copy datalen)
      else none
  lz4_uncompress _ = none
