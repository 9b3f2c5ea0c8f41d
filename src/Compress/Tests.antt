-- ===== src/Compress/Tests.antt =====
-- The theorem on compressed values at a concrete input.
use icore_tax_gateway.Base.{
  ◌^◌, ◌<◌, ◌≡◌, refl, some, none, Option, ◌∷◌, codes, Bytes, arith, ltb, if◌then◌else◌, length,
}
use icore_tax_gateway.Base.Int.{ℤ, pos}
use icore_tax_gateway.Compress.{Lz4, crc8, int_bytes, with_header, lz4_compress, lz4_uncompress}
use icore_tax_gateway.Compress.RoundTrip.{uncompress-compress}

-- A compressor that stores.
abbrev store : ℤ → Bytes → Option Bytes
store level buf = if ltb (length buf) (2 ^ 31) then some buf else none

store_fits : (level : ℤ) (buf out : Bytes) → store level buf ≡ some out → length out < 2 ^ 31
store_fits level buf out h = ground arith

store_same : (level : ℤ) (buf out : Bytes) → store level buf ≡ some out → some out ≡ some buf
store_same level buf out h = ground arith

abbrev storing : Lz4
storing = record {
  compress = store;
  decompress_safe = λ body room. some body;
  compress_fits = store_fits;
  decompress_compress = store_same;
}

uncompress-compress_example :
    lz4_uncompress storing (crc8 (int_bytes 2) ∷ 2 ∷ 0 ∷ 0 ∷ 0 ∷ codes "hi")
    ≡ some (codes "hi", pos 2)
uncompress-compress_example =
    uncompress-compress storing (pos 0) (codes "hi")
      (crc8 (int_bytes 2) ∷ 2 ∷ 0 ∷ 0 ∷ 0 ∷ codes "hi")
      (unfold lz4_compress with_header int_bytes in refl)
