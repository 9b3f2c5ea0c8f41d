-- ===== src/Compress/RoundTrip.antt =====
-- A compressed value, read back.
use icore_tax_gateway.Base.{
  ℕ, ◌^◌, ◌<◌, ◌≡◌, refl, ap, ◌∙◌, none, some, [], ◌∷◌, ◌++◌, Bytes, arith, length, Option-cases,
  inl, inr,
}
use icore_tax_gateway.Base.Int.{ℤ, pos, to_int, little_endian}
use icore_tax_gateway.Compress.{
  Lz4, crc8, int_bytes, with_header, lz4_compress, with_length, lz4_uncompress,
}

int_bytes-value : (n : ℕ) → n < 2 ^ 32 → little_endian (int_bytes n) ≡ n
unfolding little_endian int_bytes
int_bytes-value n h = omega arith

to_int-small : (n : ℕ) → n < 2 ^ 31 → to_int (pos n) ≡ pos n
unfolding to_int
to_int-small n h = ground arith

module _ (lz4 : Lz4) where
  nothing :
      (level : ℤ) (buf out : Bytes)
      → lz4.compress level buf ≡ none
      → ¬ (lz4_compress lz4 level buf ≡ some out)
  unfolding lz4_compress with_header
  nothing level buf out failed h = ground arith

  -- What was compressed, and how long it was.
  compressed :
      (level : ℤ) (buf out : Bytes)
      → lz4_compress lz4 level buf ≡ some out
      → (length buf < 2 ^ 31)
        × (body : Bytes) × (lz4.compress level buf ≡ some body)
        × (out ≡ crc8 (int_bytes (length buf)) ∷ (int_bytes (length buf) ++ body))
  unfolding lz4_compress with_header
  compressed level buf out h = elim (Option-cases (lz4.compress level buf)) [
    | inl failed ↦ absurd (nothing level buf out failed h)
    | inr (body, done) ↦ (ground arith, body, done, ground arith)
  ]

  -- A header whose checksum is right, and whose length is that of what is decompressed.
  reads_header :
      (crc l1 l2 l3 l4 : ℕ) (body plain : Bytes) (datalen : ℤ)
      → to_int (pos (little_endian (l1 ∷ l2 ∷ l3 ∷ l4 ∷ []))) ≡ datalen
      → crc8 (l1 ∷ l2 ∷ l3 ∷ l4 ∷ []) ≡ crc
      → length body < 2 ^ 31
      → lz4.decompress_safe body datalen ≡ some plain
      → lz4_uncompress lz4 (crc ∷ l1 ∷ l2 ∷ l3 ∷ l4 ∷ body) ≡ some (plain, datalen)
  unfolding lz4_uncompress with_length
  reads_header crc l1 l2 l3 l4 body plain datalen e c k d = rw (e, c, d) (ground arith)

  uncompressed :
      (n : ℕ) (body plain : Bytes)
      → n < 2 ^ 31
      → length body < 2 ^ 31
      → lz4.decompress_safe body (pos n) ≡ some plain
      → lz4_uncompress lz4 (crc8 (int_bytes n) ∷ (int_bytes n ++ body)) ≡ some (plain, pos n)
  unfolding int_bytes
  uncompressed n body plain h k d =
      reads_header _ _ _ _ _ body plain (pos n)
        (ap (λ v. to_int (pos v)) (int_bytes-value n (omega arith)) ∙ to_int-small n h) refl k d

  -- A value that is compressed is read back, with its length, if LZ4 reads back what it has written.
  pub uncompress-compress :
      (level : ℤ) (buf out : Bytes)
      → lz4_compress lz4 level buf ≡ some out
      → lz4_uncompress lz4 out ≡ some (buf, pos (length buf))
  uncompress-compress level buf out h =
      let c = compressed level buf out h in
      ap (lz4_uncompress lz4) c.3
      ∙ uncompressed (length buf) c.1 buf c.0 (lz4.compress_fits level buf c.1 c.2)
          (lz4.decompress_compress level buf c.1 c.2)
