-- ===== src/Sock/Wire.antt =====
-- A stream that delivers at most three bytes at a time, which shows that the laws can hold.
use icore_tax_gateway.Base.{
  ℕ, zero, suc, ◌+◌, ◌≤◌, ◌≡◌, ◌≢◌, refl, Bool, true, false, Option, none, some, [], ◌∷◌, ◌++◌,
  Bytes, ltb, if◌then◌else◌, length, arith,
}
use icore_tax_gateway.Base.Text.{split_at, split_at-hit}
use icore_tax_gateway.Sock.{Stream, StreamLaws}

unfoldable wire_eof : Bytes → Bool
wire_eof [] = true
wire_eof (c ∷ rest) = false

unfoldable wire_getc : Bytes → Option (ℕ × Bytes)
wire_getc [] = none
wire_getc (c ∷ rest) = some (c, rest)

unfoldable wire_get_line : ℕ → Bytes → Option (Bytes × Bytes)
wire_get_line size unread = elim (split_at 10 unread) [
  | none ↦ none
  | some (line, rest) ↦ if ltb (length line + 1) size then some (line ++ 10 ∷ [], rest) else none
]

unfoldable wire_read : ℕ → Bytes → Option (Bytes × Bytes)
wire_read (suc (suc (suc wanted))) (a ∷ b ∷ c ∷ rest) = some (a ∷ b ∷ c ∷ [], rest)
wire_read (suc wanted) (a ∷ rest) = some (a ∷ [], rest)
wire_read wanted unread = some ([], unread)

unfoldable pub wire : Stream
unfolding wire_eof wire_getc wire_get_line wire_read
wire = record { eof = wire_eof; getc = wire_getc; get_line = wire_get_line; read = wire_read }

some_of :
    (wanted c : ℕ) (rest : Bytes)
    → (got left : Bytes) × (wire_read (suc wanted) (c ∷ rest) ≡ some (got, left))
      × (got ++ left ≡ c ∷ rest)
      × (got ≢ [])
      × (length got ≤ suc wanted)
unfolding wire_read
some_of zero c rest = (c ∷ [], rest, refl, refl, (λ e. cc), omega arith)
some_of (suc zero) c rest = (c ∷ [], rest, refl, refl, (λ e. cc), omega arith)
some_of (suc (suc wanted)) c [] = (c ∷ [], [], refl, refl, (λ e. cc), omega arith)
some_of (suc (suc wanted)) c (d ∷ []) = (c ∷ [], d ∷ [], refl, refl, (λ e. cc), omega arith)
some_of (suc (suc wanted)) c (d ∷ e ∷ rest) =
    (c ∷ d ∷ e ∷ [], rest, refl, refl, (λ e. cc), omega arith)

pub wire_laws : StreamLaws wire
unfolding wire
wire_laws = record {
  eof_not = λ c rest. refl;
  getc_next = λ c rest. refl;
  get_line_next = λ size line rest lacks fits. ground (arith, split_at-hit 10 line rest lacks);
  read_some = λ wanted c rest. some_of wanted c rest;
}
