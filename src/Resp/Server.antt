-- ===== src/Resp/Server.antt =====
-- What the text of a command means: a reader of the protocol's requests, written from the protocol
-- and not from the library. It is the specification of the functions that write commands.
use icore_tax_gateway.Base.{
  ℕ, zero, suc, ◌+◌, ◌-◌, ◌*◌, ◌≡◌, Bool, ◌&&◌, Option, none, some, List, [], ◌∷◌, ◌++◌, Bytes, leb,
  ◌==◌, if◌then◌else◌, length, take, drop,
}

abbrev pub digit : ℕ → Bool
digit c = leb b'0' c && leb c b'9'

-- A decimal number and the end of its line.
unfoldable pub read_number : ℕ → Bytes → Option (ℕ × Bytes)
read_number acc (c ∷ d ∷ s) =
    let more = read_number (acc * 10 + (c - b'0')) (d ∷ s) in
    if c == 13 then (if d == 10 then some (acc, s) else none) else if digit c then more else none
read_number acc _ = none

-- `$<length>\r\n<bytes>\r\n`
unfoldable pub skip_newline : Bytes → Bytes → Option (Bytes × Bytes)
skip_newline text (c ∷ d ∷ s) = if c == 13 && d == 10 then some (text, s) else none
skip_newline text _ = none

unfoldable pub take_text : Option (ℕ × Bytes) → Option (Bytes × Bytes)
take_text none = none
take_text (some (n, s)) = if leb n (length s) then skip_newline (take n s) (drop n s) else none

unfoldable pub read_bulk : Bytes → Option (Bytes × Bytes)
read_bulk (c ∷ s) = if c == b'$' then take_text (read_number 0 s) else none
read_bulk [] = none

abbrev pub push : Bytes → Option (List Bytes × Bytes) → Option (List Bytes × Bytes)
push word none = none
push word (some (words, s)) = some (word ∷ words, s)

unfoldable pub read_bulks : ℕ → Bytes → Option (List Bytes × Bytes)
read_bulks zero s = some ([], s)
read_bulks (suc n) s = elim (read_bulk s) [
  | none ↦ none
  | some (word, rest) ↦ push word (read_bulks n rest)
]

unfoldable pub read_count : Option (ℕ × Bytes) → Option (List Bytes × Bytes)
read_count none = none
read_count (some (n, s)) = read_bulks n s

-- `*<count>\r\n` and that many words.
unfoldable pub read_request : Bytes → Option (List Bytes × Bytes)
unfolding read_number skip_newline take_text read_bulk read_bulks read_count
read_request (c ∷ s) = if c == b'*' then read_count (read_number 0 s) else none
read_request [] = none

-- The bytes are one request of these words: a server that reads them, with anything behind, takes
-- the words and leaves what is behind.
pub record Delivers (cmd : Bytes) (words : List Bytes) : Type 0 where
  pub reads : (rest : Bytes) → read_request (cmd ++ rest) ≡ some (words, rest)
