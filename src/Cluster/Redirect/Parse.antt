-- ===== src/Cluster/Redirect/Parse.antt =====
-- The redirections that a server prints, and messages that are broken.
use icore_tax_gateway.Base.{
  ℕ, zero, suc, ◌+◌, ◌-◌, ◌*◌, ◌^◌, ◌≤◌, ◌<◌, ◌≡◌, ◌≢◌, refl, ap, sym, subst, append-nil, ◌∙◌, Bool,
  true, false, some, [], ◌∷◌, ◌++◌, Bytes, codes, arith, if◌then◌else◌, length, take, All,
}
use icore_tax_gateway.Base.Int.{pos}
use icore_tax_gateway.Base.Text.{
  c_string, c_string-append, split_at, Lacks, split_at-hit, split_at_last-hit,
}
use icore_tax_gateway.Zend.{IsDigit, digits_value}
use icore_tax_gateway.Zend.Decimal.{decimal, decimal-digits, decimal-value, decimal-ne}
use icore_tax_gateway.Cluster.Redirect.{
  redir_moved, redir_ask, ClusterFlags, atoi, atoi_digits, unsigned_short, skip_verb,
  count_redirection, cluster_set_redirection,
}

-- The text ends, or goes on with a byte before the digits.
abbrev pub Stops : Bytes → Type 0
Stops [] = Unit
Stops (c ∷ s) = c < b'0'

pub atoi_digits-value :
    (acc : ℕ) (ds rest : Bytes)
    → All IsDigit ds
    → Stops rest
    → atoi_digits acc (ds ++ rest) ≡ digits_value acc ds
unfolding atoi_digits
atoi_digits-value acc [] [] h k = refl
atoi_digits-value acc [] (c ∷ rest) h k = ground arith
atoi_digits-value acc (d ∷ ds) rest h k =
    ground (arith, atoi_digits-value (acc * 10 + (d - b'0')) ds rest h.1 k)

atoi-digits :
    (ds rest : Bytes)
    → ds ≢ []
    → All IsDigit ds
    → Stops rest
    → atoi (ds ++ rest) ≡ pos (digits_value 0 ds)
unfolding atoi
atoi-digits [] rest ne h k = absurd (ne refl)
atoi-digits (d ∷ ds) rest ne h k = ground (arith, atoi_digits-value 0 (d ∷ ds) rest h k)

-- A number as the server prints it.
pub atoi-decimal : (n : ℕ) (rest : Bytes) → Stops rest → atoi (decimal n ++ rest) ≡ pos n
atoi-decimal n rest k =
    atoi-digits (decimal n) rest (decimal-ne n) (decimal-digits n) k ∙ ap pos (decimal-value n)

short_of : (n : ℕ) → n < 2 ^ 16 → unsigned_short (pos n) ≡ n
unfolding unsigned_short
short_of n h = omega arith

-- What is no digit does not occur in a number.
pub digits_lack : (c : ℕ) (ds : Bytes) → ¬ IsDigit c → All IsDigit ds → Lacks c ds
digits_lack c [] h k = tt
digits_lack c (d ∷ ds) h k = (λ e. h (subst IsDigit e k.0), digits_lack c ds h k.1)

pub Lacks-append : (c : ℕ) (xs ys : Bytes) → Lacks c xs → Lacks c ys → Lacks c (xs ++ ys)
Lacks-append c [] ys h k = k
Lacks-append c (x ∷ xs) ys h k = (h.0, Lacks-append c xs ys h.1 k)

pub c_string-whole : (text : Bytes) → Lacks 0 text → c_string text ≡ text
c_string-whole text h =
    ap c_string (sym (append-nil text))
    ∙ c_string-append text [] h
    ∙ (unfold c_string in append-nil text)

-- `MOVED <slot> <host>:<port>` and `ASK <slot> <host>:<port>` with the end of the line.
abbrev pub verb : Bool → Bytes
verb true = codes "MOVED "
verb false = codes "ASK "

unfoldable pub redirection : Bool → ℕ → Bytes → ℕ → Bytes
redirection moved slot host port =
    verb moved ++ (decimal slot ++ b' ' ∷ (host ++ b':' ∷ (decimal port ++ 13 ∷ 10 ∷ [])))

redirection-Lacks_zero :
    (moved : Bool) (slot : ℕ) (host : Bytes) (port : ℕ)
    → Lacks 0 host
    → Lacks 0 (redirection moved slot host port)
unfolding redirection
redirection-Lacks_zero moved slot host port h =
    let digits = λ (n : ℕ). digits_lack 0 (decimal n) (omega arith) (decimal-digits n) in
    Lacks-append 0 (verb moved) _ (verb_lacks moved) (
      Lacks-append 0 (decimal slot) _ (digits slot) (
        omega arith,
        Lacks-append 0 host _ h
            (omega arith, Lacks-append 0 (decimal port) _ (digits port) (omega arith)),
      ))
  where
    verb_lacks : (moved : Bool) → Lacks 0 (verb moved)
    verb_lacks true = omega arith
    verb_lacks false = omega arith

skip_redirection :
    (moved : Bool) (slot : ℕ) (host : Bytes) (port : ℕ)
    → skip_verb moved (redirection moved slot host port)
      ≡ decimal slot ++ b' ' ∷ (host ++ b':' ∷ (decimal port ++ 13 ∷ 10 ∷ []))
unfolding skip_verb redirection
skip_redirection true slot host port = refl
skip_redirection false slot host port = refl

take-all : (n : ℕ) (xs : Bytes) → length xs ≤ n → take n xs ≡ xs
take-all zero [] h = refl
take-all zero (x ∷ xs) h = absurd (omega arith)
take-all (suc n) [] h = refl
take-all (suc n) (x ∷ xs) h = ap (λ l. x ∷ l) (take-all n xs (omega arith))

-- A redirection that a server prints, with a slot and a port of 16 bits and any host of at most 254
-- bytes that are not zero, also one with colons, is parsed and sets the slot, the host and the port
-- that were printed.
pub redirection_parsed :
    (c : ClusterFlags) (moved : Bool) (slot : ℕ) (host : Bytes) (port : ℕ)
    → slot < 2 ^ 16
    → port < 2 ^ 16
    → length host ≤ 254
    → Lacks 0 host
    → cluster_set_redirection c (redirection moved slot host port) moved ≡ (
      record (count_redirection moved c) {
        redir_type = if moved then redir_moved else redir_ask;
        redir_host = host;
        redir_host_len = length host;
        redir_slot = slot;
        redir_port = port;
      },
      true,
    )
unfolding cluster_set_redirection
redirection_parsed c moved slot host port hs hp short h =
    let end_of_line = decimal port ++ 13 ∷ 10 ∷ [] in
    let whole = c_string-whole _ (redirection-Lacks_zero moved slot host port h) in
    let skipped = skip_redirection moved slot host port in
    let first : split_at b' ' (skip_verb moved (c_string (redirection moved slot host port)))
        ≡ some (decimal slot, host ++ b':' ∷ end_of_line) =
      rw (whole, skipped)
        (split_at-hit b' ' (decimal slot) (host ++ b':' ∷ end_of_line)
          (digits_lack b' ' (decimal slot) (omega arith) (decimal-digits slot))) in
    let last = split_at_last-hit b':' host end_of_line (
      Lacks-append b':' (decimal port) (13 ∷ 10 ∷ [])
        (digits_lack b':' (decimal port) (omega arith) (decimal-digits port)) (omega arith)) in
    let kept = take-all 254 host short in
    let slot_read : atoi (decimal slot) ≡ pos slot =
      ap atoi (sym (append-nil (decimal slot))) ∙ atoi-decimal slot [] tt in
    let port_read = atoi-decimal port (13 ∷ 10 ∷ []) (omega arith) in
    ground (arith, short_of slot hs, short_of port hp)

-- A message that cannot be parsed changes the count of redirections, if it is a MOVED error, and
-- nothing else.
pub broken_redirection :
    (c : ClusterFlags) (msg : Bytes) (moved : Bool)
    → (cluster_set_redirection c msg moved).1 ≡ false
    → (cluster_set_redirection c msg moved).0 ≡ count_redirection moved c
unfolding cluster_set_redirection
broken_redirection c msg moved h = ground arith
