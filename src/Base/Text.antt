-- ===== src/Base/Text.antt =====
-- Comparisons of byte strings: those of the C library, and the equality of two buffers.
use Prim.Native.Nat.{ℕ, ◌+◌}
use mathlib.Core.Path.{◌≡◌, refl}
use mathlib.Core.Logic.{◌≢◌}
use mathlib.Core.Bool.{Bool, true, false, ◌&&◌}
use mathlib.Core.List.{[], ◌∷◌, ◌++◌}
use mathlib.Core.Option.{Option, none, some}
use native.Mathlib.Omega.{arith}
use icore_tax_gateway.Base.Tests.{leb, ◌==◌, if◌then◌else◌}
use icore_tax_gateway.Base.Lists.{Bytes, All}

unfoldable pub bytes_eq : Bytes → Bytes → Bool
bytes_eq [] [] = true
bytes_eq (a ∷ as') (b ∷ bs) = a == b && bytes_eq as' bs
bytes_eq _ _ = false

abbrev pub to_lower : ℕ → ℕ
to_lower c = if leb b'A' c && leb c b'Z' then c + 32 else c

-- `!strcasecmp(a, b)`, for strings with no zero byte.
unfoldable pub same_word : Bytes → Bytes → Bool
same_word [] [] = true
same_word (a ∷ as') (b ∷ bs) = to_lower a == to_lower b && same_word as' bs
same_word _ _ = false

-- `strncmp(text, prefix, strlen(prefix)) == 0`
unfoldable pub starts_with : Bytes → Bytes → Bool
starts_with text [] = true
starts_with [] (p ∷ ps) = false
starts_with (t ∷ ts) (p ∷ ps) = t == p && starts_with ts ps

-- `strchr(text, c)`: the bytes before the first `c`, and those after it.
unfoldable pub split_at : ℕ → Bytes → Option (Bytes × Bytes)
split_at c [] = none
split_at c (t ∷ ts) = elim (t == c) [
  | true ↦ some ([], ts)
  | false ↦ elim (split_at c ts) [ none ↦ none | some (before, after) ↦ some (t ∷ before, after) ]
]

-- `strrchr(text, c)`: the bytes before the last `c`, and those after it.
unfoldable pub split_at_last : ℕ → Bytes → Option (Bytes × Bytes)
split_at_last c [] = none
split_at_last c (t ∷ ts) = elim (split_at_last c ts) [
  | some (before, after) ↦ some (t ∷ before, after)
  | none ↦ if t == c then some ([], ts) else none
]

-- Words that are the same but for case compare alike with every other.
pub same_word-same : (a b c : Bytes) → same_word a b ≡ true → same_word a c ≡ same_word b c
unfolding same_word
same_word-same [] [] c h = refl
same_word-same [] (b ∷ bs) c h = cc
same_word-same (a ∷ as') [] c h = cc
same_word-same (a ∷ as') (b ∷ bs) [] h = refl
same_word-same (a ∷ as') (b ∷ bs) (c ∷ cs) h = ground (arith, same_word-same as' bs cs)

-- The byte does not occur.
abbrev pub Lacks : ℕ → Bytes → Type 0
Lacks c text = All (λ t. t ≢ c) text

-- The first occurrence is where no other stands before it.
pub split_at-hit :
    (c : ℕ) (before after : Bytes)
    → Lacks c before
    → split_at c (before ++ c ∷ after) ≡ some (before, after)
unfolding split_at
split_at-hit c [] after h = ground arith
split_at-hit c (t ∷ before) after h = ground (arith, split_at-hit c before after h.1)

pub split_at-miss : (c : ℕ) (text : Bytes) → Lacks c text → split_at c text ≡ none
unfolding split_at
split_at-miss c [] h = refl
split_at-miss c (t ∷ text) h = ground (arith, split_at-miss c text h.1)

pub split_at_last-miss : (c : ℕ) (text : Bytes) → Lacks c text → split_at_last c text ≡ none
unfolding split_at_last
split_at_last-miss c [] h = refl
split_at_last-miss c (t ∷ text) h = ground (arith, split_at_last-miss c text h.1)

-- The last occurrence is where no other stands behind it.
pub split_at_last-hit :
    (c : ℕ) (before after : Bytes)
    → Lacks c after
    → split_at_last c (before ++ c ∷ after) ≡ some (before, after)
unfolding split_at_last
split_at_last-hit c [] after h = ground (arith, split_at_last-miss c after h)
split_at_last-hit c (t ∷ before) after h = ground (arith, split_at_last-hit c before after h)

-- What strchr sees of a buffer: the bytes before the first zero.
unfoldable pub c_string : Bytes → Bytes
c_string [] = []
c_string (c ∷ s) = if c == 0 then [] else c ∷ c_string s

pub c_string-append :
    (before after : Bytes) → Lacks 0 before → c_string (before ++ after) ≡ before ++ c_string after
unfolding c_string
c_string-append [] after h = refl
c_string-append (c ∷ before) after h = ground (arith, c_string-append before after h.1)

pub bytes_eq_lem : (a b : Bytes) → bytes_eq a b ≡ true → a ≡ b
unfolding bytes_eq
bytes_eq_lem [] [] h = refl
bytes_eq_lem [] (y ∷ b) h = cc
bytes_eq_lem (x ∷ a) [] h = cc
bytes_eq_lem (x ∷ a) (y ∷ b) h = ground (arith, bytes_eq_lem a b)
