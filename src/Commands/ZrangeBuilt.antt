-- ===== src/Commands/ZrangeBuilt.antt =====
-- ZRANGE and its like are what they should be to a server.
use icore_tax_gateway.Base.{ℕ, ◌≡◌, Bool, true, false, Option, none, List, Bytes}
use icore_tax_gateway.Zend.{Zend}
use icore_tax_gateway.Commands.SlotCalls.{IsSlotted}

-- No command where it has to be refused, else one with these words in the slot of these keys.
abbrev pub IsSentUnless :
    Bool → Option (Bytes × Option ℕ) → List Bytes → List Bytes → Option ℕ → Type 0
IsSentUnless true r words keys slot = r ≡ none
IsSentUnless false r words keys slot = IsSlotted r words keys slot
