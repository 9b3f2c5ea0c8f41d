-- ===== src/Commands.antt =====
-- redis-6.0.2/redis_commands.c: the functions that turn the arguments of a PHP method into the text
-- of a command. A function takes what zend_parse_parameters has read, and `none` is FAILURE.
pub mod Scan
pub mod Fixed
pub mod FixedWords
pub mod FixedBuilt
pub mod Lists
pub mod ListsBuilt
pub mod ListWords
pub mod ListCalls
pub mod HsetArray
pub mod Slotted
pub mod SlottedBuilt
pub mod SlotCalls
pub mod VarkeySlotted
pub mod VarkeyCalls
pub mod EvalSlotted
pub mod Zrange
pub mod ZrangeWords
pub mod ZrangeOptions
pub mod ZrangeCalls
pub mod ZrangeBuilt
pub mod Pairs
pub mod PairsBuilt
pub mod Mpop
pub mod MpopBuilt
pub mod Script
pub mod Set
pub mod SetMeant
pub mod SetWords
pub mod Restore
pub mod RestoreWords
pub mod GetexWords
pub mod Tests
