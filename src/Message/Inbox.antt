-- ===== src/Message/Inbox.antt =====
-- What a mailbox promises, over lists of messages: the oldest message that is wanted is delivered,
-- and the others stay in the order in which they were sent.
use yinyang_os.Base.{ℕ, List, [], ◌++◌, Option, none, some}
use yinyang_os.Kernel.{Message}
use yinyang_os.Message.{wants}
use yinyang_os.Split.{Split, split_first}

-- The messages that have arrived and those that were passed over, oldest first.
pub record Inbox : Type 0 where
  pub arrived : List Message
  pub ignored : List Message

pub data Answer : Type 0 where
  delivered : Message → Inbox → Answer
  blocked : Inbox → Answer

-- `receive` when no ignored message is wanted: what the split of the arrived ones leads to.
abbrev pub answer : Inbox → Option (Split Message) → Answer
answer b none = blocked (record { arrived = []; ignored = b.ignored ++ b.arrived })
answer b (some s) = delivered s.hit (record { arrived = s.after; ignored = b.ignored ++ s.before })

unfoldable pub receive_arrived : ℕ → Inbox → Answer
receive_arrived pid b = answer b (split_first (wants pid) b.arrived)

unfoldable pub receive : ℕ → Inbox → Answer
receive pid b = elim (split_first (wants pid) b.ignored) [
  | none ↦ receive_arrived pid b
  | some s ↦ delivered s.hit (record b { ignored = s.before ++ s.after })
]
