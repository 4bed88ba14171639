-- ===== src/Message/Receive.antt =====
-- `receive`: what it delivers, what it leaves behind, and when it puts the process to sleep.
use yinyang_os.Base.{ℕ, ◌≡◌, List, arith}
use yinyang_os.Kernel.{Mailbox, Message}
use yinyang_os.Message.{take_ignored}
use yinyang_os.Message.Inbox
use yinyang_os.Message.Inbox.{Inbox, Answer, answer, blocked}
use yinyang_os.Message.Near.{Near}
use yinyang_os.Split.{Split}

pub take_ignored-msg : (mb : Mailbox) (p : ℕ) → (take_ignored mb p).msg ≡ mb.msg
unfolding take_ignored
take_ignored-msg mb p = ground arith
