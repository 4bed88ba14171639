-- ===== src/Tests/Message.antt =====
-- kernel/message.c at a mailbox with two messages.
use yinyang_os.Message.{put_message, send}
use yinyang_os.Message.Inbox
use yinyang_os.Base.{[], arith, refl, ℕ, ◌∷◌}
use yinyang_os.Kernel.{Mailbox, Message, System, waiting}
use yinyang_os.Message.Deposit.{Holds, Sends, send_lem}
use yinyang_os.Message.Inbox.{Inbox}
use yinyang_os.Message.Slots.{IsMailbox, put_message-IsMailbox}
use yinyang_os.Tests.Kernel.{blank_mailbox, blank_message, process, three}

abbrev from_1 : Message
from_1 = record blank_message { src = 1; w0 = 10 }

abbrev from_7 : Message
from_7 = record blank_message { src = 7; w0 = 70 }

abbrev box : Mailbox
box = put_message (put_message blank_mailbox 0 from_1) 1 from_7

blank_valid : IsMailbox blank_mailbox [] [] []
blank_valid = record {
  rec_queue = tt;
  ign_queue = tt;
  distinct = tt;
  in_pool = λ i h. cc;
  used = λ i h. refl;
}

box_valid : IsMailbox box [] (0 ∷ 1 ∷ []) []
box_valid =
    put_message-IsMailbox (put_message blank_mailbox 0 from_1) 1 from_7 (0 ∷ []) []
      (put_message-IsMailbox blank_mailbox 0 from_1 [] [] blank_valid (omega arith) refl)
      (omega arith) refl

abbrev two_messages : Inbox
two_messages = record { arrived = from_1 ∷ from_7 ∷ []; ignored = [] }

box-Holds : Holds box two_messages
unfolding put_message
box-Holds = record {
  recs = 0 ∷ 1 ∷ [];
  igns = [];
  valid = box_valid;
  arrived = refl;
  ignored = refl;
}

-- Process 0 with the mailbox and a number of tokens.
abbrev holder : ℕ → System
holder tokens = record (three (λ i. waiting)) {
  proc = λ i. record (process waiting i) {
    mailbox = box;
    msg_lock = record { token = tokens; queue_tail = 0; queue = λ k. 0 };
  };
}

send_lem_example : Sends 0 blank_message (holder 2) two_messages (send 0 blank_message (holder 2))
send_lem_example = send_lem 0 blank_message (holder 2) two_messages box-Holds
