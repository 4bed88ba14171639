-- ===== src/Message.antt =====
-- kernel/message.c: message passing between processes. Every process has a pool of 128 message
-- slots; a ring through it holds the messages that have arrived, another those that a selective
-- `receive` passed over.
pub mod Inbox
pub mod Slots
pub mod Deposit
pub mod Search
pub mod Near
pub mod Rounds
pub mod Loop
pub mod Receive
use yinyang_os.Base.{
  ℕ, zero, suc, ◌+◌, ◌-◌, Bool, true, false, ◌||◌, Option, none, some, ◌==◌, if◌then◌else◌, update,
}
use yinyang_os.Ring.{Links, enqueue, dequeue, unlink}
use yinyang_os.Kernel.{
  any, msg_hard_intr, max_message_pool, Message, Mailbox, Pcb, System, set_mailbox,
}
use yinyang_os.Kernel.Lock.{lock, unlock}
use yinyang_os.Kernel.Semaphore.{sem_p, sem_v, got, slept, queue_full}

-- `Find_Empty_Message`: the loop from `i` on, for the rounds that are left.
unfoldable pub find_empty_from : (rounds : ℕ) → ℕ → (ℕ → Bool) → Option ℕ
find_empty_from zero i flag = none
find_empty_from (suc k) i flag =
    let rest = find_empty_from k (i + 1) flag in if flag i then some i else rest

unfoldable pub find_empty_message : Mailbox → Option ℕ
unfolding find_empty_from
find_empty_message mb = find_empty_from max_message_pool 0 mb.flag

-- The part of `send` that fills slot `n` with `m` and links it behind the arrived messages.
unfoldable pub put_message : Mailbox → ℕ → Message → Mailbox
unfolding enqueue
put_message mb n m =
    let (links, head) = enqueue mb.links mb.msg_rec n in
    record {
      msg = update mb.msg n m;
      links = links;
      flag = update mb.flag n false;
      msg_rec = head;
      msg_ign = mb.msg_ign;
    }

pub data Sent : Type 0 where
  ok : System → Sent
  panic : Sent  -- "No enough space for message passing!"

-- the message as `send` stores it: the kernel fills in the source and the destination
unfoldable pub stamp : System → ℕ → Message → Message
stamp s pid m = record m {
  src = if s.cpu.enter_interrupt == 1 then msg_hard_intr else (s.proc s.current).pid;
  dest = pid;
}

-- `send(pid, m)`
unfoldable pub send : ℕ → Message → System → Sent
unfolding find_empty_message put_message stamp
send pid m s =
    let mb = (s.proc pid).mailbox in
    elim (find_empty_message mb) [
      | none ↦ panic
      | some n ↦
          ok (sem_v pid (unlock (set_mailbox (lock s) pid (put_message mb n (stamp s pid m)))))
    ]

-- `pid == ANY || pid == (ptr -> msg).src`
unfoldable pub wants : ℕ → Message → Bool
wants pid m = (pid == any) || (pid == m.src)

pub data Found : Type 0 where
  slot : ℕ → Found
  missing : Found
  out_of_fuel : Found

-- The `for` loop of `receive` over the ignored messages, at `ptr`, with the head of the ring.
unfoldable pub search_from : (fuel : ℕ) → ℕ → Mailbox → ℕ → ℕ → Found
search_from zero pid mb head ptr = out_of_fuel
search_from (suc f) pid mb head ptr =
    let rest = search_from f pid mb head (mb.links.next ptr) in
    if ptr == head then missing else if wants pid (mb.msg ptr) then slot ptr else rest

-- Lines 77 to 90: the ignored message that is wanted. The ring has at most 128 nodes.
unfoldable pub search_ignored : ℕ → Mailbox → Found
unfolding search_from wants
search_ignored pid mb = elim mb.msg_ign [
  | none ↦ missing
  | some h ↦
      if wants pid (mb.msg h)
      then slot h
      else search_from max_message_pool pid mb h (mb.links.next h)
]

-- Lines 92 to 113: the message leaves the ring of ignored ones.
unfoldable pub take_ignored : Mailbox → ℕ → Mailbox
unfolding dequeue unlink
take_ignored mb p = elim mb.msg_ign [
  | none ↦ mb
  | some h ↦
      if p == h
      then (let (links, head) = dequeue mb.links h in record mb { links = links; msg_ign = head })
      else record mb { links = unlink mb.links p }
]

-- Lines 135 to 144: the oldest message leaves the ring of arrived ones.
unfoldable pub take_arrived : Mailbox → ℕ → Mailbox
unfolding dequeue
take_arrived mb h =
    let (links, head) = dequeue mb.links h in record mb { links = links; msg_rec = head }

-- Lines 153 to 165: a message that is not wanted joins the ignored ones.
unfoldable pub ignore : Mailbox → ℕ → Mailbox
unfolding enqueue
ignore mb p =
    let (links, head) = enqueue mb.links mb.msg_ign p in record mb { links = links; msg_ign = head }

-- `ptr -> flag = TRUE`
unfoldable pub release : Mailbox → ℕ → Mailbox
release mb p = record mb { flag = update mb.flag p true }

-- What a call of `receive` comes to. `asleep` is the state at the `int $0x80` of `Sem_P`; when
-- the process is scheduled again it goes on with `resume`.
pub data Received : Type 0 where
  done : Message → System → Received
  asleep : System → Received
  panic : Received  -- "Message receive is empty, semephore is wrong!"
  overrun : Received
  out_of_fuel : Received

-- Lines 170 to 174.
unfoldable pub deliver : ℕ → System → Received
deliver p s =
    let mb = (s.proc s.current).mailbox in
    done (mb.msg p) (unlock (set_mailbox (lock s) s.current (release mb p)))

-- Lines 121 to 166, the loop behind `Sem_P`; `again` is what the loop does next.
unfoldable pub after_wait : (again : System → Received) → ℕ → System → Received
after_wait again pid s =
    let mb = (s.proc s.current).mailbox in
    elim mb.msg_rec [
      | none ↦ panic
      | some p ↦
          (let taken = take_arrived mb p in
            if wants pid (mb.msg p)
            then deliver p (unlock (set_mailbox (lock s) s.current taken))
            else again (unlock (set_mailbox (lock s) s.current (ignore taken p))))
    ]

-- The `while (1)` of `receive`.
unfoldable pub receive_loop : (fuel : ℕ) → ℕ → System → Received
receive_loop zero pid s = out_of_fuel
receive_loop (suc f) pid s = elim (sem_p s.current s) [
  | got s' ↦ after_wait (receive_loop f pid) pid s'
  | slept s' ↦ asleep s'
  | queue_full ↦ overrun
]

-- Each round but the last takes one of at most 128 messages out of the ring of arrived ones.
abbrev pub receive_fuel : ℕ
receive_fuel = 130

-- `receive(pid, m)`
unfoldable pub receive : ℕ → System → Received
receive pid s =
    let mb = (s.proc s.current).mailbox in
    elim (search_ignored pid mb) [
      | slot p ↦ deliver p (set_mailbox s s.current (take_ignored mb p))
      | missing ↦ receive_loop receive_fuel pid s
      | out_of_fuel ↦ out_of_fuel
    ]

-- A process woken by `Sem_V` goes on behind `Sem_P`.
unfoldable pub resume : ℕ → System → Received
resume pid s = after_wait (receive_loop receive_fuel pid) pid s
