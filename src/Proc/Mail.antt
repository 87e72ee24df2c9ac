-- ===== src/Proc/Mail.antt =====
-- Direct messages (kernel/sysproc.c, sys_dmsgsend and sys_dmsgrcv; dmsg_close of kernel/proc/proc.c): the
-- mailbox of a process, a linked list in pages of the allocator. A node is found by its address, and 0
-- is no node. A call is one step from the time it holds `dmsg_lock` to its return or its sleep; which
-- process a wake-up reaches, and the copies from and to user memory, are left out.
pub mod Chain
pub mod Link
pub mod Delivery
mod Examples
use oops_os.Prelude.{
  ℕ, zero, suc, ◌+◌, ◌-◌, Bool, true, false, Option, none, some, ltb, leb, ◌==◌, ◌||◌,
  if◌then◌else◌,
}
use oops_os.Prelude.Arrays.{put}

abbrev pub queue_max : ℕ
queue_max = 16

-- DMSG_MAX
abbrev pub text_max : ℕ
text_max = 128

-- `struct dmsg`
pub record Letter : Type 0 where
  pub next : ℕ
  pub len : ℕ
  pub sender : ℕ
  pub text : ℕ → ℕ

pub record Mailbox : Type 0 where
  pub nodes : ℕ → Letter
  pub head : ℕ
  pub tail : ℕ
  pub held : ℕ
  pub bytes : ℕ
  pub closed : Bool

-- How a stretch of a call ends.
pub data Sent : Type 0 where
  sent : Mailbox → Sent
  not_sent : Sent
  send_sleeps : Sent

pub data Received : Type 0 where
  received : Letter → Mailbox → Received
  not_received : Received
  receive_sleeps : Received

unfoldable pub link : Mailbox → ℕ → ℕ → ℕ → (ℕ → ℕ) → Mailbox
link b page from len text =
    let letter : Letter = record { next = 0; len = len; sender = from; text = text } in
    let filled = put b.nodes page letter in
    record b {
      nodes =
          if b.tail == 0
          then filled
          else put filled b.tail (record (filled b.tail) { next = page });
      head = if b.tail == 0 then page else b.head;
      tail = page;
      held = b.held + 1;
      bytes = b.bytes + len;
    }

unfoldable pub link_page : Mailbox → Option ℕ → ℕ → ℕ → (ℕ → ℕ) → Sent
link_page b none from len text = not_sent
link_page b (some page) from len text = sent (link b page from len text)

-- `sys_dmsgsend` to a process that was found, after its sleeps too; `page` is what `kalloc` gives.
unfoldable pub dmsgsend : Mailbox → Option ℕ → ℕ → ℕ → (ℕ → ℕ) → Sent
dmsgsend b page from len text =
    if ltb text_max len
    then not_sent
    else if b.closed
    then not_sent
    else if leb queue_max b.held
    then send_sleeps
    else link_page b page from len text

unfoldable pub unlink : Mailbox → Mailbox
unlink b =
    let first = b.nodes b.head in
    record b {
      head = first.next;
      tail = if first.next == 0 then 0 else b.tail;
      held = b.held - 1;
      bytes = b.bytes - first.len;
    }

-- `sys_dmsgrcv`; `len` is the room of the caller.
unfoldable pub dmsgrcv : Mailbox → Bool → ℕ → Received
dmsgrcv b killed len =
    if ltb text_max len
    then not_received
    else if b.held == 0
    then (if killed || b.closed then not_received else receive_sleeps)
    else if ltb len ((b.nodes b.head).len)
    then not_received
    else received (b.nodes b.head) (unlink b)

unfoldable pub dmsg_close : Mailbox → Mailbox
dmsg_close b = record b { closed = true; head = 0; tail = 0; held = 0; bytes = 0 }
