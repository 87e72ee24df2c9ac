-- ===== src/Proc/Message.antt =====
-- kernel/proc/messagequeue.c: the message queues. A queue's page is the list of the messages behind
-- its empty header, in order; where they lie in the page is left out, and with it `reloc`. A call is
-- one step from the time it holds `mqlock` to its return or its sleep.
pub mod Counted
mod Examples
use oops_os.Prelude.{
  ℕ, zero, suc, ◌+◌, ◌-◌, Bool, true, false, not, ◌&&◌, ◌||◌, Option, none, some, List, [], ◌∷◌,
  ◌++◌, ltb, leb, ◌==◌, if◌then◌else◌, take, length,
}
use oops_os.Prelude.Arrays.{put}

abbrev pub mq_max : ℕ
mq_max = 8

abbrev pub page_size : ℕ
page_size = 4096

-- `struct msg`, with the bytes at `dataaddr`.
pub record Message : Type 0 where
  pub type_of : ℕ
  pub data_at : List ℕ

-- `struct mq`
pub record Queue : Type 0 where
  pub key : ℕ
  pub used : Bool
  pub msgs : List Message
  pub maxbytes : ℕ
  pub curbytes : ℕ
  pub refcount : ℕ

-- The first index from `i` on, of `k`, that satisfies the test.
unfoldable pub first_index : (ℕ → Bool) → ℕ → ℕ → Option ℕ
first_index test i zero = none
first_index test i (suc k) =
    let later = first_index test (suc i) k in if test i then some i else later

unfoldable pub find_key : (ℕ → Queue) → ℕ → Option ℕ
find_key mqs key = first_index (λ i. (mqs i).used && (mqs i).key == key) 0 mq_max

-- The queues and the mask of the calling process, one Boolean for each bit.
pub record Queues : Type 0 where
  pub mqs : ℕ → Queue
  pub mask : ℕ → Bool

unfoldable pub fresh_queue : ℕ → Queue
fresh_queue key = record {
  key = key;
  used = true;
  msgs = [];
  maxbytes = page_size;
  curbytes = 16;
  refcount = 1;
}

-- `newmq` once it has an index; `has_page` is whether `kalloc` gives a page.
unfoldable pub start_queue : Bool → ℕ → Queues → Option ℕ → Option ℕ × Queues
start_queue has_page key s none = (none, s)
start_queue has_page key s (some i) =
    if has_page
    then (some i, record { mqs = put s.mqs i (fresh_queue key); mask = put s.mask i true })
    else (none, s)

unfoldable pub new_queue : Bool → ℕ → Queues → Option ℕ × Queues
new_queue has_page key s =
    start_queue has_page key s (first_index (λ i. not ((s.mqs i).used)) 0 mq_max)

unfoldable pub add_count : (ℕ → Bool) → (ℕ → Queue) → ℕ → Queue
add_count mask mqs i =
    if ltb i mq_max && mask i then (record (mqs i) { refcount = (mqs i).refcount + 1 }) else mqs i

-- `sys_mqget` with what `findkey` has found.
unfoldable pub use_queue : Bool → ℕ → Queues → Option ℕ → Option ℕ × Queues
use_queue has_page key s none = new_queue has_page key s
use_queue has_page key s (some i) = if s.mask i then (some i, s) else (
  some i,
  record {
    mqs = put s.mqs i (record (s.mqs i) { refcount = (s.mqs i).refcount + 1 });
    mask = put s.mask i true;
  },
)

unfoldable pub get_queue : Bool → ℕ → Queues → Option ℕ × Queues
get_queue has_page key s = use_queue has_page key s (find_key s.mqs key)

-- One round of the loop of `sys_msgsnd` on a queue that is in use, with a size that is not negative:
-- `none` sleeps.
unfoldable pub send : Queue → Message → Option Queue
send q m =
    if leb (q.curbytes + length m.data_at + 16) q.maxbytes
    then some
        (record q { msgs = q.msgs ++ (m ∷ []); curbytes = q.curbytes + (length m.data_at + 16) })
    else none

-- The inner loop of `sys_msgrcv`: the first message of the type, and the list without it.
unfoldable pub take_type : ℕ → List Message → Option (Message × List Message)
take_type wanted [] = none
take_type wanted (m ∷ ms) =
    let rest = keep_first m (take_type wanted ms) in
    if m.type_of == wanted then some (m, ms) else rest
  where
    keep_first : Message → Option (Message × List Message) → Option (Message × List Message)
    keep_first m none = none
    keep_first m (some (x, ms)) = some (x, m ∷ ms)

unfoldable pub received : Queue → Option (Message × List Message) → Option (Message × Queue)
received q none = none
received q (some (m, ms)) =
    some (m, record q { msgs = ms; curbytes = q.curbytes - (length m.data_at + 16) })

-- `sys_msgrcv` on a queue that is in use; `none` sleeps and then fails. Of the message the caller
-- copies as many bytes as it asked for.
unfoldable pub receive : Queue → ℕ → Option (Message × Queue)
receive q wanted = received q (take_type wanted q.msgs)

-- The part of `releasemq` and `releasemq2` on one queue; `rmmq` gives its page back.
unfoldable pub drop_ref : Queue → Queue
drop_ref q =
    let q' = record q { refcount = q.refcount - 1 } in
    if q'.refcount == 0 then (record q' { used = false }) else q'

-- `mqinit`
unfoldable pub init_queues : (ℕ → Queue) → ℕ → Queue
init_queues mqs i = if ltb i mq_max then (record (mqs i) { used = false }) else mqs i

-- `releasemq` with what `findkey` has found.
unfoldable pub release_at : (ℕ → Queue) → Option ℕ → ℕ → Queue
release_at mqs none = mqs
release_at mqs (some i) = put mqs i (drop_ref (mqs i))

unfoldable pub release_key : (ℕ → Queue) → ℕ → ℕ → Queue
release_key mqs key = release_at mqs (find_key mqs key)

-- `releasemq2`
unfoldable pub release_mask : (ℕ → Queue) → (ℕ → Bool) → ℕ → Queue
release_mask mqs mask i = if ltb i mq_max && mask i then drop_ref (mqs i) else mqs i

-- How a send ends: it returns -1, sleeps, or returns 0.
pub data Sending : Type 0 where
  rejected asleep accepted : Sending

unfoldable pub store_sent : (ℕ → Queue) → ℕ → Option Queue → Sending × (ℕ → Queue)
store_sent mqs i none = (asleep, mqs)
store_sent mqs i (some q) = (accepted, put mqs i q)

-- `sys_msgsnd` up to its first sleep; a queue in use has its page.
unfoldable pub msg_send : (ℕ → Queue) → ℕ → Message → Sending × (ℕ → Queue)
msg_send mqs i m =
    if leb mq_max i || not ((mqs i).used)
    then (rejected, mqs)
    else store_sent mqs i (send (mqs i) m)

-- How a receive ends: it returns -1, sleeps and then returns -1, or returns 0 with the message.
pub data Receiving : Type 0 where
  refused misses : Receiving
  found : Message → Receiving

unfoldable pub store_received : (ℕ → Queue) → ℕ → Option (Message × Queue) → Receiving × (ℕ → Queue)
store_received mqs i none = (misses, mqs)
store_received mqs i (some (m, q)) = (found m, put mqs i q)

-- `sys_msgrcv`
unfoldable pub msg_receive : (ℕ → Queue) → ℕ → ℕ → Receiving × (ℕ → Queue)
msg_receive mqs i wanted =
    if leb mq_max i || not ((mqs i).used)
    then (refused, mqs)
    else store_received mqs i (receive (mqs i) wanted)
