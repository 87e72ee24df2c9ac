-- ===== src/Proc/Message/Counted.antt =====
-- The bytes that a queue counts as used are those of its messages.
use oops_os.Prelude.{
  ℕ, ◌+◌, ◌≤◌, ◌≡◌, Option, none, some, List, [], ◌∷◌, ◌++◌, leb, arith, Bool-cases, inl, inr,
  length,
}
use oops_os.Proc.Message.{Message, Queue, send}

-- A message takes its data and a header of 16 bytes; the page begins with an empty header.
abbrev pub bytes_of : List Message → ℕ
bytes_of [] = 16
bytes_of (m ∷ ms) = length m.data_at + 16 + bytes_of ms

pub record IsCounted (q : Queue) : Type 0 where
  pub counted : q.curbytes ≡ bytes_of q.msgs
  pub fits : q.curbytes ≤ q.maxbytes

bytes_of-append :
    (ms : List Message) (m : Message)
    → bytes_of (ms ++ (m ∷ [])) ≡ bytes_of ms + (length m.data_at + 16)
bytes_of-append [] m = omega arith
bytes_of-append (x ∷ ms) m = omega (arith, bytes_of-append ms m)

-- What a send leaves: the queue itself if it sleeps.
abbrev pub sent : Queue → Option Queue → Queue
sent q none = q
sent q (some q') = q'

-- A send, whether it stores the message or sleeps, leaves a queue that counts the bytes of its
-- messages and has at most `maxbytes` of them, where it was one before.
pub send-IsCounted : (q : Queue) (m : Message) → IsCounted q → IsCounted (sent q (send q m))
unfolding send
send-IsCounted q m v = elim (Bool-cases (leb (q.curbytes + length m.data_at + 16) q.maxbytes)) [
  | inr e ↦ simp e v
  | inl e ↦
      simp e (record {
        counted = omega (arith, v.counted, bytes_of-append q.msgs m);
        fits = ground arith;
      })
]
