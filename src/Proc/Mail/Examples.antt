-- ===== src/Proc/Mail/Examples.antt =====
-- A letter is sent and received.
use oops_os.Prelude.{ℕ, ◌≤◌, ◌≡◌, false, List, [], ◌∷◌, ◌++◌, count, some, refl, arith}
use oops_os.Prelude.Arrays.{put}
use oops_os.Proc.Mail.{
  Mailbox, queue_max, sent, received, link, link_page, dmsgsend, unlink, dmsgrcv,
}
use oops_os.Proc.Mail.Chain.{Mail, mail_of, Holds, IsChain}
use oops_os.Proc.Mail.Link.{IsFresh}
use oops_os.Proc.Mail.Delivery.{start, send, receive, delivered_in_order}

abbrev no_mail : Mailbox
no_mail = record {
  nodes = λ p. record { next = 0; len = 0; sender = 0; text = λ i. 0 };
  head = 0;
  tail = 0;
  held = 0;
  bytes = 0;
  closed = false;
}

abbrev letter_5 : Mail
letter_5 = record { len = 5; sender = 7; text = λ i. i }

abbrev one_letter : Mailbox
one_letter = link no_mail 4096 7 5 (λ i. i)

no_mail-IsFresh : IsFresh no_mail 4096
no_mail-IsFresh = (omega arith, none)
  where
    none : (xs : List ℕ) → IsChain no_mail.nodes 0 xs → count 4096 xs ≡ 0
    none [] c = refl
    none (x ∷ xs) c = absurd (omega (arith, c.0, c.1))

sent_one : dmsgsend no_mail (some 4096) 7 5 (λ i. i) ≡ sent one_letter
unfolding dmsgsend link_page
sent_one = refl

received_one : dmsgrcv one_letter false 8 ≡ received (one_letter.nodes 4096) (unlink one_letter)
unfolding dmsgrcv link put
received_one = refl

delivered_in_order_example :
    ((unlink one_letter).held ≤ queue_max)
    × ((ms : List Mail) × Holds (unlink one_letter) ms
        × ((letter_5 ∷ []) ≡ (mail_of (one_letter.nodes 4096) ∷ []) ++ ms))
delivered_in_order_example =
    delivered_in_order (unlink one_letter) (letter_5 ∷ []) (mail_of (one_letter.nodes 4096) ∷ []) (
      receive one_letter (unlink one_letter) (letter_5 ∷ []) [] false 8 (one_letter.nodes 4096)
        (send no_mail one_letter [] [] 4096 7 5 (λ i. i) (start no_mail refl refl refl refl)
          no_mail-IsFresh sent_one)
        received_one)
