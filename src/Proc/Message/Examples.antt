-- ===== src/Proc/Message/Examples.antt =====
-- A send to a new queue.
use oops_os.Prelude.{[], ◌∷◌}
use oops_os.Proc.Message.{Message}

abbrev hello : Message
hello = record { type_of = 1; data_at = 104 ∷ 105 ∷ [] }
