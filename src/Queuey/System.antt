-- ===== src/Queuey/System.antt =====
-- Any interleaving of calls of spinach/queuey.py, with its history.
use spinach.Prelude.{ℕ, ◌+◌, List, [], ◌∷◌, ◌++◌, Option, none, some, length}
use spinach.Outcome.{Result, ok, raise}
use spinach.Queuey.{Queuey, create, get_noblock, put_noblock, task_done}

pub data Call (A : Type 0) : Type 0 where
  get : Call A
  put : A → Call A
  done : Call A

-- The queue with its history: the items that were put, the number of gets, and which get received
-- which item. A get is known by its number, and so is a put.
pub record System (A : Type 0) : Type 0 where
  pub queue : Queuey A
  pub sent : List A
  pub asked : ℕ
  pub received : List (ℕ × A)

module _ {A : Type 0} where
  abbrev pub receive : Option (ℕ × A) → List (ℕ × A) → List (ℕ × A)
  receive none rs = rs
  receive (some r) rs = rs ++ r ∷ []

  abbrev pub own_item : ℕ → Option A → Option (ℕ × A)
  own_item n none = none
  own_item n (some a) = some (n, a)

  -- A failed `task_done` changes nothing.
  abbrev pub after_done : Queuey A → Result (Queuey A) → Queuey A
  after_done q (ok r) = r
  after_done q (raise e) = q

  unfoldable pub step : System A → Call A → System A
  step s get =
      let got = get_noblock s.asked s.queue in
      record s {
        queue = got.queue;
        asked = s.asked + 1;
        received = receive (own_item s.asked got.item) s.received;
      }
  step s (put a) =
      let p = put_noblock a (length s.sent) s.queue in
      record s { queue = p.queue; sent = s.sent ++ a ∷ []; received = receive p.served s.received }
  step s done = record s { queue = after_done s.queue (task_done s.queue) }

  unfoldable pub run : System A → List (Call A) → System A
  run s [] = s
  run s (c ∷ cs) = run (step s c) cs

  unfoldable pub start : ℕ → System A
  start maxsize = record { queue = create maxsize; sent = []; asked = 0; received = [] }
