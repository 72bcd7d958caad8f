-- ===== src/Queuey.antt =====
-- spinach/queuey.py: the queue between the engine and its workers. A `Future` is a number that the
-- caller makes up; the methods run under the mutex, so one after the other, and say which futures
-- they resolve. A caller that is handed a future waits until a later call resolves it.
pub mod System
pub mod Invariant
pub mod Order
pub mod Unfinished
use spinach.Prelude.{
  ℕ, ℤ, sub_ℕ, ◌+◌, ◌-◌, Bool, List, [], ◌∷◌, ◌++◌, Option, none, some, length, ltb, leb, ◌==◌,
  if◌then◌else◌,
}
use spinach.Outcome.{Result, ok, raise, value_error}

pub record Queuey (A : Type 0) : Type 0 where
  pub maxsize : ℕ
  pub items : List A
  pub getters : List ℕ
  pub putters : List (A × ℕ)
  pub unfinished_tasks : ℕ

-- What `_get_noblock` returns, and the putter whose future it resolves.
pub record Got (A : Type 0) : Type 0 where
  pub item : Option A
  pub fut : Option ℕ
  pub woken : Option ℕ
  pub queue : Queuey A

-- What `_put_noblock` returns, and the getter whose future it resolves, with the item.
pub record Put (A : Type 0) : Type 0 where
  pub fut : Option ℕ
  pub served : Option (ℕ × A)
  pub queue : Queuey A

module _ {A : Type 0} where
  unfoldable pub create : ℕ → Queuey A
  create maxsize = record {
    maxsize = maxsize;
    items = [];
    getters = [];
    putters = [];
    unfinished_tasks = 0;
  }

  -- The item in front is taken; the oldest putter, if one waits, fills the place at the end.
  take_first : Queuey A → A → List A → List (A × ℕ) → Got A
  take_first q a rest [] = record {
    item = some a;
    fut = none;
    woken = none;
    queue = record q { items = rest };
  }
  take_first q a rest ((item, put_fut) ∷ waiting) = record {
    item = some a;
    fut = none;
    woken = some put_fut;
    queue = record q { items = rest ++ item ∷ []; putters = waiting };
  }

  get_from : ℕ → Queuey A → List A → Got A
  unfolding take_first
  get_from fut q [] = record {
    item = none;
    fut = some fut;
    woken = none;
    queue = record q { getters = q.getters ++ fut ∷ [] };
  }
  get_from fut q (a ∷ rest) = take_first q a rest q.putters

  -- `_get_noblock`, with the future that it makes if the queue is empty.
  unfoldable pub get_noblock : ℕ → Queuey A → Got A
  unfolding get_from
  get_noblock fut q = get_from fut q q.items

  -- `self._getters.popleft().set_result(self._items.popleft())`, if a getter waits.
  -- An item was just appended, so there is one to pop.
  serve : Queuey A → List ℕ → List A → Put A
  serve q [] items = record { fut = none; served = none; queue = record q { items = items } }
  serve q (getter ∷ getters) [] = record { fut = none; served = none; queue = q }
  serve q (getter ∷ getters) (a ∷ rest) = record {
    fut = none;
    served = some (getter, a);
    queue = record q { items = rest; getters = getters };
  }

  -- `_put_noblock`, with the future that it makes if the queue is full.
  unfoldable pub put_noblock : A → ℕ → Queuey A → Put A
  unfolding serve
  put_noblock item fut q =
      if ltb (length q.items) q.maxsize
      then serve (record q { unfinished_tasks = q.unfinished_tasks + 1 }) q.getters
          (q.items ++ item ∷ [])
      else record {
        fut = some fut;
        served = none;
        queue = record q { putters = q.putters ++ (item, fut) ∷ [] };
      }

  -- `task_done`
  unfoldable pub task_done : Queuey A → Result (Queuey A)
  task_done q =
      if ltb q.unfinished_tasks 1
      then raise value_error
      else ok (record q { unfinished_tasks = q.unfinished_tasks - 1 })

  unfoldable pub empty : Queuey A → Bool
  empty q = q.unfinished_tasks == 0

  unfoldable pub full : Queuey A → Bool
  full q = leb q.maxsize q.unfinished_tasks

  unfoldable pub available_slots : Queuey A → ℤ
  available_slots q = sub_ℕ q.maxsize q.unfinished_tasks
