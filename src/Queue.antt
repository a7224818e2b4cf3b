-- ===== src/Queue.antt =====
-- The ring buffer that the channel, the thread pool and the worker pool of runtime/xiom_runtime.c share
-- in form (7642 to 7710, 7711 to 7830 and 7832 to 8045): an array, the places of the next read and the
-- next write, which advance modulo the capacity, and the number of items.
pub mod Fifo
pub mod Channel
pub mod Traffic
pub mod Through
pub mod Threads
pub mod Placed
pub mod Pool
pub mod Jobs
pub mod Drain
pub mod Crew
pub mod Ended
pub mod Tests
use stdlib.Base.{
  ℕ, zero, suc, ◌+◌, ◌-◌, ◌%◌, ◌≤◌, ◌<◌, ◌≡◌, List, [], ◌∷◌, length, get_or, set, replicate,
}

pub record Ring (A : Type 0) : Type 0 where
  pub items : List A
  pub head : ℕ
  pub tail : ℕ
  pub count : ℕ

module _ {A : Type 0} where
  -- calloc of the array, or memset of the struct.
  abbrev pub empty_ring : ℕ → A → Ring A
  empty_ring cap a = record { items = replicate cap a; head = 0; tail = 0; count = 0 }

  -- The write at `tail`, and the read at `head`.
  unfoldable pub push : ℕ → A → Ring A → Ring A
  push cap x r = record {
    items = set r.items r.tail x;
    head = r.head;
    tail = (r.tail + 1) % cap;
    count = r.count + 1;
  }

  unfoldable pub pop : ℕ → A → Ring A → A × Ring A
  pop cap d r = (
    get_or r.items r.head d,
    record { items = r.items; head = (r.head + 1) % cap; tail = r.tail; count = r.count - 1 },
  )
