-- ===== src/Control/Ring.antt =====
-- The ring buffers of control/src/control_core.cpp: an array of 64 slots, the index of the oldest
-- entry and the number of entries. The arms queue their feedback in one, the controller its events.
pub mod Contents
pub mod Refine
use open_arm_ik.Shared.{
  ℕ, ◌+◌, ◌-◌, ◌%◌, Option, none, some, ◌==◌, if◌then◌else◌, Bool, true, false,
}

abbrev pub capacity : ℕ
capacity = 64

pub record Ring {ℓ} (A : Type ℓ) : Type ℓ where
  pub slot : ℕ → A
  pub head : ℕ
  pub count : ℕ

module _ {ℓ} {A : Type ℓ} where
  -- slots[i] = a
  abbrev pub write : (ℕ → A) → ℕ → A → ℕ → A
  write f i a j = if i == j then a else f j

  -- An empty ring whose slots hold `a`.
  unfoldable pub empty : A → Ring A
  empty a = record { slot = λ i. a; head = 0; count = 0 }

  -- The write at the tail.
  unfoldable pub push : Ring A → A → Ring A
  push r a = record {
    slot = write r.slot ((r.head + r.count) % capacity) a;
    head = r.head;
    count = r.count + 1;
  }

  -- The head moves on.
  unfoldable pub drop : Ring A → Ring A
  drop r = record r { head = (r.head + 1) % capacity; count = r.count - 1 }

  -- A full ring refuses.
  unfoldable pub push_or_refuse : Ring A → A → Bool × Ring A
  push_or_refuse r a = if r.count == capacity then (false, r) else (true, push r a)

  -- A full ring loses its oldest entry.
  unfoldable pub push_or_lose : Ring A → A → Ring A
  push_or_lose r a = if r.count == capacity then push (drop r) a else push r a

  unfoldable pub pop : Ring A → Option A × Ring A
  pop r = if r.count == 0 then (none, r) else (some (r.slot r.head), drop r)

  -- clear_queue
  unfoldable pub clear : Ring A → Ring A
  clear r = record r { head = 0; count = 0 }
