-- ===== src/Control/Ring/Contents.antt =====
-- The entries of a ring, oldest first, and what each operation does to them.
use mathlib.Core.Path.{ap₂}
use open_arm_ik.Shared.{
  ℕ, zero, suc, ◌+◌, ◌-◌, ◌%◌, ◌≤◌, ◌<◌, ◌≡◌, ◌≢◌, refl, ap, ◌∙◌, Option, none, some, List, [], ◌∷◌,
  ◌++◌, arith,
}
use open_arm_ik.Control.Ring.{Ring, capacity, write, push, drop, empty}

-- An index past a window's end is none of the window's.
index-ne : (h k : ℕ) → h < capacity → suc k < capacity → (h + suc k) % capacity ≢ h
index-ne h k p q = omega arith

index_shift : (h n : ℕ) → (h + suc n) % capacity ≡ ((h + 1) % capacity + n) % capacity
index_shift h n = omega arith

module _ {ℓ} {A : Type ℓ} where
  abbrev pub length : List A → ℕ
  length [] = 0
  length (_ ∷ xs) = suc (length xs)

  abbrev pub tail : List A → List A
  tail [] = []
  tail (_ ∷ xs) = xs

  abbrev pub first : List A → Option A
  first [] = none
  first (x ∷ _) = some x

  pub record IsValid (r : Ring A) : Type ℓ where
    pub head_in : r.head < capacity
    pub count_in : r.count ≤ capacity

  abbrev pub window : (ℕ → A) → ℕ → ℕ → List A
  window f h zero = []
  window f h (suc n) = f h ∷ window f ((h + 1) % capacity) n

  abbrev pub contents : Ring A → List A
  contents r = window r.slot r.head r.count

  length-window : (f : ℕ → A) (h n : ℕ) → length (window f h n) ≡ n
  length-window f h zero = refl
  length-window f h (suc n) = ap suc (length-window f ((h + 1) % capacity) n)

  pub length-contents : (r : Ring A) → length (contents r) ≡ r.count
  length-contents r = length-window r.slot r.head r.count

  write_self : (f : ℕ → A) (i : ℕ) (a : A) → write f i a i ≡ a
  write_self f i a = ground arith

  write-other : (f : ℕ → A) (i j : ℕ) (a : A) → i ≢ j → write f i a j ≡ f j
  write-other f i j a n = ground arith

  -- A write just past a window makes it longer.
  window-write :
      (f : ℕ → A) (a : A) (n h i : ℕ)
      → h < capacity
      → n < capacity
      → i ≡ (h + n) % capacity
      → window (write f i a) h (suc n) ≡ window f h n ++ (a ∷ [])
  window-write f a zero h i hh hn e =
      let same : i ≡ h = omega arith in rw same (ap (λ x. x ∷ []) (write_self f h a))
  window-write f a (suc n) h i hh hn e =
      let apart : i ≢ h = rw e (index-ne h n hh hn) in
      ap₂ ◌∷◌ (write-other f i h a apart) (
        window-write f a n ((h + 1) % capacity) i (omega arith) (omega arith) (e ∙ index_shift h n))

  pub empty-IsValid : (a : A) → IsValid (empty a)
  unfolding empty
  empty-IsValid a = omega arith

  pub push-IsValid : (r : Ring A) (a : A) → IsValid r → r.count < capacity → IsValid (push r a)
  unfolding push
  push-IsValid r a v h = omega arith

  pub drop-IsValid : (r : Ring A) → IsValid r → IsValid (drop r)
  unfolding drop
  drop-IsValid r v = omega arith

  pub contents-push :
      (r : Ring A) (a : A)
      → IsValid r
      → r.count < capacity
      → contents (push r a) ≡ contents r ++ (a ∷ [])
  unfolding push
  contents-push r a v h =
      let one : r.count + 1 ≡ suc r.count = omega arith in
      rw one (window-write r.slot a r.count r.head ((r.head + r.count) % capacity) v.head_in h refl)

  pub contents-drop : (r : Ring A) → r.count ≢ 0 → contents (drop r) ≡ tail (contents r)
  unfolding drop
  contents-drop r n = dropped r.head r.count n
    where
      dropped :
          (h k : ℕ) → k ≢ 0 → window r.slot ((h + 1) % capacity) (k - 1) ≡ tail (window r.slot h k)
      dropped h zero n = absurd (n refl)
      dropped h (suc k) n = let one : suc k - 1 ≡ k = omega arith in rw one refl

  pub first-contents : (r : Ring A) → r.count ≢ 0 → first (contents r) ≡ some (r.slot r.head)
  first-contents r n = found r.count n
    where
      found : (k : ℕ) → k ≢ 0 → first (window r.slot r.head k) ≡ some (r.slot r.head)
      found zero n = absurd (n refl)
      found (suc k) n = refl

  pub contents-none : (r : Ring A) → r.count ≡ 0 → contents r ≡ []
  contents-none r e = rw e refl
