-- ===== src/Control/Ring/Refine.antt =====
-- A ring answers every sequence of its operations as the bounded queue of its entries does.
use mathlib.Core.Path.{ap₂}
use open_arm_ik.Shared.{
  ◌<◌, ◌≡◌, refl, ap, ◌∙◌, Option, none, List, [], ◌∷◌, ◌++◌, ◌==◌, if◌then◌else◌, Bool, true,
  false, arith, if-both,
}
use open_arm_ik.Control.Ring.{Ring, capacity, drop, push_or_refuse, push_or_lose, pop}
use open_arm_ik.Control.Ring.Contents.{
  length, tail, first, IsValid, contents, length-contents, push-IsValid, drop-IsValid,
  contents-push, contents-drop, first-contents, contents-none,
}

-- enqueue, publish and poll_event, of the entries alone.
pub data Op (A : Type 0) : Type 0 where
  offers publishes : A → Op A
  polls : Op A

module _ {A : Type 0} where
  drop_room : (r : Ring A) → IsValid r → (r.count == capacity) ≡ true → (drop r).count < capacity
  unfolding drop
  drop_room r v e = omega arith

  abbrev pub queue_step : List A → Op A → Bool × Option A × List A
  queue_step q (offers a) =
      if length q == capacity then (false, none, q) else (true, none, q ++ (a ∷ []))
  queue_step q (publishes a) =
      (true, none, (if length q == capacity then tail q else q) ++ (a ∷ []))
  queue_step q polls = (true, first q, tail q)

  abbrev pub ring_step : Ring A → Op A → Bool × Option A × Ring A
  ring_step r (offers a) = let (kept, n) = push_or_refuse r a in (kept, none, n)
  ring_step r (publishes a) = (true, none, push_or_lose r a)
  ring_step r polls = let (out, n) = pop r in (true, out, n)

  abbrev pub queue_run : List A → List (Op A) → List (Bool × Option A)
  queue_run q [] = []
  queue_run q (o ∷ os) = let (kept, out, n) = queue_step q o in (kept, out) ∷ queue_run n os

  abbrev pub ring_run : Ring A → List (Op A) → List (Bool × Option A)
  ring_run r [] = []
  ring_run r (o ∷ os) = let (kept, out, n) = ring_step r o in (kept, out) ∷ ring_run n os

  pub ring_step-IsValid : (r : Ring A) (o : Op A) → IsValid r → IsValid (ring_step r o).2
  unfolding push_or_refuse push_or_lose pop
  ring_step-IsValid r (offers a) v = ground (arith, push-IsValid r a v)
  ring_step-IsValid r (publishes a) v =
      if-both IsValid (r.count == capacity)
        (λ e. push-IsValid (drop r) a (drop-IsValid r v) (drop_room r v e))
        (λ e. push-IsValid r a v (grind arith))
  ring_step-IsValid r polls v = ground (arith, drop-IsValid r v)

  step_refines :
      (r : Ring A) (o : Op A)
      → IsValid r
      → let (kept, out, n) = ring_step r o in (kept, out, contents n) ≡ queue_step (contents r) o
  unfolding push_or_refuse push_or_lose pop
  step_refines r (offers a) v = ground (arith, length-contents r, contents-push r a v)
  step_refines r (publishes a) v = ground (
    arith,
    length-contents r,
    contents-push r a v,
    contents-drop r,
    contents-push (drop r) a (drop-IsValid r v),
    drop_room r v,
  )
  step_refines r polls v = ground (arith, first-contents r, contents-drop r, contents-none r)

  -- Any sequence of offers, which a full ring refuses, of publications, for which it loses its oldest
  -- entry, and of polls on a ring whose head and count are in range gets the answers of a queue of
  -- at most 64 entries.
  pub ring_run_refines :
      (r : Ring A) (os : List (Op A)) → IsValid r → ring_run r os ≡ queue_run (contents r) os
  ring_run_refines r [] v = refl
  ring_run_refines r (o ∷ os) v =
      let next = ring_step r o in
      let e = step_refines r o v in
      ap₂ ◌∷◌ (ap (λ x. (x.0, x.1)) e)
        (ring_run_refines next.2 os (ring_step-IsValid r o v) ∙ ap (λ x. queue_run x.2 os) e)
