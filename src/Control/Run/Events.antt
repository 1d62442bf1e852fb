-- ===== src/Control/Run/Events.antt =====
-- The queue of the events, as a client sees it.
use open_arm_ik.Shared.{
  ℕ, ◌<◌, ◌≡◌, ◌⊎◌, inl, inr, refl, sym, ap, ◌∙◌, Bool, true, false, Option, [], ◌∷◌, ◌++◌, ◌==◌,
  arith, if-both, if◌then◌else◌,
}
use open_arm_ik.Shared.Double.{Double}
use open_arm_ik.Control.Codes.{Status, ok, ebusy, etimeout, EventKind, faulted, lifecycle_fault}
use open_arm_ik.Control.Plan.{Event}
use open_arm_ik.Control.Ring
use open_arm_ik.Control.Ring.{Ring, capacity}
use open_arm_ik.Control.Ring.Contents.{
  length, tail, first, IsValid, contents, length-contents, contents-push, contents-drop,
  drop-IsValid, first-contents, contents-none,
}
use open_arm_ik.Control.Controller.{Controller, has, publish, append, event_of, overflowed}
use open_arm_ik.Control.Controller.Arming.{poll_event}

module _ {D : Type 0} ⦃d : Double D⦄ where
  -- What publish does to the waiting events, and what it tells of a loss.
  record Published (k : EventKind) (cause : Status) (id : ℕ) (c : Controller D)
      (r : Bool × Controller D) : Type 0 where
    event : Event
    fits :
        ((length (contents c.events) < 64)
          × (r.0 ≡ true)
          × (event.kind ≡ k)
          × (event.cause ≡ cause)
          × (event.lifecycle ≡ c.lifecycle)
          × (contents r.1.events ≡ contents c.events ++ (event ∷ [])))
        ⊎ ((length (contents c.events) ≡ 64)
            × (r.0 ≡ false)
            × (event.kind ≡ faulted)
            × (event.cause ≡ ebusy)
            × (event.lifecycle ≡ lifecycle_fault)
            × (contents r.1.events ≡ tail (contents c.events) ++ (event ∷ [])))
    told : event.command_id ≡ id

  drop_room : (c : Controller D) → c.events.count ≡ capacity → (Ring.drop c.events).count < capacity
  unfolding Ring.drop
  drop_room c e = omega arith

  publish-Published :
      (k : EventKind) (cause : Status) (id : ℕ) (c : Controller D)
      → IsValid c.events
      → Published k cause id c (publish k cause id c)
  unfolding publish append event_of overflowed
  publish-Published k cause id c v =
      let l = length-contents c.events in
      if-both (Published k cause id c) (c.events.count == capacity)
        (λ e.
          let full : c.events.count ≡ capacity = grind arith in
          let dropped = contents-drop c.events (grind arith) in
          let x = event_of true k cause id (overflowed c) in
          record {
            event = x;
            told = refl;
            fits = inr (
              l ∙ full,
              refl,
              refl,
              refl,
              refl,
              contents-push (Ring.drop c.events) x (drop-IsValid c.events v) (drop_room c full)
                  ∙ ap (λ q. q ++ (x ∷ [])) dropped,
            );
          })
        (λ e.
          let room : c.events.count < capacity = grind arith in
          let x = event_of false k cause id c in
          record {
            event = x;
            told = refl;
            fits = inl (rw l room, refl, refl, refl, refl, contents-push c.events x v room);
          })

poll_lem :
    {D : Type 0} ⦃d : Double D⦄ (c : Controller D)
    → let x = poll_event c in
      (x.out ≡ first (contents c.events))
      × (contents x.next.events ≡ tail (contents c.events))
      × (x.status ≡ (if has (first (contents c.events)) then ok else etimeout))
unfolding poll_event Ring.pop
poll_lem c =
    if-both
      (λ (r : Option Event × Ring Event).
        (r.0 ≡ first (contents c.events))
        × (contents r.1 ≡ tail (contents c.events))
        × ((if has r.0 then ok else etimeout)
            ≡ (if has (first (contents c.events)) then ok else etimeout)))
      (c.events.count == 0)
      (λ e. let n = contents-none c.events (grind arith) in rw n (refl, refl, refl))
      (λ e.
        let f = first-contents c.events (grind arith) in
        (sym f, contents-drop c.events (grind arith), rw f refl))

-- publish appends one event to the waiting ones, with its kind, its cause and the command, and
-- returns true; when 64 events wait, it gives up the oldest, appends a FAULTED event with the cause
-- EBUSY and the lifecycle FAULT, and returns false. poll_event takes the oldest event, or returns
-- ETIMEOUT when none waits.
pub events_in_order :
    {D : Type 0} ⦃d : Double D⦄ (k : EventKind) (cause : Status) (id : ℕ) (c : Controller D)
    → IsValid c.events
    → let r = publish k cause id c in
      let x = poll_event c in
      ((e : Event) × (e.command_id ≡ id)
        × (((length (contents c.events) < 64)
              × (r.0 ≡ true)
              × (e.kind ≡ k)
              × (e.cause ≡ cause)
              × (contents r.1.events ≡ contents c.events ++ (e ∷ [])))
            ⊎ ((length (contents c.events) ≡ 64)
                × (r.0 ≡ false)
                × (e.kind ≡ faulted)
                × (e.cause ≡ ebusy)
                × (e.lifecycle ≡ lifecycle_fault)
                × (contents r.1.events ≡ tail (contents c.events) ++ (e ∷ [])))))
      × ((x.out ≡ first (contents c.events))
          × (contents x.next.events ≡ tail (contents c.events))
          × (x.status ≡ (if has (first (contents c.events)) then ok else etimeout)))
events_in_order k cause id c v =
    let p = publish-Published k cause id c v in
    let q = poll_lem c in
    ((p.event, p.told, elim p.fits [ inl f ↦ inl (f.0, f.1, f.2, f.3, f.5) | inr f ↦ inr f ]), q)
