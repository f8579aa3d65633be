-- ===== src/Timer/Safety.antt =====
-- What never goes wrong between the clock and the devices, in whatever order their threads run.
use os_lamina_atrium.Base.{
  ℕ, ◌≡◌, refl, sym, ◌∙◌, subst, ◌⊎◌, inl, inr, Bool, true, false, List, ◌∷◌, none, some, ◌==◌,
  get_elem?, Bool-cases, Option-cases,
}
use os_lamina_atrium.Timer.{
  Place, at_work, in_next_slot, asleep, detached, Device, Clock, off, at_top, looking, sleeping,
  waking, ended, Timer, new_device, attach_event, advance, start_timer, signal_event, tick_at, tick,
  next_slot_at, next_slot, detach_event,
}
use os_lamina_atrium.Timer.Steps.{
  Step, attaches, starts, ticks, continues, leaves, stops, Reach, start, later,
}
use os_lamina_atrium.Timer.LockStep.{InvAt, Inv, next_slot-Inv, detach_event-Inv, set_stop-Inv}
use os_lamina_atrium.Timer.ClockStep.{tick_at-Inv}
use os_lamina_atrium.Timer.LockStep.Parts.{Split, Split-all}
use os_lamina_atrium.Timer.LockStep.Devices.{
  OnTime, Behind, OnTime-at_work, Behind-at_work, OnTime-asleep, Behind-asleep,
}

-- Until `start_timer` there is no thread of the clock.
abbrev Unstarted : Timer → Type 0
Unstarted t = t.started ≡ false → t.clock ≡ off

tick_at-started : (c : Clock) (t : Timer) → (tick_at c t).started ≡ t.started
unfolding tick_at advance
tick_at-started off t = refl
tick_at-started at_top t = refl
tick_at-started (looking i fsh) t = elim (Option-cases (get_elem? t.dev_list i)) [
  | inl e ↦ elim (Bool-cases (fsh == i)) [
    | inl all ↦ rw (tick_at, e, advance, all) refl
    | inr some_left ↦ rw (tick_at, e, advance, some_left) refl
  ]
  | inr (d, e) ↦ rw (tick_at, e) refl
]
tick_at-started (sleeping i fsh) t = refl
tick_at-started (waking i) t = elim (Option-cases (get_elem? t.dev_list i)) [
  | inl e ↦ rw (tick_at, e) refl
  | inr (d, e) ↦ rw (tick_at, e) refl
]
tick_at-started ended t = refl

tick-Unstarted : (t : Timer) → Unstarted t → Unstarted (tick t)
unfolding tick tick_at
tick-Unstarted t h s =
    let off_now = h (sym (tick_at-started t.clock t) ∙ s) in
    subst (λ (c : Clock). (tick_at c t).clock ≡ off) (sym off_now) off_now

signal_event-off : (k : ℕ) (c : Clock) → c ≡ off → signal_event k c ≡ off
unfolding signal_event
signal_event-off k c e = rw (e) refl

next_slot-Unstarted : (t : Timer) (k : ℕ) → Unstarted t → Unstarted (next_slot t k)
unfolding next_slot next_slot_at
next_slot-Unstarted t k h = elim (Option-cases (get_elem? t.dev_list k)) [
  | inl e ↦ rw (next_slot, e) h
  | inr (d, e) ↦ rw (next_slot, e) (go d.place d)
]
  where
    go : (p : Place) (d : Device) → Unstarted (next_slot_at p d k t)
    go at_work d s = signal_event-off k t.clock (h s)
    go in_next_slot d s = h s
    go asleep d s = h s
    go detached d s = h s

detach_event-Unstarted : (t : Timer) (k : ℕ) → Unstarted t → Unstarted (detach_event t k)
unfolding detach_event
detach_event-Unstarted t k h = elim (Option-cases (get_elem? t.dev_list k)) [
  | inl e ↦ rw (detach_event, e) h
  | inr (d, e) ↦ rw (detach_event, e) (λ s. signal_event-off k t.clock (h s))
]

attach_event-Inv :
    (t t' : Timer) → attach_event t ≡ some t' → Inv t → Unstarted t → Inv t' × Unstarted t'
unfolding attach_event Split
attach_event-Inv t t' e inv h = elim (Bool-cases t.started) [
  | inl s ↦ let refused : attach_event t ≡ none = rw (attach_event, s) refl in cc (refused, e)
  | inr s ↦
      let grown : Timer = record t { dev_list = new_device ∷ t.dev_list } in
      let result : attach_event t ≡ some grown = rw (attach_event, s) refl in
      let (zero_time, on) = subst (λ (c : Clock). InvAt c t.time t.stop t.dev_list) (h s) inv in
      subst (λ (x : Timer). Inv x × Unstarted x) (cc (result, e))
        (
          subst (λ (c : Clock). InvAt c t.time t.stop (new_device ∷ t.dev_list)) (sym (h s))
              (zero_time, ((refl, refl, sym zero_time), on)),
          h,
        )
]

Step-Inv : {t t' : Timer} → Step t t' → Inv t × Unstarted t → Inv t' × Unstarted t'
unfolding start_timer tick
Step-Inv {t} (attaches t' e) (inv, h) = attach_event-Inv t t' e inv h
Step-Inv {t} (starts e) (inv, h) =
    let (_, on) = subst (λ (c : Clock). InvAt c t.time t.stop t.dev_list) e inv in (on, λ s. cc (s))
Step-Inv {t} ticks (inv, h) = (tick_at-Inv t.clock t inv refl, tick-Unstarted t h)
Step-Inv {t} (continues k) (inv, h) = (next_slot-Inv t k inv, next_slot-Unstarted t k h)
Step-Inv {t} (leaves k d e _) (inv, h) =
    (detach_event-Inv t k d e inv, detach_event-Unstarted t k h)
Step-Inv {t} stops (inv, h) = (set_stop-Inv t.clock t.time t.stop t.dev_list inv, h)

Reach-Inv : {t : Timer} → Reach t → Inv t × Unstarted t
unfolding Split
Reach-Inv start = ((refl, tt), λ _. refl)
Reach-Inv (later r s) = Step-Inv s (Reach-Inv r)

-- What holds at every moment.
pub record IsSafe (t : Timer) : Type 0 where
  -- A device at work is in the slot that the clock shows.
  pub together :
      (k : ℕ) (d : Device) → get_elem? t.dev_list k ≡ some d → d.place ≡ at_work → d.slots ≡ t.time
  -- A device sleeps only while the clock has still to wake it.
  pub device_awaits :
      (k : ℕ) (d : Device) → get_elem? t.dev_list k ≡ some d → d.place ≡ asleep → d.done ≡ true
  -- The clock sleeps only at a device that has still to signal it.
  pub clock_awaits :
      (i fsh : ℕ)
      → t.clock ≡ sleeping i fsh
      → (d : Device) × (get_elem? t.dev_list i ≡ some d) × (d.done ≡ false) × (d.fsh ≡ false)
  -- The clock ends only on request, or after all devices.
  pub ends_last :
      t.clock ≡ ended
      → (t.stop ≡ true) ⊎ ((k : ℕ) (d : Device) → get_elem? t.dev_list k ≡ some d → d.fsh ≡ true)

-- What the invariant says of each device, at each place of the clock
each :
    (c : Clock) (time : ℕ) (stop : Bool) (ds : List Device) (k : ℕ) (d : Device)
    → (R : Device → Type 0) → (OnTime time d → R d)
    → (Behind time d → R d)
    → get_elem? ds k ≡ some d
    → InvAt c time stop ds
    → R d
each off time stop ds k d R on behind e (_, s) = Split-all _ _ R on on ds 0 k e s
each at_top time stop ds k d R on behind e s = Split-all _ _ R on on ds 0 k e s
each (looking i fsh) time stop ds k d R on behind e s =
    Split-all _ _ R (λ (h, _). on h) on ds i k e s.looked
each (sleeping i fsh) time stop ds k d R on behind e (s, _) =
    Split-all _ _ R (λ (h, _). on h) on ds i k e s.looked
each (waking i) time stop ds k d R on behind e s = Split-all _ _ R on behind ds i k e s
each ended time stop ds k d R on behind e (s, _) = Split-all _ _ R on on ds 0 k e s

-- In any order of the threads' steps, with any number of devices: all devices at work are in the
-- time slot that the clock shows (modulo 2 ^ 64), no wake-up of the clock or of a device is lost, and
-- the clock ends only when it is told to or when all devices have gone.
pub Reach-IsSafe : (t : Timer) → Reach t → IsSafe t
Reach-IsSafe t r =
    let (inv, _) = Reach-Inv r in
    record {
      together = λ k d e w.
          each t.clock t.time t.stop t.dev_list k d (λ x. x.slots ≡ t.time)
            (OnTime-at_work d t.time w) (Behind-at_work d t.time w) e inv;
      device_awaits = λ k d e w.
          each t.clock t.time t.stop t.dev_list k d (λ x. x.done ≡ true) (OnTime-asleep d t.time w)
            (Behind-asleep d t.time w) e inv;
      clock_awaits = λ i fsh e.
          let (_, awaited) = subst (λ (c : Clock). InvAt c t.time t.stop t.dev_list) e inv in
          awaited;
      ends_last = λ e. last (subst (λ (c : Clock). InvAt c t.time t.stop t.dev_list) e inv);
    }
  where
    last :
        InvAt ended t.time t.stop t.dev_list
        → (t.stop ≡ true) ⊎ ((k : ℕ) (d : Device) → get_elem? t.dev_list k ≡ some d → d.fsh ≡ true)
    last (_, inl stopped) = inl stopped
    last (_, inr gone) =
        inr (λ k d e. Split-all _ _ (λ x. x.fsh ≡ true) (λ h. h) (λ h. h) t.dev_list 0 k e gone)
