-- ===== src/Timer/LockStep.antt =====
-- The clock and the devices keep step: the invariant of the threads of src/timer.c.
pub mod Parts
pub mod Devices
use os_lamina_atrium.Base.{
  ℕ, ◌≤◌, ◌≡◌, ◌≢◌, refl, ap, ◌∙◌, subst, ◌⊎◌, inl, inr, Bool, true, false, List, Option, some,
  ◌==◌, get_elem?, set, arith, Bool-cases, Option-cases,
}
use os_lamina_atrium.Timer.{
  Place, at_work, in_next_slot, asleep, detached, Device, Clock, off, at_top, looking, sleeping,
  waking, ended, Timer, signal_event, tell, await, detach, next_slot_at, next_slot, detach_event,
  set_stop,
}
use Parts.{get_elem?-set_self, Split, Split-set, get_elem?-set_ne}
use Devices.{
  OnTime, Behind, Finished, Gone, Kept, tell-Kept, await-Kept, await_same, stir-Kept, detach-Kept,
}

-- The device that the clock sleeps at has still to tell it.
abbrev pub Awaited : ℕ → List Device → Type 0
Awaited i ds = (d : Device) × (get_elem? ds i ≡ some d) × (d.done ≡ false) × (d.fsh ≡ false)

-- In the first loop: the devices before `i` are done, and `fsh` counts those that have finished.
pub record Looked (time i fsh : ℕ) (ds : List Device) : Type 0 where
  pub looked : Split (λ d. OnTime time d × Finished d) (OnTime time) i ds
  pub counted : fsh ≤ i
  pub all_gone : fsh ≡ i → Split Gone (OnTime time) i ds

-- The invariant at each place of the clock
abbrev pub InvAt : Clock → ℕ → Bool → List Device → Type 0
InvAt off time stop ds = (time ≡ 0) × Split (OnTime time) (OnTime time) 0 ds
InvAt at_top time stop ds = Split (OnTime time) (OnTime time) 0 ds
InvAt (looking i fsh) time stop ds = Looked time i fsh ds
InvAt (sleeping i fsh) time stop ds = Looked time i fsh ds × Awaited i ds
InvAt (waking i) time stop ds = Split (OnTime time) (Behind time) i ds
InvAt ended time stop ds =
    Split (OnTime time) (OnTime time) 0 ds × ((stop ≡ true) ⊎ Split Gone Gone 0 ds)

abbrev pub Inv : Timer → Type 0
Inv t = InvAt t.clock t.time t.stop t.dev_list

Looked-set :
    (time i fsh : ℕ) (ds : List Device) (k : ℕ) (d d' : Device)
    → get_elem? ds k ≡ some d
    → Kept d d'
    → Looked time i fsh ds
    → Looked time i fsh (set ds k d')
Looked-set time i fsh ds k d d' e kept s = record {
  looked =
      Split-set _ _ (λ (on, f). (kept.on_time time on, kept.finished f)) (kept.on_time time) ds k i
        e s.looked;
  counted = s.counted;
  all_gone = λ all. Split-set _ _ kept.gone (kept.on_time time) ds k i e (s.all_gone all);
}

Awaited-elsewhere :
    (i : ℕ) (ds : List Device) (k : ℕ) (d' : Device)
    → k ≢ i
    → Awaited i ds
    → Awaited i (set ds k d')
Awaited-elsewhere i ds k d' h (x, at, open_done, open_fsh) =
    (x, get_elem?-set_ne ds k i d' h ∙ at, open_done, open_fsh)

Awaited-set :
    (i : ℕ) (ds : List Device) (k : ℕ) (d d' : Device)
    → get_elem? ds k ≡ some d
    → (d'.done ≡ d.done) × (d'.fsh ≡ d.fsh)
    → Awaited i ds
    → Awaited i (set ds k d')
Awaited-set i ds k d d' e (same_done, same_fsh) (x, at, open_done, open_fsh) =
    elim (Bool-cases (k == i)) [
      | inl here ↦
          let k_i : k ≡ i = ground arith in
          let same : d ≡ x = cc (e, at, k_i) in
          (
            d',
            subst (λ (j : ℕ). get_elem? (set ds k d') j ≡ some d') k_i
                (get_elem?-set_self ds k d d' e),
            same_done ∙ ap (λ (y : Device). y.done) same ∙ open_done,
            same_fsh ∙ ap (λ (y : Device). y.fsh) same ∙ open_fsh,
          )
      | inr other ↦ Awaited-elsewhere i ds k d' (λ k_i. ground (arith)) (x, at, open_done, open_fsh)
    ]

-- A device runs a section in which it tells the clock nothing.
Kept-Inv :
    (clock : Clock) (time : ℕ) (stop : Bool) (ds : List Device) (k : ℕ) (d d' : Device)
    → get_elem? ds k ≡ some d
    → Kept d d'
    → (d'.done ≡ d.done) × (d'.fsh ≡ d.fsh)
    → InvAt clock time stop ds
    → InvAt clock time stop (set ds k d')
Kept-Inv off time stop ds k d d' e kept _ (zero_time, s) =
    (zero_time, Split-set _ _ (kept.on_time time) (kept.on_time time) ds k 0 e s)
Kept-Inv at_top time stop ds k d d' e kept _ s =
    Split-set _ _ (kept.on_time time) (kept.on_time time) ds k 0 e s
Kept-Inv (looking i fsh) time stop ds k d d' e kept _ s = Looked-set time i fsh ds k d d' e kept s
Kept-Inv (sleeping i fsh) time stop ds k d d' e kept same (s, a) =
    (Looked-set time i fsh ds k d d' e kept s, Awaited-set i ds k d d' e same a)
Kept-Inv (waking i) time stop ds k d d' e kept _ s =
    Split-set _ _ (kept.on_time time) (kept.behind time) ds k i e s
Kept-Inv ended time stop ds k d d' e kept _ (s, inl stopped) =
    (Split-set _ _ (kept.on_time time) (kept.on_time time) ds k 0 e s, inl stopped)
Kept-Inv ended time stop ds k d d' e kept _ (s, inr gone) = (
  Split-set _ _ (kept.on_time time) (kept.on_time time) ds k 0 e s,
  inr (Split-set _ _ kept.gone kept.gone ds k 0 e gone),
)

-- A device runs a section in which it signals the clock.
signal_event-Inv :
    (clock : Clock) (time : ℕ) (stop : Bool) (ds : List Device) (k : ℕ) (d d' : Device)
    → get_elem? ds k ≡ some d
    → Kept d d'
    → InvAt clock time stop ds
    → InvAt (signal_event k clock) time stop (set ds k d')
unfolding signal_event
signal_event-Inv off time stop ds k d d' e kept (zero_time, s) =
    (zero_time, Split-set _ _ (kept.on_time time) (kept.on_time time) ds k 0 e s)
signal_event-Inv at_top time stop ds k d d' e kept s =
    Split-set _ _ (kept.on_time time) (kept.on_time time) ds k 0 e s
signal_event-Inv (looking i fsh) time stop ds k d d' e kept s =
    Looked-set time i fsh ds k d d' e kept s
signal_event-Inv (sleeping i fsh) time stop ds k d d' e kept (s, a) = elim (Bool-cases (i == k)) [
  | inl here ↦ rw (here) (Looked-set time i fsh ds k d d' e kept s)
  | inr other ↦ rw (other) (
    Looked-set time i fsh ds k d d' e kept s,
    Awaited-elsewhere i ds k d' (λ k_i. ground (arith)) a,
  )
]
signal_event-Inv (waking i) time stop ds k d d' e kept s =
    Split-set _ _ (kept.on_time time) (kept.behind time) ds k i e s
signal_event-Inv ended time stop ds k d d' e kept (s, inl stopped) =
    (Split-set _ _ (kept.on_time time) (kept.on_time time) ds k 0 e s, inl stopped)
signal_event-Inv ended time stop ds k d d' e kept (s, inr gone) = (
  Split-set _ _ (kept.on_time time) (kept.on_time time) ds k 0 e s,
  inr (Split-set _ _ kept.gone kept.gone ds k 0 e gone),
)

next_slot_at-Inv :
    (p : Place) (d : Device) (k : ℕ) (t : Timer)
    → d.place ≡ p
    → get_elem? t.dev_list k ≡ some d
    → Inv t
    → Inv (next_slot_at p d k t)
unfolding next_slot_at await
next_slot_at-Inv at_work d k t at e inv =
    signal_event-Inv t.clock t.time t.stop t.dev_list k d (tell d) e (tell-Kept d at) inv
next_slot_at-Inv in_next_slot d k t at e inv =
    Kept-Inv t.clock t.time t.stop t.dev_list k d (await d) e (await-Kept d at) (await_same d) inv
next_slot_at-Inv asleep d k t at e inv =
    Kept-Inv t.clock t.time t.stop t.dev_list k d (record d { place = in_next_slot }) e
      (stir-Kept d at) (refl, refl) inv
next_slot_at-Inv detached d k t at e inv = inv

pub next_slot-Inv : (t : Timer) (k : ℕ) → Inv t → Inv (next_slot t k)
unfolding next_slot
next_slot-Inv t k inv = elim (Option-cases (get_elem? t.dev_list k)) [
  | inl e ↦ rw (next_slot, e) inv
  | inr (d, e) ↦ rw (next_slot, e) (next_slot_at-Inv d.place d k t refl e inv)
]

pub detach_event-Inv :
    (t : Timer) (k : ℕ) (d : Device)
    → get_elem? t.dev_list k ≡ some d
    → Inv t
    → Inv (detach_event t k)
unfolding detach_event
detach_event-Inv t k d e inv =
    rw (detach_event, e)
      (signal_event-Inv t.clock t.time t.stop t.dev_list k d (detach d) e (detach-Kept d) inv)

pub set_stop-Inv :
    (clock : Clock) (time : ℕ) (stop : Bool) (ds : List Device)
    → InvAt clock time stop ds
    → InvAt clock time true ds
set_stop-Inv off time stop ds inv = inv
set_stop-Inv at_top time stop ds inv = inv
set_stop-Inv (looking i fsh) time stop ds inv = inv
set_stop-Inv (sleeping i fsh) time stop ds inv = inv
set_stop-Inv (waking i) time stop ds inv = inv
set_stop-Inv ended time stop ds (s, _) = (s, inl refl)
