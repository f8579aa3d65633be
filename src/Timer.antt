-- ===== src/Timer.antt =====
-- src/timer.c: the clock and the devices that wait for it. A step of a thread is one of its critical
-- sections, up to the release of the lock or to the sleep in `pthread_cond_wait`, from which the
-- thread may also wake by itself.
pub mod Steps
pub mod LockStep
pub mod ClockStep
pub mod Safety
pub mod Progress
use os_lamina_atrium.Base.{
  ℕ, suc, ◌+◌, Bool, true, false, ◌||◌, List, [], ◌∷◌, Option, none, some, ◌==◌, if◌then◌else◌,
  get_elem?, set,
}
use os_lamina_atrium.Words.{u64}

-- Where the thread of a device is: in its slot, after the first section of `next_slot`, asleep in the
-- second, or past `detach_event`.
pub data Place : Type 0 where
  at_work in_next_slot asleep detached : Place

-- `struct timer_id_t`, with its thread: `slots` counts the calls of `next_slot` that have returned.
pub record Device : Type 0 where
  pub done : Bool
  pub fsh : Bool
  pub place : Place
  pub slots : ℕ

-- Where `timer_routine` is: not started, at the test of `timer_stop`, at a device `i` of the first
-- loop with its count `fsh`, asleep there, at a device of the last loop, or at its end.
pub data Clock : Type 0 where
  off : Clock
  at_top : Clock
  looking : ℕ → ℕ → Clock
  sleeping : ℕ → ℕ → Clock
  waking : ℕ → Clock
  ended : Clock

-- The static variables, with the list from its head on.
pub record Timer : Type 0 where
  pub dev_list : List Device
  pub time : ℕ
  pub started : Bool
  pub stop : Bool
  pub clock : Clock

abbrev pub initial : Timer
initial = record { dev_list = []; time = 0; started = false; stop = false; clock = off }

abbrev pub new_device : Device
new_device = record { done = false; fsh = false; place = at_work; slots = 0 }

-- `none` is NULL.
unfoldable pub attach_event : Timer → Option Timer
attach_event t = if t.started then none else some (record t { dev_list = new_device ∷ t.dev_list })

unfoldable pub start_timer : Timer → Timer
start_timer t = record t { started = true; clock = at_top }

-- `pthread_cond_signal` of the device's `event_cond`
unfoldable pub signal_event : ℕ → Clock → Clock
signal_event k (sleeping i fsh) = if i == k then looking i fsh else sleeping i fsh
signal_event k clock = clock

-- The first section of `next_slot`
abbrev pub tell : Device → Device
tell d = record d { done = true; place = in_next_slot }

-- The second section of `next_slot`, from the test of its loop on
unfoldable pub await : Device → Device
await d =
    if d.done
    then record d { place = asleep }
    else record d { place = at_work; slots = u64 (d.slots + 1) }

abbrev pub detach : Device → Device
detach d = record d { fsh = true; place = detached }

-- `pthread_cond_signal` of the device's `timer_cond`
abbrev pub rouse : Place → Place
rouse asleep = in_next_slot
rouse place = place

-- The section of the last loop of `timer_routine`
unfoldable pub release : Device → Device
release d = record d { done = false; place = rouse d.place }

abbrev one_more : Bool → ℕ → ℕ
one_more b n = if b then suc n else n

-- The section of the first loop, at its device
unfoldable pub look : Device → ℕ → ℕ → Clock
look d i fsh = if d.done || d.fsh then looking (suc i) (one_more d.fsh fsh) else sleeping i fsh

-- Whether all devices have finished, at the end of the first loop, where `event` is their number.
unfoldable pub advance : Timer → ℕ → ℕ → Timer
advance t fsh event =
    if fsh == event
    then record t { clock = ended }
    else record t { time = u64 (t.time + 1); clock = waking 0 }

-- The next section of `timer_routine`, at the place `clock`
unfoldable pub tick_at : Clock → Timer → Timer
unfolding look advance release
tick_at off t = t
tick_at at_top t = record t { clock = if t.stop then ended else looking 0 0 }
tick_at (looking i fsh) t = elim (get_elem? t.dev_list i) [
  | none ↦ advance t fsh i
  | some d ↦ record t { clock = look d i fsh }
]
tick_at (sleeping i fsh) t = record t { clock = looking i fsh }
tick_at (waking i) t = elim (get_elem? t.dev_list i) [
  | none ↦ record t { clock = at_top }
  | some d ↦ record t { dev_list = set t.dev_list i (release d); clock = waking (suc i) }
]
tick_at ended t = t

unfoldable pub tick : Timer → Timer
unfolding tick_at
tick t = tick_at t.clock t

-- The next section of `next_slot`, at the place of the device's thread; a call starts at its work.
unfoldable pub next_slot_at : Place → Device → ℕ → Timer → Timer
unfolding signal_event await
next_slot_at at_work d k t = record t {
  dev_list = set t.dev_list k (tell d);
  clock = signal_event k t.clock;
}
next_slot_at in_next_slot d k t = record t { dev_list = set t.dev_list k (await d) }
next_slot_at asleep d k t = record t {
  dev_list = set t.dev_list k (record d { place = in_next_slot });
}
next_slot_at detached d k t = t

unfoldable pub next_slot : Timer → ℕ → Timer
unfolding next_slot_at
next_slot t k = elim (get_elem? t.dev_list k) [ none ↦ t | some d ↦ next_slot_at d.place d k t ]

unfoldable pub detach_event : Timer → ℕ → Timer
unfolding signal_event
detach_event t k = elim (get_elem? t.dev_list k) [
  | none ↦ t
  | some d ↦ record t { dev_list = set t.dev_list k (detach d); clock = signal_event k t.clock }
]

abbrev pub set_stop : Timer → Timer
set_stop t = record t { stop = true }

-- The loop at the end of `stop_timer`, which frees the containers one by one.
unfoldable pub free_list : List Device → List Device
free_list [] = []
free_list (d ∷ ds) = free_list ds

-- The rest of `stop_timer`, which waits for the clock's end: `none` while it waits.
unfoldable pub end_timer : Timer → Option Timer
unfolding free_list
end_timer t = elim t.clock [
  | ended ↦ some (record t { dev_list = free_list t.dev_list })
  | _ ↦ none
]
