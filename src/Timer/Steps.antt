-- ===== src/Timer/Steps.antt =====
-- The threads of src/timer.c and src/os.c together, in any order.
use os_lamina_atrium.Base.{ℕ, ◌≡◌, some, get_elem?}
use os_lamina_atrium.Timer.{
  Timer, Device, at_work, off, initial, attach_event, start_timer, tick, next_slot, detach_event,
  set_stop,
}

-- A step: a thread runs one of its critical sections. The timer is started once, a device goes away
-- from its work, and the timer's own sleep may end by itself.
pub data Step (t : Timer) : Timer → Type 0 where
  attaches : (t' : Timer) → attach_event t ≡ some t' → Step t t'
  starts : t.clock ≡ off → Step t (start_timer t)
  ticks : Step t (tick t)
  continues : (k : ℕ) → Step t (next_slot t k)
  leaves :
      (k : ℕ) (d : Device)
      → get_elem? t.dev_list k ≡ some d
      → d.place ≡ at_work
      → Step t (detach_event t k)
  stops : Step t (set_stop t)

-- The states that steps lead to
pub data Reach : Timer → Type 0 where
  start : Reach initial
  later : {t t' : Timer} → Reach t → Step t t' → Reach t'
