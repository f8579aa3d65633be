-- ===== src/Os/Boot/Start.antt =====
-- What `main` of src/os.c has set up when it starts the threads.
use os_lamina_atrium.Base.{
  ℕ, zero, suc, ◌+◌, ◌*◌, ◌/◌, ◌≤◌, ◌<◌, ◌^◌, ◌≡◌, refl, sym, ap, ◌∙◌, subst, false, List, ◌∷◌,
  some, ltb, if◌then◌else◌, count, replicate, arith,
}
use os_lamina_atrium.Words.{int_to_addr}
use os_lamina_atrium.Memphy.{Memphy, frame_size}
use os_lamina_atrium.Memphy.Frames.{here, made, frames_owned_once}
use os_lamina_atrium.Timer.{Timer, off, at_top, initial, new_device, attach_event, start_timer}
use os_lamina_atrium.Timer.Steps.{Reach, start, later, attaches, starts}
use os_lamina_atrium.Os.Boot.{Config, rounds, attach_events, main}

-- The timer before it is started, with so many devices
record IsAttached (n : ℕ) (t : Timer) : Type 0 where
  reached : Reach t
  not_started : t.started ≡ false
  is_off : t.clock ≡ off
  no_time : t.time ≡ 0
  devices : t.dev_list ≡ replicate n new_device

attach_events-IsAttached :
    (n k : ℕ) (t : Timer) → IsAttached k t → IsAttached (n + k) (attach_events n t)
unfolding attach_events attach_event
attach_events-IsAttached zero k t h = subst (λ (x : ℕ). IsAttached x t) (omega arith) h
attach_events-IsAttached (suc n) k t h =
    let t' : Timer = record t { dev_list = new_device ∷ t.dev_list } in
    let attached : attach_event t ≡ some t' = rw (attach_event, h.not_started) refl in
    let next : IsAttached (suc k) t' = record {
      reached = later h.reached (attaches t' attached);
      not_started = h.not_started;
      is_off = h.is_off;
      no_time = h.no_time;
      devices = ap (λ ds. new_device ∷ ds) h.devices;
    } in
    let all = attach_events-IsAttached n (suc k) t' next in
    let first : attach_events (suc n) t ≡ attach_events n t' = rw (attach_events, attached) refl in
    subst (λ (x : Timer). IsAttached (suc n + k) x) (sym first)
      (subst (λ (x : ℕ). IsAttached x (attach_events n t')) (omega arith) all)

-- When `main` starts the threads, the timer has been started with a device for each CPU and one for
-- the loader, none of which is done, in a state that steps lead to. If the RAM of the
-- configuration has two frames at least and less than 2 ^ 31 bytes, each of its frames is free, once.
pub main_lem :
    (junk : List ℕ) (mp : Memphy) (config : Config) (a : ℕ)
    → 2 * frame_size ≤ config.memramsz
    → config.memramsz < 2 ^ 31
    → let boot = main junk mp config in
      Reach boot.timer
      × (boot.timer.clock ≡ at_top)
      × (boot.timer.time ≡ 0)
      × (boot.timer.dev_list ≡ replicate (rounds config.num_cpus + 1) new_device)
      × (count a boot.system.world.machine.mram.free_fp_list
          ≡ (if ltb a (config.memramsz / frame_size) then 1 else 0))
unfolding main start_timer
main_lem junk mp config a h small =
    let size : int_to_addr config.memramsz ≡ config.memramsz = ground arith in
    let n = rounds config.num_cpus in
    let none_yet : IsAttached 0 initial = record {
      reached = start;
      not_started = refl;
      is_off = refl;
      no_time = refl;
      devices = refl;
    } in
    let cpus = attach_events-IsAttached n 0 initial none_yet in
    let all = attach_events-IsAttached 1 (n + 0) (attach_events n initial) cpus in
    (
      later all.reached (starts all.is_off),
      refl,
      all.no_time,
      all.devices ∙ ap (λ (x : ℕ). replicate x new_device) (omega arith),
      rw size (
          omega (
            arith,
            frames_owned_once junk mp config.memramsz 1 (made junk mp config.memramsz 1) h small
                here a,
          )),
    )
