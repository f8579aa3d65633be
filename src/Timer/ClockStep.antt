-- ===== src/Timer/ClockStep.antt =====
-- The sections of the clock's thread keep the invariant of src/timer.c.
use os_lamina_atrium.Base.{
  ℕ, suc, ◌≡◌, refl, inl, inr, Bool, true, false, ◌||◌, List, none, some, ◌==◌, if◌then◌else◌,
  get_elem?, arith, Bool-cases, Option-cases,
}
use os_lamina_atrium.Timer.{
  Device, Clock, off, at_top, looking, sleeping, waking, ended, Timer, one_more, look, advance,
  tick_at,
}
use os_lamina_atrium.Timer.LockStep.Parts.{
  Split, Split-next, Split-set_next, Split-end, Split-restart, Split-at,
}
use os_lamina_atrium.Timer.LockStep.Devices.{OnTime, Finished, release-OnTime, Behind-advance}
use os_lamina_atrium.Timer.LockStep.{Looked, InvAt, Inv}

-- The clock goes on past a device that is done.
Looked-next :
    (time i fsh : ℕ) (ds : List Device) (d : Device)
    → get_elem? ds i ≡ some d
    → Finished d
    → Looked time i fsh ds
    → Looked time (suc i) (one_more d.fsh fsh) ds
Looked-next time i fsh ds d e f s =
    let here = Split-at _ _ ds i e s.looked in
    elim (Bool-cases d.fsh) [
      | inl gone ↦ record {
        looked = Split-next _ _ ds i e (here, f) s.looked;
        counted = rw (gone) (omega (arith, s.counted));
        all_gone = rw (gone) (λ all. Split-next _ _ ds i e gone (s.all_gone (omega (arith, all))));
      }
      | inr stays ↦ record {
        looked = Split-next _ _ ds i e (here, f) s.looked;
        counted = rw (stays) (omega (arith, s.counted));
        all_gone = rw (stays) (λ all. absurd (omega (arith, all, s.counted)));
      }
    ]

look-Inv :
    (time i fsh : ℕ) (stop : Bool) (ds : List Device) (d : Device)
    → get_elem? ds i ≡ some d
    → Looked time i fsh ds
    → InvAt (look d i fsh) time stop ds
unfolding look
look-Inv time i fsh stop ds d e s = elim (Bool-cases (d.done || d.fsh)) [
  | inl f ↦ rw (f) (Looked-next time i fsh ds d e f s)
  | inr neither ↦
      let (not_done, not_fsh) = open_both d.done d.fsh neither in
      rw (neither) (s, (d, e, not_done, not_fsh))
]
  where
    open_both : (b c : Bool) → (b || c) ≡ false → (b ≡ false) × (c ≡ false)
    open_both true c h = cc (h)
    open_both false c h = (refl, h)

advance-Inv :
    (t : Timer) (i fsh : ℕ)
    → get_elem? t.dev_list i ≡ none
    → Looked t.time i fsh t.dev_list
    → Inv (advance t fsh i)
unfolding advance
advance-Inv t i fsh e s = elim (Bool-cases (fsh == i)) [
  | inl all ↦ rw (all) (
    Split-end _ _ _ _ (λ d (on, f). on) t.dev_list i e s.looked,
    inr (Split-end _ _ _ _ (λ d gone. gone) t.dev_list i e (s.all_gone (ground arith))),
  )
  | inr some_left ↦
      rw (some_left)
        (Split-end _ _ _ _ (λ d (on, f). Behind-advance d t.time on f) t.dev_list i e s.looked)
]

at_top-Inv :
    (stop : Bool) (time : ℕ) (ds : List Device)
    → Split (OnTime time) (OnTime time) 0 ds
    → InvAt (if stop then ended else looking 0 0) time stop ds
at_top-Inv true time ds s = (s, inl refl)
at_top-Inv false time ds s = record {
  looked = Split-restart _ _ _ ds s;
  counted = omega arith;
  all_gone = λ _. Split-restart _ _ _ ds s;
}

pub tick_at-Inv :
    (clock : Clock) (t : Timer)
    → InvAt clock t.time t.stop t.dev_list
    → t.clock ≡ clock
    → Inv (tick_at clock t)
unfolding tick_at
tick_at-Inv off t s at = rw (at) s
tick_at-Inv at_top t s at = at_top-Inv t.stop t.time t.dev_list s
tick_at-Inv (looking i fsh) t s at = elim (Option-cases (get_elem? t.dev_list i)) [
  | inl e ↦ rw (tick_at, e) (advance-Inv t i fsh e s)
  | inr (d, e) ↦ rw (tick_at, e) (look-Inv t.time i fsh t.stop t.dev_list d e s)
]
tick_at-Inv (sleeping i fsh) t (s, a) at = s
tick_at-Inv (waking i) t s at = elim (Option-cases (get_elem? t.dev_list i)) [
  | inl e ↦ rw (tick_at, e) (Split-end _ _ _ _ (λ d on. on) t.dev_list i e s)
  | inr (d, e) ↦
      rw (tick_at, e)
        (Split-set_next _ _ t.dev_list i (release-OnTime d t.time (Split-at _ _ t.dev_list i e s))
          s)
]
tick_at-Inv ended t s at = rw (at) s
