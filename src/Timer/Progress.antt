-- ===== src/Timer/Progress.antt =====
-- The clock goes on to the next slot when the devices are done.
use os_lamina_atrium.Base.{
  ℕ, zero, suc, ◌+◌, ◌*◌, ◌<◌, ◌≡◌, refl, sym, ap, ap₂, ◌∙◌, false, List, [], ◌∷◌, ◌++◌, map, none,
  some, inl, inr, ◌==◌, get_elem?, set, length, length-append, append_assoc, arith, All, Bool-cases,
}
use os_lamina_atrium.Words.{u64}
use os_lamina_atrium.Timer.{
  Place, at_work, in_next_slot, asleep, detached, Device, at_top, looking, waking, Timer, look,
  one_more, advance, release, rouse, tick_at, tick,
}
use os_lamina_atrium.Timer.LockStep.Devices.{Finished}

-- So many sections of the clock's thread
abbrev pub run_clock : ℕ → Timer → Timer
run_clock zero t = t
run_clock (suc n) t = run_clock n (tick t)

-- How many devices have gone
abbrev pub gone : List Device → ℕ
gone [] = 0
gone (d ∷ ds) = one_more d.fsh (gone ds)

abbrev looking_at : Timer → List Device → ℕ → ℕ → Timer
looking_at t ds i fsh = record t { dev_list = ds; clock = looking i fsh }

abbrev waking_at : Timer → List Device → ℕ → Timer
waking_at t ds i = record t { dev_list = ds; clock = waking i }

-- Where a thread goes on, once it does not sleep
abbrev pub awake : Place → Place
awake at_work = at_work
awake in_next_slot = in_next_slot
awake asleep = in_next_slot
awake detached = detached

-- The device may go on: its flag is reset, and its thread does not sleep.
abbrev pub let_go : Device → Device
let_go d = record d { done = false; place = awake d.place }

rouse-awake : (place : Place) → rouse place ≡ awake place
rouse-awake at_work = refl
rouse-awake in_next_slot = refl
rouse-awake asleep = refl
rouse-awake detached = refl

release-let_go : (ds : List Device) → map release ds ≡ map let_go ds
unfolding release
release-let_go [] = refl
release-let_go (d ∷ ds) =
    ap₂ (λ (p : Place) (l : List Device). record d { done = false; place = p } ∷ l)
      (rouse-awake d.place) (release-let_go ds)

get_elem?-append :
    (pre : List Device) (d : Device) (ds : List Device)
    → get_elem? (pre ++ d ∷ ds) (length pre) ≡ some d
get_elem?-append [] d ds = refl
get_elem?-append (x ∷ pre) d ds = get_elem?-append pre d ds

set-append :
    (pre : List Device) (d d' : Device) (ds : List Device)
    → set (pre ++ d ∷ ds) (length pre) d' ≡ pre ++ d' ∷ ds
set-append [] d d' ds = refl
set-append (x ∷ pre) d d' ds = ap (◌∷◌ x) (set-append pre d d' ds)

get_elem?-end : (ds : List Device) → get_elem? ds (length ds) ≡ none
get_elem?-end [] = refl
get_elem?-end (d ∷ ds) = get_elem?-end ds

length-snoc : (pre : List Device) (d : Device) → length (pre ++ d ∷ []) ≡ suc (length pre)
length-snoc pre d = omega (arith, length-append pre (d ∷ []))

look-tick :
    (t : Timer) (pre : List Device) (d : Device) (ds : List Device) (fsh : ℕ)
    → Finished d
    → tick (looking_at t (pre ++ d ∷ ds) (length pre) fsh)
      ≡ looking_at t (pre ++ d ∷ ds) (suc (length pre)) (one_more d.fsh fsh)
unfolding tick tick_at look
look-tick t pre d ds fsh f = rw (tick, tick_at, get_elem?-append pre d ds, look, f) refl

release-tick :
    (t : Timer) (pre : List Device) (d : Device) (ds : List Device)
    → tick (waking_at t (pre ++ d ∷ ds) (length pre))
      ≡ waking_at t (pre ++ release d ∷ ds) (suc (length pre))
unfolding tick tick_at
release-tick t pre d ds =
    rw (tick, tick_at, get_elem?-append pre d ds, set-append pre d (release d) ds) refl

-- The count of the first loop after these devices
counted : List Device → ℕ → ℕ
counted [] fsh = fsh
counted (d ∷ ds) fsh = counted ds (one_more d.fsh fsh)

counted-gone : (ds : List Device) (fsh : ℕ) → counted ds fsh ≡ fsh + gone ds
unfolding counted
counted-gone [] fsh = omega arith
counted-gone (d ∷ ds) fsh = elim (Bool-cases d.fsh) [
  | inl e ↦ rw (e) (omega (arith, counted-gone ds (suc fsh)))
  | inr e ↦ rw (e) (omega (arith, counted-gone ds fsh))
]

looks :
    (t : Timer) (pre ds : List Device) (fsh : ℕ)
    → All Finished ds
    → run_clock (length ds) (looking_at t (pre ++ ds) (length pre) fsh)
      ≡ looking_at t (pre ++ ds) (length pre + length ds) (counted ds fsh)
unfolding counted
looks t pre [] fsh h = ap (λ (i : ℕ). looking_at t (pre ++ []) i fsh) (omega arith)
looks t pre (d ∷ ds) fsh (f, h) =
    let more = one_more d.fsh fsh in
    ap (run_clock (length ds)) (look-tick t pre d ds fsh f)
    ∙ ap₂ (λ (l : List Device) (i : ℕ). run_clock (length ds) (looking_at t l i more))
        (sym (append_assoc pre (d ∷ []) ds)) (sym (length-snoc pre d))
    ∙ looks t (pre ++ d ∷ []) ds more h
    ∙ ap₂ (λ (l : List Device) (i : ℕ). looking_at t l i (counted ds more))
        (append_assoc pre (d ∷ []) ds) (omega (arith, length-snoc pre d))

wakes :
    (t : Timer) (pre ds : List Device)
    → run_clock (length ds) (waking_at t (pre ++ ds) (length pre))
      ≡ waking_at t (pre ++ map release ds) (length pre + length ds)
wakes t pre [] = ap (λ (i : ℕ). waking_at t (pre ++ []) i) (omega arith)
wakes t pre (d ∷ ds) =
    ap (run_clock (length ds)) (release-tick t pre d ds)
    ∙ ap₂ (λ (l : List Device) (i : ℕ). run_clock (length ds) (waking_at t l i))
        (sym (append_assoc pre (release d ∷ []) ds)) (sym (length-snoc pre (release d)))
    ∙ wakes t (pre ++ release d ∷ []) ds
    ∙ ap₂ (λ (l : List Device) (i : ℕ). waking_at t l i)
        (append_assoc pre (release d ∷ []) (map release ds))
        (omega (arith, length-snoc pre (release d)))

run_clock-add : (m n : ℕ) (t : Timer) → run_clock (m + n) t ≡ run_clock n (run_clock m t)
run_clock-add zero n t = let same : 0 + n ≡ n = omega arith in ap (λ (k : ℕ). run_clock k t) same
run_clock-add (suc m) n t =
    let same : suc m + n ≡ suc (m + n) = omega arith in
    ap (λ (k : ℕ). run_clock k t) same ∙ run_clock-add m n (tick t)

-- The five parts of a slot: to the first loop, through it, past it, through the last, and past that.
parts :
    (n : ℕ) (t : Timer) → run_clock (2 * n + 3) t ≡ tick (run_clock n (tick (run_clock n (tick t))))
parts n t =
    let same : 2 * n + 3 ≡ 1 + (n + (1 + (n + 1))) = omega arith in
    ap (λ (k : ℕ). run_clock k t) same
    ∙ run_clock-add 1 (n + (1 + (n + 1))) t
    ∙ run_clock-add n (1 + (n + 1)) (tick t)
    ∙ run_clock-add 1 (n + 1) (run_clock n (tick t))
    ∙ run_clock-add n 1 (tick (run_clock n (tick t)))

past_map : (ds : List Device) → get_elem? (map release ds) (length ds) ≡ none
past_map [] = refl
past_map (d ∷ ds) = past_map ds

finishes :
    (t : Timer) (ds : List Device) (n : ℕ)
    → get_elem? ds n ≡ none
    → tick (waking_at t ds n) ≡ record t { dev_list = ds; clock = at_top }
unfolding tick tick_at
finishes t ds n end = rw (tick, tick_at, end) refl

module _ (t : Timer) where
  begins : t.clock ≡ at_top → t.stop ≡ false → tick t ≡ looking_at t t.dev_list 0 0
  unfolding tick tick_at
  begins at runs = rw (tick, at, tick_at, runs) refl

  passes :
      (ds : List Device) (c n : ℕ)
      → n ≡ length ds
      → c < n
      → tick (looking_at t ds n c) ≡ waking_at (record t { time = u64 (t.time + 1) }) ds 0
  unfolding tick tick_at advance
  passes ds c n at few =
      let end : get_elem? ds n ≡ none = ap (get_elem? ds) at ∙ get_elem?-end ds in
      let left : (c == n) ≡ false = ground (arith, few) in
      rw (tick, tick_at, end, advance, left) refl

  -- At the top of its loop, if every device is done with the slot or has gone, not all have gone, and
  -- nothing has asked the clock to stop, the clock comes to the top again in 2 n + 3 of its
  -- sections, where n is the number of devices, if no other thread runs a section in between: the
  -- time is one more, each device's flag is reset, and each thread that slept is back at its test.
  pub next_time :
      t.clock ≡ at_top
      → t.stop ≡ false
      → All Finished t.dev_list
      → gone t.dev_list < length t.dev_list
      → run_clock (2 * length t.dev_list + 3) t
        ≡ record t { dev_list = map let_go t.dev_list; time = u64 (t.time + 1); clock = at_top }
  next_time at runs done few =
      let ds = t.dev_list in
      let n = length ds in
      let t' : Timer = record t { time = u64 (t.time + 1) } in
      parts n t
      ∙ ap (λ (x : Timer). tick (run_clock n (tick (run_clock n x)))) (begins at runs)
      ∙ ap (λ (x : Timer). tick (run_clock n (tick x))) (looks t [] ds 0 done)
      ∙ ap (λ (x : Timer). tick (run_clock n x))
          (passes ds (counted ds 0) (0 + n) (omega arith) (omega (arith, counted-gone ds 0, few)))
      ∙ ap tick (wakes t' [] ds)
      ∙ ap (λ (i : ℕ). tick (waking_at t' (map release ds) i)) (omega arith)
      ∙ finishes t' (map release ds) n (past_map ds)
      ∙ ap (λ (l : List Device). record t' { dev_list = l; clock = at_top }) (release-let_go ds)
