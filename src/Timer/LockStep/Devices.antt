-- ===== src/Timer/LockStep/Devices.antt =====
-- The conditions of one device, and how its critical sections keep them.
use os_lamina_atrium.Base.{
  ℕ, ◌+◌, ◌≡◌, refl, ap, subst, Bool, true, false, ◌||◌, if◌then◌else◌, arith, Bool-cases, inl, inr,
}
use os_lamina_atrium.Words.{u64}
use os_lamina_atrium.Timer.{
  Place, at_work, in_next_slot, asleep, detached, Device, tell, await, detach, release, rouse,
}

-- The device has been let into the slot `time`, and into no later one.
abbrev OnTimeAt : ℕ → Place → Bool → Bool → ℕ → Type 0
OnTimeAt time at_work done fsh slots = (done ≡ false) × (fsh ≡ false) × (slots ≡ time)
OnTimeAt time in_next_slot done fsh slots =
    (fsh ≡ false) × ((if done then slots else u64 (slots + 1)) ≡ time)
OnTimeAt time asleep done fsh slots = (done ≡ true) × (fsh ≡ false) × (slots ≡ time)
OnTimeAt time detached done fsh slots = fsh ≡ true

abbrev pub OnTime : ℕ → Device → Type 0
OnTime time d = OnTimeAt time d.place d.done d.fsh d.slots

-- The device has ended the slot before `time`, and has not been let into `time`.
abbrev BehindAt : ℕ → Place → Bool → Bool → ℕ → Type 0
BehindAt time at_work done fsh slots = ⊥
BehindAt time in_next_slot done fsh slots = (done ≡ true) × (fsh ≡ false) × (u64 (slots + 1) ≡ time)
BehindAt time asleep done fsh slots = (done ≡ true) × (fsh ≡ false) × (u64 (slots + 1) ≡ time)
BehindAt time detached done fsh slots = fsh ≡ true

abbrev pub Behind : ℕ → Device → Type 0
Behind time d = BehindAt time d.place d.done d.fsh d.slots

-- The clock does not wait for the device.
abbrev pub Finished : Device → Type 0
Finished d = (d.done || d.fsh) ≡ true

abbrev pub Gone : Device → Type 0
Gone d = d.fsh ≡ true

-- A change of a device that keeps the conditions
pub record Kept (d d' : Device) : Type 0 where
  pub on_time : (time : ℕ) → OnTime time d → OnTime time d'
  pub behind : (time : ℕ) → Behind time d → Behind time d'
  pub finished : Finished d → Finished d'
  pub gone : Gone d → Gone d'

released :
    (place : Place) (done fsh : Bool) (slots time : ℕ)
    → BehindAt time place done fsh slots
    → OnTimeAt time (rouse place) false fsh slots
released at_work done fsh slots time h = absurd h
released in_next_slot done fsh slots time (_, stays, on) = (stays, on)
released asleep done fsh slots time (_, stays, on) = (stays, on)
released detached done fsh slots time h = h

left_behind :
    (place : Place) (done fsh : Bool) (slots time : ℕ)
    → OnTimeAt time place done fsh slots
    → (done || fsh) ≡ true
    → BehindAt (u64 (time + 1)) place done fsh slots
left_behind at_work done fsh slots time (working, stays, on) f = cc (working, stays, f)
left_behind in_next_slot true fsh slots time (stays, on) f =
    (refl, stays, ap (λ (n : ℕ). u64 (n + 1)) on)
left_behind in_next_slot false fsh slots time (stays, on) f = cc (stays, f)
left_behind asleep done fsh slots time (told, stays, on) f =
    (told, stays, ap (λ (n : ℕ). u64 (n + 1)) on)
left_behind detached done fsh slots time h f = h

awaits :
    (done fsh : Bool) (slots : ℕ)
    → let d : Device = record { done = done; fsh = fsh; place = in_next_slot; slots = slots } in
      Kept d (await d)
unfolding await
awaits true fsh slots = record {
  on_time = λ time (stays, on). (refl, stays, on);
  behind = λ time h. h;
  finished = λ h. h;
  gone = λ h. h;
}
awaits false fsh slots = record {
  on_time = λ time (stays, on). (refl, stays, on);
  behind = λ time (told, _, _). cc (told);
  finished = λ h. h;
  gone = λ h. h;
}

module _ (d : Device) where
  -- What a condition says of a device at a given place
  at_place : {p : Place} (C : Place → Type 0) → d.place ≡ p → C d.place → C p
  at_place C e h = subst C e h

  module _ (time : ℕ) where
    pub OnTime-at_work : d.place ≡ at_work → OnTime time d → d.slots ≡ time
    OnTime-at_work e h =
        let (_, _, on) = at_place (λ p. OnTimeAt time p d.done d.fsh d.slots) e h in on

    pub Behind-at_work : d.place ≡ at_work → Behind time d → d.slots ≡ time
    Behind-at_work e h = absurd (at_place (λ p. BehindAt time p d.done d.fsh d.slots) e h)

    pub OnTime-asleep : d.place ≡ asleep → OnTime time d → d.done ≡ true
    OnTime-asleep e h =
        let (done, _, _) = at_place (λ p. OnTimeAt time p d.done d.fsh d.slots) e h in done

    pub Behind-asleep : d.place ≡ asleep → Behind time d → d.done ≡ true
    Behind-asleep e h =
        let (done, _, _) = at_place (λ p. BehindAt time p d.done d.fsh d.slots) e h in done

  pub tell-Kept : d.place ≡ at_work → Kept d (tell d)
  tell-Kept e = record {
    on_time = λ time h.
        let (_, stays, on) = at_place (λ p. OnTimeAt time p d.done d.fsh d.slots) e h in
        (stays, on);
    behind = λ time h. absurd (at_place (λ p. BehindAt time p d.done d.fsh d.slots) e h);
    finished = λ _. refl;
    gone = λ h. h;
  }

  pub detach-Kept : Kept d (detach d)
  detach-Kept = record {
    on_time = λ time h. refl;
    behind = λ time h. refl;
    finished = λ _. ground arith;
    gone = λ _. refl;
  }

  pub stir-Kept : d.place ≡ asleep → Kept d (record d { place = in_next_slot })
  stir-Kept e = record {
    on_time = λ time h.
        let (done, stays, on) = at_place (λ p. OnTimeAt time p d.done d.fsh d.slots) e h in
        (stays, rw (done) on);
    behind = λ time h. at_place (λ p. BehindAt time p d.done d.fsh d.slots) e h;
    finished = λ h. h;
    gone = λ h. h;
  }

  pub await-Kept : d.place ≡ in_next_slot → Kept d (await d)
  await-Kept e = rw (e) (awaits d.done d.fsh d.slots)

  pub release-OnTime : (time : ℕ) → Behind time d → OnTime time (release d)
  unfolding release
  release-OnTime time h = released d.place d.done d.fsh d.slots time h

  pub Behind-advance : (time : ℕ) → OnTime time d → Finished d → Behind (u64 (time + 1)) d
  Behind-advance time h f = left_behind d.place d.done d.fsh d.slots time h f

  pub await_same : ((await d).done ≡ d.done) × ((await d).fsh ≡ d.fsh)
  unfolding await
  await_same = elim (Bool-cases d.done) [
    | inl e ↦ rw (await, e) (refl, refl)
    | inr e ↦ rw (await, e) (refl, refl)
  ]
