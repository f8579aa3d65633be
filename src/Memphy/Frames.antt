-- ===== src/Memphy/Frames.antt =====
-- The free frames of a device: what `format` puts in the list, and who owns a frame afterwards.
use os_lamina_atrium.Base.{
  ℕ, zero, suc, ◌+◌, ◌-◌, ◌*◌, ◌/◌, ◌≤◌, ◌<◌, ◌^◌, ◌≡◌, refl, ◌∙◌, List, [], ◌∷◌, some, ltb, leb,
  if◌then◌else◌, ◌&&◌, arith, count,
}
use os_lamina_atrium.Words.{u32, or_zero}
use os_lamina_atrium.Memphy.{
  Memphy, frame_size, frames_from, format, get_freefp, put_freefp, init_memphy,
}

count-frames_from :
    (a n i : ℕ) → count a (frames_from n i) ≡ (if leb i a && ltb a (i + n) then 1 else 0)
count-frames_from a zero i = ground arith
count-frames_from a (suc n) i = ground (arith, count-frames_from a n (i + 1))

-- The device with the frames that have been taken from it and not given back.
pub record Owned : Type 0 where
  pub device : Memphy
  pub taken : List ℕ

-- One call by a client that gives back only what it has taken.
pub data Step : Owned → Owned → Type 0 where
  get :
      {o : Owned} {mp : Memphy} (fpn : ℕ)
      → get_freefp o.device ≡ some (fpn, mp)
      → Step o (record { device = mp; taken = fpn ∷ o.taken })
  put :
      {o : Owned} (fpn : ℕ) {rest : List ℕ}
      → ((a : ℕ) → count a o.taken ≡ count a (fpn ∷ rest))
      → Step o (record { device = put_freefp o.device fpn; taken = rest })

pub data Reach (start : Owned) : Owned → Type 0 where
  here : Reach start start
  next : {o o' : Owned} → Reach start o → Step o o' → Reach start o'

abbrev pub in_all : ℕ → Owned → ℕ
in_all a o = count a o.device.free_fp_list + count a o.taken

Step-in_all : {o o' : Owned} → Step o o' → (a : ℕ) → in_all a o' ≡ in_all a o
unfolding get_freefp put_freefp
Step-in_all {o} (get fpn e) a = ground arith
Step-in_all (put fpn same) a = omega (arith, same a)

Reach-in_all : {s o : Owned} → Reach s o → (a : ℕ) → in_all a o ≡ in_all a s
Reach-in_all here a = refl
Reach-in_all (next r st) a = Step-in_all st a ∙ Reach-in_all r a

-- Nothing has been taken from a device just made by `init_memphy`.
abbrev pub made : List ℕ → Memphy → ℕ → ℕ → Owned
made junk mp size randomflg = record { device = init_memphy junk mp size randomflg; taken = [] }

-- On a device of at least two frames and less than 2 ^ 31 bytes, after any calls that give back
-- only what was taken, each frame number below the number of frames is either free or taken, once,
-- and no other number is: no frame is given out twice, and none is lost.
pub frames_owned_once :
    (junk : List ℕ) (mp : Memphy) (size randomflg : ℕ) (o : Owned)
    → 2 * frame_size ≤ size
    → size < 2 ^ 31
    → Reach (made junk mp size randomflg) o
    → (a : ℕ) → in_all a o ≡ (if ltb a (size / frame_size) then 1 else 0)
unfolding init_memphy format
frames_owned_once junk mp size randomflg o h small r a =
    let int : or_zero (u32 size) ≡ size = ground arith in
    Reach-in_all r a ∙ rw (int) (ground (arith, count-frames_from a (size / frame_size - 1) 1))
