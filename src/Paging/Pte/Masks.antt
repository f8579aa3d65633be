-- ===== src/Paging/Pte/Masks.antt =====
-- What the masks of SETBIT, CLRBIT and SETVAL do to a field of the entry.
use native.Mathlib.Nat.{mod-mod}
use os_lamina_atrium.Base.{
  ℕ, zero, suc, ◌-◌, ◌*◌, ◌/◌, ◌^◌, ◌<◌, ◌≡◌, refl, ap, ap₂, ◌∙◌, bit_and, bit_or, arith,
}
use os_lamina_atrium.Base.Bits.{
  field, field-bit_and, field-bit_or, bit_and-ones, bit_and-zero, bit_or-zero, zero-bit_or,
}
use os_lamina_atrium.Words.{u64, not32, setval}

-- A field that a mask covers is kept by `&`, one that it misses is cleared.
pub and_covered :
    (l k v mask : ℕ) → field mask l k ≡ 2 ^ k - 1 → field (bit_and v mask) l k ≡ field v l k
and_covered l k v mask e =
    field-bit_and l k v mask
    ∙ ap (bit_and (field v l k)) e
    ∙ bit_and-ones k (field v l k)
    ∙ mod-mod (v / 2 ^ l) (2 ^ k)

pub and_missed : (l k v mask : ℕ) → field mask l k ≡ 0 → field (bit_and v mask) l k ≡ 0
and_missed l k v mask e =
    field-bit_and l k v mask ∙ ap (bit_and (field v l k)) e ∙ bit_and-zero (field v l k)

-- A field that a mask misses is kept by `|`.
pub or_missed : (l k v mask : ℕ) → field mask l k ≡ 0 → field (bit_or v mask) l k ≡ field v l k
or_missed l k v mask e =
    field-bit_or l k v mask ∙ ap (bit_or (field v l k)) e ∙ bit_or-zero (field v l k)

bit_or-one : (x : ℕ) → x < 2 → bit_or x 1 ≡ 1
bit_or-one zero h = refl
bit_or-one (suc zero) h = refl
bit_or-one (suc (suc x)) h = absurd (omega arith)

-- A field of one bit that the mask covers is set by `|`.
pub or_covered : (l v mask : ℕ) → field mask l 1 ≡ 1 → field (bit_or v mask) l 1 ≡ 1
or_covered l v mask e =
    field-bit_or l 1 v mask ∙ ap (bit_or (field v l 1)) e ∙ bit_or-one (field v l 1) (omega arith)

-- `SETVAL` writes the field of its mask, and keeps every field of which the mask has no bit.
pub setval_in :
    (l k v x mask : ℕ)
    → field mask l k ≡ 2 ^ k - 1
    → field (not32 mask) l k ≡ 0
    → field (setval v x mask l) l k ≡ field (u64 (x * 2 ^ l)) l k
setval_in l k v x mask e e' =
    field-bit_or l k (bit_and v (not32 mask)) (bit_and (u64 (x * 2 ^ l)) mask)
    ∙ ap₂ bit_or (and_missed l k v (not32 mask) e') (and_covered l k (u64 (x * 2 ^ l)) mask e)
    ∙ zero-bit_or (field (u64 (x * 2 ^ l)) l k)

pub setval_out :
    (l k v x mask offst : ℕ)
    → field mask l k ≡ 0
    → field (not32 mask) l k ≡ 2 ^ k - 1
    → field (setval v x mask offst) l k ≡ field v l k
setval_out l k v x mask offst e e' =
    field-bit_or l k (bit_and v (not32 mask)) (bit_and (u64 (x * 2 ^ offst)) mask)
    ∙ ap₂ bit_or (and_covered l k v (not32 mask) e') (and_missed l k (u64 (x * 2 ^ offst)) mask e)
    ∙ bit_or-zero (field v l k)

-- Above the 32 bits of the masks `SETVAL` leaves nothing.
pub setval_above :
    (v x mask offst : ℕ) → field mask 32 32 ≡ 0 → field (setval v x mask offst) 32 32 ≡ 0
setval_above v x mask offst e =
    field-bit_or 32 32 (bit_and v (not32 mask)) (bit_and (u64 (x * 2 ^ offst)) mask)
    ∙ ap₂ bit_or (and_missed 32 32 v (not32 mask) (omega arith))
        (and_missed 32 32 (u64 (x * 2 ^ offst)) mask e)
