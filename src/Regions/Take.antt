-- ===== src/Regions/Take.antt =====
-- Taking bytes out of the list of free regions.
use mathlib.Core.Option
use os_lamina_atrium.Base.{
  ℕ, ◌+◌, ◌^◌, ◌≤◌, ◌<◌, ◌≡◌, refl, inl, inr, List, [], ◌∷◌, Option, none, some, ltb, leb, arith,
  All, Bool-cases,
}
use os_lamina_atrium.Words.{u64}
use os_lamina_atrium.Mm.{Region}
use os_lamina_atrium.Regions.{left_space, take_free}
use os_lamina_atrium.Regions.Laws.{inside, covered}

-- A region that is no longer than `size` less one byte.
abbrev pub IsShort : ℕ → Region → Type 0
IsShort size rg = rg.rg_end < rg.rg_start + size

-- What a search for `size` bytes gives: the region taken and the list left, or none.
abbrev pub Taken : List Region → ℕ → Option (Region × List Region) → Type 0
Taken l size none = All (IsShort size) l
Taken l size (some (taken, left)) =
    (taken.rg_end ≡ taken.rg_start + size)
    × ((a : ℕ) → covered l a ≡ inside taken a + covered left a)

left_covered :
    (rg : Region) (rest : List Region) (size a : ℕ)
    → rg.rg_start + size ≤ rg.rg_end
    → u64 (rg.rg_start + size) ≡ rg.rg_start + size
    → covered (rg ∷ rest) a
      ≡ inside (record { rg_start = rg.rg_start; rg_end = u64 (rg.rg_start + size) }) a
        + covered (left_space rg rest size) a
left_covered rg rest size a h w = elim (Bool-cases (ltb (rg.rg_start + size) rg.rg_end)) [
  | inl e ↦ rw (w, e) (ground arith)
  | inr e ↦ rw (w, e) (used_up rest (ground arith))
]
  where
    used_up :
        (rest : List Region)
        → rg.rg_start + size ≡ rg.rg_end
        → covered (rg ∷ rest) a
          ≡ inside (record { rg_start = rg.rg_start; rg_end = rg.rg_start + size }) a
            + covered
                (elim rest [
                  | [] ↦ record rg { rg_start = rg.rg_end } ∷ []
                  | nextrg ∷ others ↦ nextrg ∷ others
                ])
                a
    used_up [] same = ground arith
    used_up (next ∷ others) same = rw same refl

taken_later :
    (rg : Region) (rest : List Region) (size : ℕ) (found : Option (Region × List Region))
    → IsShort size rg
    → Taken rest size found
    → Taken (rg ∷ rest) size (Option.map (λ (taken, left). (taken, rg ∷ left)) found)
taken_later rg rest size none short h = (short, h)
taken_later rg rest size (some (taken, left)) short (e, h) = (e, λ a. omega (arith, h a))

-- A search for `size` bytes, where no address wraps around: it fails only when every free region is
-- too short; else it takes a region of exactly `size` bytes, and what was free is that region
-- and what is still free, each address as many times.
pub take_free_lem :
    (l : List Region) (size : ℕ)
    → All (λ rg. rg.rg_start + size < 2 ^ 64) l
    → Taken l size (take_free l size)
unfolding take_free
take_free_lem [] size h = tt
take_free_lem (rg ∷ rest) size (small, h) =
    let w : u64 (rg.rg_start + size) ≡ rg.rg_start + size = omega arith in
    elim (Bool-cases (leb (u64 (rg.rg_start + size)) rg.rg_end)) [
      | inl e ↦ rw (take_free, e) (w, λ a. left_covered rg rest size a (ground arith) w)
      | inr e ↦
          rw (take_free, e)
            (taken_later rg rest size (take_free rest size) (ground arith)
              (take_free_lem rest size h))
    ]
