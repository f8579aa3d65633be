-- ===== src/Regions/Laws.antt =====
-- Putting a region on the list of free regions: order, distance, and the addresses that are free.
use os_lamina_atrium.Base.{
  ℕ, ◌+◌, ◌≤◌, ◌<◌, ◌≡◌, refl, ap, ◌∙◌, ◌⊎◌, inl, inr, false, ◌&&◌, List, [], ◌∷◌, ◌==◌, ltb, leb,
  if◌then◌else◌, arith, All, Bool-cases, ltb→lt, ==_iff, success,
}
use os_lamina_atrium.Mm.{Region}
use os_lamina_atrium.Regions.{
  coalesce_from, coalesce_freerg_list, insert_sorted_freerg, enlist_vm_freerg_list,
}

-- 1 if the address lies in the region, and 0 if not
abbrev pub inside : Region → ℕ → ℕ
inside rg a = if leb rg.rg_start a && ltb a rg.rg_end then 1 else 0

-- How many regions of the list the address lies in.
abbrev pub covered : List Region → ℕ → ℕ
covered [] a = 0
covered (rg ∷ rest) a = inside rg a + covered rest a

-- No region is empty, and each begins where the one before ends, or later; the first at `lo`.
abbrev pub IsApart : ℕ → List Region → Type 0
IsApart lo [] = Unit
IsApart lo (rg ∷ rest) = (lo ≤ rg.rg_start) × (rg.rg_start < rg.rg_end) × IsApart rg.rg_end rest

-- The same, with a gap before each region but the first.
abbrev pub IsSpaced : ℕ → List Region → Type 0
IsSpaced lo [] = Unit
IsSpaced lo (rg ∷ rest) =
    (lo ≤ rg.rg_start) × (rg.rg_start < rg.rg_end) × IsSpaced (rg.rg_end + 1) rest

-- The region overlaps with none of the list.
abbrev pub IsDisjoint : Region → List Region → Type 0
IsDisjoint rg = All (λ q. (rg.rg_end ≤ q.rg_start) ⊎ (q.rg_end ≤ rg.rg_start))

insert-covered :
    (l : List Region) (rg : Region) (a : ℕ)
    → covered (insert_sorted_freerg l rg) a ≡ inside rg a + covered l a
unfolding insert_sorted_freerg
insert-covered [] rg a = refl
insert-covered (q ∷ rest) rg a = elim (Bool-cases (ltb q.rg_start rg.rg_start)) [
  | inl e ↦ rw (insert_sorted_freerg, e) (omega (arith, insert-covered rest rg a))
  | inr e ↦ rw (insert_sorted_freerg, e) refl
]

insert-IsApart :
    (l : List Region) (rg : Region) (lo : ℕ)
    → IsApart lo l
    → lo ≤ rg.rg_start
    → rg.rg_start < rg.rg_end
    → IsDisjoint rg l
    → IsApart lo (insert_sorted_freerg l rg)
unfolding insert_sorted_freerg
insert-IsApart [] rg lo h l n d = (l, n, tt)
insert-IsApart (q ∷ rest) rg lo (low, full, h) l n (d, ds) =
    elim (Bool-cases (ltb q.rg_start rg.rg_start)) [
      | inl e ↦
          let below : q.rg_start < rg.rg_start = ltb→lt q.rg_start rg.rg_start e in
          let after : q.rg_end ≤ rg.rg_start = grind arith in
          rw (insert_sorted_freerg, e) (low, full, insert-IsApart rest rg q.rg_end h after n ds)
      | inr e ↦
          let before : rg.rg_end ≤ q.rg_start = ground arith in
          let put : IsApart lo (rg ∷ q ∷ rest) = (l, n, (before, full, h)) in
          rw (insert_sorted_freerg, e) put
    ]

joined :
    (s e e' a : ℕ)
    → s < e
    → e < e'
    → inside (record { rg_start = s; rg_end = e' }) a
      ≡ inside (record { rg_start = s; rg_end = e }) a
        + inside (record { rg_start = e; rg_end = e' }) a
joined s e e' a h h' = ground arith

coalesce-covered :
    (curr : Region) (rest : List Region) (a : ℕ)
    → curr.rg_start < curr.rg_end
    → IsApart curr.rg_end rest
    → covered (coalesce_from curr rest) a ≡ inside curr a + covered rest a
unfolding coalesce_from
coalesce-covered curr [] a n h = refl
coalesce-covered curr (next ∷ rest) a n (low, full, h) =
    elim (Bool-cases (curr.rg_end == next.rg_start)) [
      | inl e ↦
          let same : curr.rg_end ≡ next.rg_start = (==_iff curr.rg_end next.rg_start).0 e in
          let more : curr.rg_end < next.rg_end = omega arith in
          let both = joined curr.rg_start curr.rg_end next.rg_end a n more in
          let next_inside : inside (record next { rg_start = curr.rg_end }) a ≡ inside next a =
            ap (λ (s : ℕ). inside (record next { rg_start = s }) a) same in
          rw (coalesce_from, e)
            (omega (
              arith,
              both,
              next_inside,
              coalesce-covered (record curr { rg_end = next.rg_end }) rest a (omega arith) h,
            ))
      | inr e ↦ rw (coalesce_from, e) (omega (arith, coalesce-covered next rest a full h))
    ]

coalesce-IsSpaced :
    (curr : Region) (rest : List Region) (lo : ℕ)
    → lo ≤ curr.rg_start
    → curr.rg_start < curr.rg_end
    → IsApart curr.rg_end rest
    → IsSpaced lo (coalesce_from curr rest)
unfolding coalesce_from
coalesce-IsSpaced curr [] lo l n h = (l, n, tt)
coalesce-IsSpaced curr (next ∷ rest) lo l n (low, full, h) =
    elim (Bool-cases (curr.rg_end == next.rg_start)) [
      | inl e ↦
          let same : curr.rg_end ≡ next.rg_start = (==_iff curr.rg_end next.rg_start).0 e in
          rw (coalesce_from, e)
            (coalesce-IsSpaced (record curr { rg_end = next.rg_end }) rest lo l (omega arith) h)
      | inr e ↦
          let gap : curr.rg_end + 1 ≤ next.rg_start = ground arith in
          rw (coalesce_from, e) (l, n, coalesce-IsSpaced next rest (curr.rg_end + 1) gap full h)
    ]

coalesce_list :
    (l : List Region)
    → IsApart 0 l
    → IsSpaced 0 (coalesce_freerg_list l)
      × ((a : ℕ) → covered (coalesce_freerg_list l) a ≡ covered l a)
unfolding coalesce_freerg_list
coalesce_list [] h = (tt, λ a. refl)
coalesce_list (curr ∷ rest) (low, full, h) =
    (coalesce-IsSpaced curr rest 0 low full h, λ a. coalesce-covered curr rest a full h)

-- A region that is not empty and overlaps with no free one is put on a list of free regions that
-- are not empty, in order and apart: it succeeds, the list has then a gap between any two
-- regions, so that no two of them could be one, and an address lies in a free region exactly if
-- it did before or lies in the new region, in as many as before and the new one.
pub enlist_vm_freerg_list_lem :
    (l : List Region) (rg : Region)
    → IsApart 0 l
    → rg.rg_start < rg.rg_end
    → IsDisjoint rg l
    → ((enlist_vm_freerg_list l rg).0 ≡ success)
      × IsSpaced 0 (enlist_vm_freerg_list l rg).1
      × ((a : ℕ) → covered (enlist_vm_freerg_list l rg).1 a ≡ inside rg a + covered l a)
unfolding enlist_vm_freerg_list
enlist_vm_freerg_list_lem l rg h n d =
    let full : leb rg.rg_end rg.rg_start ≡ false = ground arith in
    let (spaced, same) =
      coalesce_list (insert_sorted_freerg l rg) (insert-IsApart l rg 0 h (omega arith) n d) in
    rw (enlist_vm_freerg_list, full) (refl, spaced, λ a. same a ∙ insert-covered l rg a)
