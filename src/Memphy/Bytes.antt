-- ===== src/Memphy/Bytes.antt =====
-- The bytes of a device: what a read gives after a write, on a random access device and on a
-- sequential one, and where the cursor of the latter goes.
use native.Mathlib.Nat.{mod_self, mod-eq_of_lt, mod-add-mod, zero-mod}
use os_lamina_atrium.Base.{
  ℕ, zero, suc, ◌+◌, ◌%◌, ◌≤◌, ◌<◌, ◌≡◌, ◌^◌, ◌≢◌, sym, ap, ◌∙◌, none, some, ltb, if◌then◌else◌,
  inl, inr, Bool-cases, refl, arith, get_or, set, length, success, failure, get_or-set_self,
  get_or-set_ne, get_elem?-eq-get_or, length-set,
}
use os_lamina_atrium.Words.{or_zero}
use os_lamina_atrium.Memphy.{Memphy, mv_csr_loop, mv_csr, seq_read, read, seq_write, write}

-- The byte at an address inside the storage.
abbrev pub byte : Memphy → ℕ → ℕ
byte mp addr = get_or mp.storage addr 0

pub random_read :
    (mp : Memphy) (addr : ℕ)
    → mp.rdmflg ≢ 0
    → addr < length mp.storage
    → read mp addr ≡ some (success, some (byte mp addr), mp)
unfolding read
random_read mp addr random h = ground (arith, get_elem?-eq-get_or mp.storage addr 0)

pub random_write :
    (mp : Memphy) (addr value : ℕ)
    → mp.rdmflg ≢ 0
    → addr < length mp.storage
    → write mp addr value ≡ some (success, record mp { storage = set mp.storage addr value })
unfolding write
random_write mp addr value random h = ground arith

-- On a random access device a write inside the storage succeeds; then a read of the same address
-- gives the byte written, and a read of any other address inside the storage gives what it gave.
pub read-write :
    (mp : Memphy) (addr value : ℕ)
    → mp.rdmflg ≢ 0
    → addr < length mp.storage
    → (mp' : Memphy) × (write mp addr value ≡ some (success, mp'))
      × (read mp' addr ≡ some (success, some value, mp'))
      × ((other : ℕ)
          → other ≢ addr
          → other < length mp.storage
          → (read mp' other ≡ some (success, some (byte mp other), mp'))
            × (read mp other ≡ some (success, some (byte mp other), mp)))
read-write mp addr value random h = (
  mp',
  random_write mp addr value random h,
  random_read mp' addr random (rw (length-set mp.storage addr value) h)
      ∙ ap (λ (v : ℕ). some (success, some v, mp')) (get_or-set_self mp.storage addr value 0 h),
  λ other ne ho. (
    random_read mp' other random (rw (length-set mp.storage addr value) ho)
        ∙ ap (λ (v : ℕ). some (success, some v, mp'))
            (get_or-set_ne mp.storage addr other value 0 (λ e. ne (sym e))),
    random_read mp other random ho,
  ),
)
  where
    mp' : Memphy
    mp' = record mp { storage = set mp.storage addr value }

-- A device that is not random access refuses every read and every write, also of an address inside
-- its storage, and is left as it was.
pub sequential_refuses :
    (mp : Memphy) (addr value : ℕ)
    → mp.rdmflg ≡ 0
    → (read mp addr ≡ some (failure, none, mp)) × (write mp addr value ≡ some (failure, mp))
unfolding read write seq_read seq_write
sequential_refuses mp addr value serial = ground arith

mv_csr_loop_lem :
    (rounds numstep offset maxsz : ℕ)
    → maxsz < rounds + numstep
    → numstep ≤ offset
    → numstep ≤ maxsz
    → 0 < maxsz
    → maxsz < 2 ^ 31
    → mv_csr_loop rounds numstep offset maxsz (numstep % maxsz)
      ≡ some (if ltb offset maxsz then offset else 0)
unfolding mv_csr_loop
mv_csr_loop_lem zero numstep offset maxsz fuel h h' pos small = absurd (omega arith)
mv_csr_loop_lem (suc rounds) numstep offset maxsz fuel h h' pos small =
    let int : or_zero maxsz ≡ maxsz = ground arith in
    elim (Bool-cases (ltb numstep maxsz)) [
      | inl more ↦
          rw (int, mod-add-mod numstep maxsz 1)
            (ground (
              arith,
              mod-eq_of_lt {n = numstep} {m = maxsz} (ground (arith, more)),
              mv_csr_loop_lem rounds (numstep + 1) offset maxsz (omega arith),
            ))
      | inr end ↦
          let last : numstep ≡ maxsz = ground arith in
          rw (int, last) (ground (arith, mod_self maxsz))
    ]

-- On a device of `maxsz` bytes, not 0 and below 2 ^ 31, the loop of `MEMPHY_mv_csr` ends: any
-- number of tests above `maxsz` is enough. It leaves the cursor at the offset, or at 0 for an
-- offset past the end; so `MEMPHY_mv_csr` does, and changes nothing else.
pub mv_csr_lem :
    (mp : Memphy) (offset : ℕ)
    → 0 < mp.maxsz
    → mp.maxsz < 2 ^ 31
    → let goal = if ltb offset mp.maxsz then offset else 0 in
      ((tests : ℕ) → mp.maxsz < tests → mv_csr_loop tests 0 offset mp.maxsz 0 ≡ some goal)
      × (mv_csr mp offset ≡ some (record mp { cursor = goal }))
unfolding mv_csr
mv_csr_lem mp offset h small =
    let start : 0 % mp.maxsz ≡ 0 = zero-mod mp.maxsz in
    let ends : (tests : ℕ)
        → mp.maxsz < tests
        → mv_csr_loop tests 0 offset mp.maxsz 0 ≡ some (if ltb offset mp.maxsz then offset else 0) =
      λ tests more. rw start at (
        mv_csr_loop_lem tests 0 offset mp.maxsz (omega arith) (omega arith) (omega arith) h
          small) in
    let int : or_zero mp.maxsz ≡ mp.maxsz = ground arith in
    (ends, rw (int, ends (mp.maxsz + 1) (omega arith)) refl)
