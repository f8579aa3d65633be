-- ===== src/Libmem/Free.antt =====
-- `__free` of src/libmem.c: the region of a variable and the list of free regions.
use os_lamina_atrium.Base.{
  ℕ, zero, suc, ◌^◌, ◌<◌, ◌≡◌, refl, ◌+◌, ◌&&◌, ◌||◌, true, false, List, [], ◌∷◌, Option, some,
  ◌==◌, ltb, leb, arith, length, set, get_elem?, ℤ, success, failure,
}
use os_lamina_atrium.Mm.{Region, VmArea, Caller}
use os_lamina_atrium.Regions.{enlist_vm_freerg_list, max_symtbl_sz}
use os_lamina_atrium.Regions.Laws.{
  inside, covered, IsApart, IsSpaced, IsDisjoint, enlist_vm_freerg_list_lem,
}
use os_lamina_atrium.Libmem.{enlist_free, get_symrg_byid, free}

in_bounds : (xs : List Region) (i : ℕ) (v : Region) → get_elem? xs i ≡ some v → i < length xs
in_bounds [] i v h = cc (h)
in_bounds (x ∷ xs) zero v h = omega arith
in_bounds (x ∷ xs) (suc i) v h = omega (arith, in_bounds xs i v h)

get_elem?-set :
    (xs : List Region) (i : ℕ) (v : Region) → i < length xs → get_elem? (set xs i v) i ≡ some v
get_elem?-set [] i v h = absurd (omega arith)
get_elem?-set (x ∷ xs) zero v h = refl
get_elem?-set (x ∷ xs) (suc i) v h = get_elem?-set xs i v (omega arith)

cleared : Region
cleared = record { rg_start = 0; rg_end = 0 }

-- The process after its variable `rgid` has been freed, with the new list of its first area.
abbrev freed : Caller → VmArea → List VmArea → ℕ → List Region → Caller
freed c area areas rgid list = record c {
  mm = record (c.mm) {
    symrgtbl = set c.mm.symrgtbl rgid (record { rg_start = 0; rg_end = 0 });
    mmap = record area { freerg_list = list } ∷ areas;
  };
}

-- A variable of the symbol table with the region `rg`, in a process with the first area `area`.
pub record IsVariable (c : Caller) (area : VmArea) (areas : List VmArea) (rgid : ℕ) (rg : Region)
    : Type 0 where
  pub areas_are : c.mm.mmap ≡ area ∷ areas
  pub table_size : length c.mm.symrgtbl ≡ max_symtbl_sz
  pub region_is : get_elem? c.mm.symrgtbl rgid ≡ some rg

-- What freeing a region gives: the region of the variable is gone, so that freeing it again fails
-- and changes nothing, and the list of free regions covers it.
abbrev pub Freed : Caller → VmArea → List VmArea → ℕ → Region → Option (ℤ × Caller) → Type 0
Freed c area areas rgid rg result =
    (list : List Region) × (result ≡ some (success, freed c area areas rgid list))
    × (free true rgid (freed c area areas rgid list) ≡ some (failure, freed c area areas rgid list))
    × IsSpaced 0 list
    × ((a : ℕ) → covered list a ≡ inside rg a + covered area.freerg_list a)

valid_id : (rgid : ℕ) → rgid < 30 → (leb (2 ^ 31) rgid || ltb max_symtbl_sz rgid) ≡ false
valid_id rgid h = ground arith

valid_index : (rgid : ℕ) → rgid < 30 → (leb (2 ^ 31) rgid || leb max_symtbl_sz rgid) ≡ false
valid_index rgid h = ground arith

stored_in : (rgid : ℕ) (xs : List Region) → rgid < length xs → ltb rgid (length xs) ≡ true
stored_in rgid xs h = ground arith

not_empty :
    (rg : Region)
    → rg.rg_start < rg.rg_end
    → ((rg.rg_start == 0 && (rg.rg_end == 0)) || false) ≡ false
not_empty rg h = ground arith

-- A variable whose region is not empty and overlaps with no free region is freed, if there is memory
-- for a descriptor and the free regions are in order and apart: it succeeds, exactly the
-- addresses of the region become free, with a gap between any two free regions, and freeing the
-- variable again fails and changes nothing.
pub free_lem :
    (c : Caller) (area : VmArea) (areas : List VmArea) (rgid : ℕ) (rg : Region)
    → IsVariable c area areas rgid rg
    → IsApart 0 area.freerg_list
    → rg.rg_start < rg.rg_end
    → IsDisjoint rg area.freerg_list
    → Freed c area areas rgid rg (free true rgid c)
unfolding free get_symrg_byid enlist_free
free_lem c area areas rgid rg v h n d =
    let within : rgid < length c.mm.symrgtbl = in_bounds c.mm.symrgtbl rgid rg v.region_is in
    let small : rgid < 30 = omega (arith, v.table_size) in
    let (_, spaced, same) = enlist_vm_freerg_list_lem area.freerg_list rg h n d in
    (
      (enlist_vm_freerg_list area.freerg_list rg).1,
      rw
          (
            valid_id rgid small,
            valid_index rgid small,
            v.region_is,
            free,
            get_symrg_byid,
            not_empty rg n,
            stored_in rgid c.mm.symrgtbl within,
            enlist_free,
            v.areas_are,
          )
          refl,
      rw
          (
            valid_id rgid small,
            valid_index rgid small,
            free,
            get_symrg_byid,
            get_elem?-set c.mm.symrgtbl rgid (record { rg_start = 0; rg_end = 0 }) within,
          )
          refl,
      spaced,
      same,
    )
