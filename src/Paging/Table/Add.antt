-- ===== src/Paging/Table/Add.antt =====
-- One more table in the page directories, and what walks then find.
use native.Mathlib.Decide.{ℕ_discrete}
use os_lamina_atrium.Base.{
  ℕ, ◌+◌, ◌<◌, ◌≡◌, ◌≢◌, refl, sym, ap, subst, ◌∙◌, false, List, [], ◌∷◌, Option, none, some, ◌==◌,
  arith, length,
}
use os_lamina_atrium.Mm.{Table, Tables, update}
use os_lamina_atrium.Paging.Table.{zeros}
use os_lamina_atrium.Paging.Table.Owner.{
  Owner, levels, IsLive, Child, IsTree, entry_of, descend, descend_same, value, Grown, update_self,
  update_ne,
}

not_zero : (n : ℕ) → n ≢ 0 → (n == 0) ≡ false
not_zero n h = ground arith

-- A table of zeros that no table enters yet is entered at an index that held 0.
module _ (o : Owner) (t : Tables) (tr : IsTree o t) (at i new : ℕ) (table : Table)
    (here : t at ≡ some table) (inner : length (o at) < levels) (free : table i ≡ 0)
    (fresh : t new ≡ none) (not_null : new ≢ 0) where
  abbrev pub tables' : Tables
  tables' = update (update t new (some zeros)) at (some (update table i new))

  abbrev pub owner' : Owner
  owner' = update o new (i ∷ o at)

  live_ne_new : (x : ℕ) → IsLive t x → x ≢ new
  live_ne_new x (tab, e) same = cc (ap t same)

  at_ne_new : at ≢ new
  at_ne_new = live_ne_new at (table, here)

  at_new : tables' new ≡ some zeros
  at_new =
      update_ne (update t new (some zeros)) at new _ (λ e. at_ne_new (sym e))
      ∙ update_self t new (some zeros)

  at_at : tables' at ≡ some (update table i new)
  at_at = update_self (update t new (some zeros)) at (some (update table i new))

  at_other : (x : ℕ) → x ≢ at → x ≢ new → tables' x ≡ t x
  at_other x ne ne' =
      update_ne (update t new (some zeros)) at x _ ne ∙ update_ne t new x (some zeros) ne'

  owner_live : (x : ℕ) → IsLive t x → owner' x ≡ o x
  owner_live x h = update_ne o new x (i ∷ o at) (live_ne_new x h)

  still-IsLive : (x : ℕ) → IsLive t x → IsLive tables' x
  still-IsLive x (tab, e) = elim (ℕ_discrete x at) [
    | yes same ↦ (update table i new, rw same at_at)
    | no ne ↦ (tab, at_other x ne (live_ne_new x (tab, e)) ∙ e)
  ]

  grown_edges :
      (x k : ℕ) (tab : Table)
      → t x ≡ some tab
      → tab k ≢ 0
      → (tab' : Table) × (tables' x ≡ some tab') × (tab' k ≡ tab k)
  grown_edges x k tab e n = elim (ℕ_discrete x at) [
    | yes same ↦
        let is_table : tab ≡ table = cc (ap t same) in
        (
          update table i new,
          rw same at_at,
          rw (← is_table)
              (update_ne tab i k new (λ k_is_i. n (cc (ap tab k_is_i, free, is_table)))),
        )
    | no ne ↦ (tab, at_other x ne (live_ne_new x (tab, e)) ∙ e, refl)
  ]

  value_new : (is : List ℕ) (j : ℕ) → value tables' new is j ≡ 0
  value_new [] j = ap (λ (e : Option Table). entry_of e j) at_new
  value_new (k ∷ is) j = ap (λ (e : Option Table). descend e k (λ y. value tables' y is j)) at_new

  -- One level down from the table that gets the new entry.
  descend_at :
      (k : ℕ) (rest rest' : ℕ → ℕ)
      → rest' new ≡ 0
      → (table k ≢ 0 → rest' (table k) ≡ rest (table k))
      → descend (some (update table i new)) k rest' ≡ descend (some table) k rest
  descend_at k rest rest' zero_there same = elim (ℕ_discrete k i) [
    | yes e ↦ rw (e, update_self table i new, free, not_zero new not_null) zero_there
    | no ne ↦ rw (update_ne table i k new ne) (descend_same table k rest rest' same)
  ]

  grown_values :
      (x : ℕ) (is : List ℕ) (j : ℕ)
      → IsLive t x
      → length (o x) + length is ≡ levels
      → value tables' x is j ≡ value t x is j
  grown_values x [] j h l =
      let ne : x ≢ at = λ same. omega (arith, ap length (ap o same)) in
      ap (λ (e : Option Table). entry_of e j) (at_other x ne (live_ne_new x h))
  grown_values x (k ∷ is) j (tab, e) l =
      let below : (n : tab k ≢ 0) → value tables' (tab k) is j ≡ value t (tab k) is j = λ n.
        let (live, own) = tr.child x k tab e (omega arith) n in
        grown_values (tab k) is j live (omega (arith, ap length own)) in
      elim (ℕ_discrete x at) [
        | yes same ↦
            let is_table : tab ≡ table = cc (ap t same) in
            ap (λ (e : Option Table). descend e k (λ y. value tables' y is j))
              (ap tables' same ∙ at_at)
            ∙ descend_at k (λ y. value t y is j) (λ y. value tables' y is j) (value_new is j)
                (subst (λ (tb : Table). tb k ≢ 0 → value tables' (tb k) is j ≡ value t (tb k) is j)
                  is_table below)
            ∙ sym (ap (λ (e : Option Table). descend e k (λ y. value t y is j)) (ap t same ∙ here))
        | no ne ↦
            ap (λ (e : Option Table). descend e k (λ y. value tables' y is j))
              (at_other x ne (live_ne_new x (tab, e)) ∙ e)
            ∙ descend_same tab k (λ y. value t y is j) (λ y. value tables' y is j) below
            ∙ sym (ap (λ (e : Option Table). descend e k (λ y. value t y is j)) e)
      ]

  old-Child :
      (x k : ℕ) (tab : Table)
      → t x ≡ some tab
      → length (o x) < levels
      → tab k ≢ 0
      → Child owner' tables' x k (tab k)
  old-Child x k tab e l n =
      let (live, own) = tr.child x k tab e l n in
      (
        still-IsLive (tab k) live,
        owner_live (tab k) live ∙ own ∙ ap (◌∷◌ k) (sym (owner_live x (tab, e))),
      )

  at-Child : (k : ℕ) → update table i new k ≢ 0 → Child owner' tables' at k (update table i new k)
  at-Child k n = elim (ℕ_discrete k i) [
    | yes e ↦
        rw (e, update_self table i new)
          (
            (zeros, at_new),
            update_self o new (i ∷ o at) ∙ ap (◌∷◌ i) (sym (owner_live at (table, here))),
          )
    | no ne ↦
        let kept = update_ne table i k new ne in
        rw kept (old-Child at k table here inner (λ z. n (kept ∙ z)))
  ]

  grown-Child :
      (x k : ℕ) (tab : Table)
      → tables' x ≡ some tab
      → length (owner' x) < levels
      → tab k ≢ 0
      → Child owner' tables' x k (tab k)
  grown-Child x k tab e l n = elim (ℕ_discrete x at) [
    | yes same ↦
        let is_table : tab ≡ update table i new = cc (ap tables' same, at_at) in
        rw (same, is_table) (at-Child k (λ z. n (cc (ap (λ (f : Table). f k) is_table, z))))
    | no ne ↦ elim (ℕ_discrete x new) [
      | yes same ↦
          let is_zeros : tab ≡ zeros = cc (ap tables' same, at_new) in
          absurd (n (ap (λ (f : Table). f k) is_zeros))
      | no ne' ↦
          let old = sym (at_other x ne ne') ∙ e in
          old-Child x k tab old (rw (owner_live x (tab, old)) at l) n
    ]
  ]

  grown-IsTree : IsTree owner' tables'
  grown-IsTree = record { child = grown-Child }

  -- The directories with the new table.
  pub add_table-Grown : Grown o t owner' tables'
  add_table-Grown = record {
    tree = grown-IsTree;
    lives = λ x h. (still-IsLive x h, owner_live x h);
    edges = λ x k tab e l n. grown_edges x k tab e n;
    values = grown_values;
  }

  -- The new table stands at its index, and is owned by that place.
  pub add_table-entered :
      (tables' at ≡ some (update table i new))
      × (update table i new i ≡ new)
      × IsLive tables' new
      × (owner' new ≡ i ∷ owner' at)
  add_table-entered = (
    at_at,
    update_self table i new,
    (zeros, at_new),
    update_self o new (i ∷ o at) ∙ ap (◌∷◌ i) (sym (owner_live at (table, here))),
  )
