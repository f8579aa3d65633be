-- ===== src/Paging/Table/Store.antt =====
-- Writing an entry of a last table, and what walks then find.
use native.Mathlib.Decide.{ℕ_discrete}
use os_lamina_atrium.Base.{
  ℕ, ◌+◌, ◌<◌, ◌≡◌, ◌≢◌, sym, ap, ◌∙◌, ◌⊎◌, inl, inr, false, List, [], ◌∷◌, Option, some, ◌==◌,
  arith, length,
}
use os_lamina_atrium.Mm.{Table, Tables, update}
use os_lamina_atrium.Paging.Table.Owner.{
  Owner, levels, IsLive, IsTree, entry_of, descend, descend_same, value, Leads, onto, update_self,
  update_ne,
}

not_zero : (n : ℕ) → n ≢ 0 → (n == 0) ≡ false
not_zero n h = ground arith

-- What a walk finds in the table to which it leads.
pub Leads-value :
    (t : Tables) (is : List ℕ) (y x j : ℕ) (table : Table)
    → Leads t y is x
    → t x ≡ some table
    → value t y is j ≡ table j
Leads-value t [] y x j table e there = ap (λ (tb : Option Table). entry_of tb j) (ap t e ∙ there)
Leads-value t (i ∷ is) y x j table (tab, here, n, leads) there =
    ap (λ (tb : Option Table). descend tb i (λ z. value t z is j)) here
    ∙ rw (not_zero (tab i) n) (Leads-value t is (tab i) x j table leads there)

module _ (o : Owner) (t : Tables) (tr : IsTree o t) (x j v : ℕ) (table : Table)
    (here : t x ≡ some table) (last : length (o x) ≡ levels) where
  abbrev pub stored : Tables
  stored = update t x (some (update table j v))

  stored_at : stored x ≡ some (update table j v)
  stored_at = update_self t x (some (update table j v))

  stored_other : (y : ℕ) → y ≢ x → stored y ≡ t y
  stored_other y ne = update_ne t x y (some (update table j v)) ne

  pub stored-IsLive : (y : ℕ) → IsLive t y → IsLive stored y
  stored-IsLive y (tab, e) = elim (ℕ_discrete y x) [
    | yes same ↦ (update table j v, rw same stored_at)
    | no ne ↦ (tab, stored_other y ne ∙ e)
  ]

  ne_last : (y : ℕ) → length (o y) < levels → y ≢ x
  ne_last y l same = omega (arith, ap length (ap o same))

  pub stored-IsTree : IsTree o stored
  stored-IsTree = record {
    child = λ y i tab e l n.
        let (live, own) = tr.child y i tab (sym (stored_other y (ne_last y l)) ∙ e) l n in
        (stored-IsLive (tab i) live, own);
  }

  pub value-stored :
      (is : List ℕ) (y : ℕ)
      → length (o y) + length is ≡ levels
      → IsLive t y
      → Leads t y is x
      → value stored y is j ≡ v
  value-stored [] y l live e =
      ap (λ (tb : Option Table). entry_of tb j) (ap stored e ∙ stored_at) ∙ update_self table j v
  value-stored (i ∷ is) y l live (tab, there, n, leads) =
      let (live', own) = tr.child y i tab there (omega arith) n in
      ap (λ (tb : Option Table). descend tb i (λ z. value stored z is j))
        (stored_other y (ne_last y (omega arith)) ∙ there)
      ∙ rw (not_zero (tab i) n) (value-stored is (tab i) (omega (arith, ap length own)) live' leads)

  other_index : (y k : ℕ) → y ≡ x → (o y ≢ o x) ⊎ (k ≢ j) → k ≢ j
  other_index y k same (inl h) = absurd (h (ap o same))
  other_index y k same (inr h) = h

  pub value_kept :
      (is : List ℕ) (y k : ℕ)
      → length (o y) + length is ≡ levels
      → IsLive t y
      → (onto is (o y) ≢ o x) ⊎ (k ≢ j)
      → value stored y is k ≡ value t y is k
  value_kept [] y k l live other = elim (ℕ_discrete y x) [
    | yes same ↦
        ap (λ (tb : Option Table). entry_of tb k) (ap stored same ∙ stored_at)
        ∙ update_ne table j k v (other_index y k same other)
        ∙ sym (ap (λ (tb : Option Table). entry_of tb k) (ap t same ∙ here))
    | no ne ↦ ap (λ (tb : Option Table). entry_of tb k) (stored_other y ne)
  ]
  value_kept (i ∷ is) y k l (tab, there) other =
      ap (λ (tb : Option Table). descend tb i (λ z. value stored z is k))
        (stored_other y (ne_last y (omega arith)) ∙ there)
      ∙ descend_same tab i (λ z. value t z is k) (λ z. value stored z is k)
          (λ n.
            let (live', own) = tr.child y i tab there (omega arith) n in
            value_kept is (tab i) k (omega (arith, ap length own)) live' (rw own other))
      ∙ sym (ap (λ (tb : Option Table). descend tb i (λ z. value t z is k)) there)
