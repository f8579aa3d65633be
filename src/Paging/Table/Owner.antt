-- ===== src/Paging/Table/Owner.antt =====
-- The shape of the page directories: no table is entered in two places. Each live table has one way
-- that leads to it, its owner: the indices back to the root, and the root's address last. A root is
-- thus an owner of length 1, and a last table, which holds page-table entries, one of length 5.
use os_lamina_atrium.Base.{
  ℕ, ◌+◌, ◌<◌, ◌≡◌, ◌≢◌, refl, ◌∙◌, inl, inr, List, [], ◌∷◌, Option, none, some, ◌==◌,
  if◌then◌else◌, arith, length, Bool-cases, ==_iff,
}
use os_lamina_atrium.Mm.{Table, Tables, update}

abbrev pub Owner : Type 0
Owner = ℕ → List ℕ

abbrev pub levels : ℕ
levels = 5

abbrev pub IsLive : Tables → ℕ → Type 0
IsLive t x = (table : Table) × (t x ≡ some table)

-- The table entered at index `i` of a table `x` is live, and owned by that place.
abbrev pub Child : Owner → Tables → ℕ → ℕ → ℕ → Type 0
Child o t x i y = IsLive t y × (o y ≡ i ∷ o x)

pub record IsTree (o : Owner) (t : Tables) : Type 0 where
  pub child :
      (x i : ℕ) (table : Table)
      → t x ≡ some table
      → length (o x) < levels
      → table i ≢ 0
      → Child o t x i (table i)

abbrev pub entry_of : Option Table → ℕ → ℕ
entry_of none j = 0
entry_of (some table) j = table j

abbrev pub descend : Option Table → ℕ → (ℕ → ℕ) → ℕ
descend none i rest = 0
descend (some table) i rest = if table i == 0 then 0 else rest (table i)

-- The entry that a walk from `x` by the indices `is` finds at index `j`, 0 if a table is missing.
abbrev pub value : Tables → ℕ → List ℕ → ℕ → ℕ
value t x [] j = entry_of (t x) j
value t x (i ∷ is) j = descend (t x) i (λ y. value t y is j)

pub descend_same :
    (table : Table) (k : ℕ) (rest rest' : ℕ → ℕ)
    → (table k ≢ 0 → rest' (table k) ≡ rest (table k))
    → descend (some table) k rest' ≡ descend (some table) k rest
descend_same table k rest rest' same = elim (Bool-cases (table k == 0)) [
  | inl e ↦ rw e
  | inr e ↦ rw e (same (ground arith))
]

-- The walk from `x` by the indices `is` leads to the table `y`.
abbrev pub Leads : Tables → ℕ → List ℕ → ℕ → Type 0
Leads t x [] y = x ≡ y
Leads t x (i ∷ is) y = (table : Table) × (t x ≡ some table) × (table i ≢ 0) × Leads t (table i) is y

-- The owner at the end of the walk.
abbrev pub onto : List ℕ → List ℕ → List ℕ
onto [] o = o
onto (i ∷ is) o = onto is (i ∷ o)

-- `t'` has the tables of `t` and more, and no walk from a table of `t` finds another entry.
pub record Grown (o : Owner) (t : Tables) (o' : Owner) (t' : Tables) : Type 0 where
  pub tree : IsTree o' t'
  pub lives : (x : ℕ) → IsLive t x → IsLive t' x × (o' x ≡ o x)
  pub edges :
      (x i : ℕ) (table : Table)
      → t x ≡ some table
      → length (o x) < levels
      → table i ≢ 0
      → (table' : Table) × (t' x ≡ some table') × (table' i ≡ table i)
  pub values :
      (x : ℕ) (is : List ℕ) (j : ℕ)
      → IsLive t x
      → length (o x) + length is ≡ levels
      → value t' x is j ≡ value t x is j

pub Grown-refl : {o : Owner} {t : Tables} → IsTree o t → Grown o t o t
Grown-refl tr = record {
  tree = tr;
  lives = λ x h. (h, refl);
  edges = λ x i table e l n. (table, e, refl);
  values = λ x is j h l. refl;
}

pub Grown-trans :
    {o o' o'' : Owner} {t t' t'' : Tables}
    → Grown o t o' t'
    → Grown o' t' o'' t''
    → Grown o t o'' t''
Grown-trans {o} {o'} {o''} {t} {t'} {t''} g g' = record {
  tree = g'.tree;
  lives = λ x h. let (h', e) = g.lives x h in let (h'', e') = g'.lives x h' in (h'', e' ∙ e);
  edges = λ x i table e l n.
      let (table', e', same) = g.edges x i table e l n in
      let (_, own) = g.lives x (table, e) in
      let (table'', e'', same') = g'.edges x i table' e' (rw own l) (rw same n) in
      (table'', e'', same' ∙ same);
  values = λ x is j h l.
      let (h', own) = g.lives x h in g'.values x is j h' (rw own l) ∙ g.values x is j h l;
}

pub update_self {ℓ} : {A : Type ℓ} (f : ℕ → A) (k : ℕ) (v : A) → update f k v k ≡ v
update_self f k v = rw ((==_iff k k).1 refl)

pub update_ne {ℓ} : {A : Type ℓ} (f : ℕ → A) (k j : ℕ) (v : A) → j ≢ k → update f k v j ≡ f j
update_ne f k j v ne = elim (Bool-cases (j == k)) [
  | inl e ↦ absurd (ne ((==_iff j k).0 e))
  | inr e ↦ rw e
]
