-- ===== src/Paging/Range/Entries.antt =====
-- The entries of a range of pages of src/mm64.c, after some pages have been given frames.
use os_lamina_atrium.Base.{
  ℕ, zero, suc, ◌+◌, ◌%◌, ◌^◌, ◌≤◌, ◌<◌, ◌≡◌, ◌≢◌, refl, sym, ap, ◌∙◌, inl, inr, true, false, List,
  [], ◌∷◌, some, ◌==◌, if◌then◌else◌, get_elem?, get_elem?-some, arith, length, All, Bool-cases,
}
use os_lamina_atrium.Mm.{Tables}
use os_lamina_atrium.Paging.Pte.{online_entry}
use os_lamina_atrium.Paging.Table.{path}
use os_lamina_atrium.Paging.Table.Owner.{value}
use os_lamina_atrium.Paging.Addr.{Indices}
use os_lamina_atrium.Paging.Table.Map.{entry, same_page}
use os_lamina_atrium.Paging.Table.Change.{indices_iff, Changed}

-- The entry of page `q` after pages `p`, `p + 1` and so on have been given the frames in turn.
abbrev pub mapped : List ℕ → ℕ → ℕ → ℕ → ℕ
mapped [] p q v = v
mapped (f ∷ fs) p q v = mapped fs (p + 1) q (if same_page q p then online_entry v f else v)

-- The page `q` is not one of `n` pages from `p` on.
abbrev pub Apart : ℕ → ℕ → ℕ → Type 0
Apart q p n = (i : ℕ) → i < n → q % 2 ^ 45 ≢ (p + i) % 2 ^ 45

pub mapped-away : (fs : List ℕ) (p q v : ℕ) → Apart q p (length fs) → mapped fs p q v ≡ v
mapped-away [] p q v away = refl
mapped-away (f ∷ fs) p q v away =
    let first : q % 2 ^ 45 ≢ (p + 0) % 2 ^ 45 = away 0 (omega arith) in
    let here : same_page q p ≡ false = ground (arith, first) in
    rw (here) (
      mapped-away fs (p + 1) q v (λ i lt.
        let next : q % 2 ^ 45 ≢ (p + suc i) % 2 ^ 45 = away (suc i) (omega arith) in
        ground (arith, next)))

pub mapped-at :
    (fs : List ℕ) (p q i f v : ℕ)
    → q ≡ p + i
    → p + length fs ≤ 2 ^ 45
    → get_elem? fs i ≡ some f
    → mapped fs p q v ≡ online_entry v f
mapped-at [] p q i f v at h e = cc (e)
mapped-at (x ∷ fs) p q zero f v at h e =
    let here : same_page q p ≡ true = ground arith in
    rw (here) (
      mapped-away fs (p + 1) q (online_entry v x) (λ i lt. ground arith)
      ∙ ap (online_entry v) (cc (e)))
mapped-at (x ∷ fs) p q (suc i) f v at h e =
    let inside = get_elem?-some fs i f e in
    let past : same_page q p ≡ false = ground (arith, inside) in
    rw (past) (mapped-at fs (p + 1) q i f v (omega arith) (omega arith) e)

pub entry_same : (t : Tables) (r p q : ℕ) → q % 2 ^ 45 ≡ p % 2 ^ 45 → entry t r q ≡ entry t r p
entry_same t r p q same = ap (λ (d : Indices). value t r (path d) d.pt) ((indices_iff q p).1 same)

-- The entries after one round and then the others
pub join-entries :
    (t t' t'' : Tables) (root pgn f : ℕ) (frames roots : List ℕ)
    → Changed t t' root pgn (online_entry (entry t root pgn) f) roots
    → All
        (λ r.
          (q : ℕ)
          → entry t'' r q
            ≡ (if r == root then mapped frames (pgn + 1) q (entry t' r q) else entry t' r q))
        roots
    → All
        (λ r.
          (q : ℕ)
          → entry t'' r q
            ≡ (if r == root then mapped (f ∷ frames) pgn q (entry t r q) else entry t r q))
        roots
join-entries t t' t'' root pgn f frames [] h k = tt
join-entries t t' t'' root pgn f frames (r ∷ rs) (h, hs) (k, ks) =
    (λ q. both q, join-entries t t' t'' root pgn f frames rs hs ks)
  where
    first :
        (q : ℕ)
        → (r == root) ≡ true
        → entry t' r q ≡ (if same_page q pgn then online_entry (entry t r q) f else entry t r q)
    first q e = elim (Bool-cases (same_page q pgn)) [
      | inl same ↦
          let r_root : r ≡ root = ground arith in
          let old : entry t root pgn ≡ entry t r q =
            ap (λ (x : ℕ). entry t x pgn) (sym r_root)
            ∙ sym (entry_same t r pgn q (ground arith)) in
          let new : entry t' r q ≡ online_entry (entry t root pgn) f = h q ∙ rw (e, same) refl in
          rw (same) (new ∙ ap (λ (v : ℕ). online_entry v f) old)
      | inr other ↦
          let new : entry t' r q ≡ entry t r q = h q ∙ rw (e, other) refl in rw (other) new
    ]

    both :
        (q : ℕ)
        → entry t'' r q
          ≡ (if r == root then mapped (f ∷ frames) pgn q (entry t r q) else entry t r q)
    both q = elim (Bool-cases (r == root)) [
      | inl e ↦
          let ih : entry t'' r q ≡ mapped frames (pgn + 1) q (entry t' r q) = k q ∙ rw (e) refl in
          rw (e) (ih ∙ ap (mapped frames (pgn + 1) q) (first q e))
      | inr e ↦
          let ih : entry t'' r q ≡ entry t' r q = k q ∙ rw (e) refl in
          let one : entry t' r q ≡ entry t r q = h q ∙ rw (e) refl in rw (e) (ih ∙ one)
    ]

pub same-entries :
    (t : Tables) (root : ℕ) (roots : List ℕ)
    → All (λ r. (q : ℕ) → entry t r q ≡ (if r == root then entry t r q else entry t r q)) roots
same-entries t root [] = tt
same-entries t root (r ∷ rs) = (
  λ q. elim (Bool-cases (r == root)) [ inl e ↦ rw (e) refl | inr e ↦ rw (e) refl ],
  same-entries t root rs,
)

pub kept_elsewhere :
    (t t' : Tables) (root pgn : ℕ) (frames roots : List ℕ)
    → All
        (λ r.
          (q : ℕ)
          → entry t' r q ≡ (if r == root then mapped frames pgn q (entry t r q) else entry t r q))
        roots
    → All (λ r. r ≢ root → (q : ℕ) → entry t' r q ≡ entry t r q) roots
kept_elsewhere t t' root pgn frames [] h = tt
kept_elsewhere t t' root pgn frames (r ∷ rs) (h, hs) = (
  λ other q. let apart : (r == root) ≡ false = ground (arith, other) in h q ∙ rw (apart) refl,
  kept_elsewhere t t' root pgn frames rs hs,
)
