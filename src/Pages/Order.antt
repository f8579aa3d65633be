-- ===== src/Pages/Order.antt =====
-- Which of the pages in use `find_victim_page` chooses.
use os_lamina_atrium.Base.{ℕ, List, [], ◌∷◌, ◌++◌, some, ◌≡◌, refl, ap, ◌∙◌}
use os_lamina_atrium.Pages.{enlist_pgn_node, split_last, find_victim_page}

-- The list after the pages have come into use, the first of the argument first.
unfoldable pub enlist_all : List ℕ → List ℕ → List ℕ
unfolding enlist_pgn_node
enlist_all plist [] = plist
enlist_all plist (pgn ∷ pgns) = enlist_all (enlist_pgn_node plist pgn).1 pgns

split_last_snoc : (pg v : ℕ) (xs : List ℕ) → split_last pg (xs ++ v ∷ []) ≡ (v, pg ∷ xs)
unfolding split_last
split_last_snoc pg v [] = refl
split_last_snoc pg v (x ∷ xs) = rw (split_last_snoc x v xs) refl

victim_snoc : (xs : List ℕ) (v : ℕ) → find_victim_page (xs ++ v ∷ []) ≡ some (v, xs)
unfolding find_victim_page split_last
victim_snoc [] v = refl
victim_snoc (x ∷ xs) v = ap (λ (p : ℕ × List ℕ). some p) (split_last_snoc x v xs)

enlist_all_snoc :
    (plist pgns : List ℕ) (v : ℕ)
    → enlist_all (plist ++ v ∷ []) pgns ≡ enlist_all plist pgns ++ v ∷ []
unfolding enlist_all enlist_pgn_node
enlist_all_snoc plist [] v = refl
enlist_all_snoc plist (p ∷ pgns) v = enlist_all_snoc (p ∷ plist) pgns v

-- Of the pages that have come into use, one after the other, the first is the victim, and the list
-- is then as if only the others had come into use.
pub find_victim_page_oldest :
    (pgn : ℕ) (pgns : List ℕ)
    → find_victim_page (enlist_all [] (pgn ∷ pgns)) ≡ some (pgn, enlist_all [] pgns)
unfolding enlist_all enlist_pgn_node
find_victim_page_oldest pgn pgns =
    ap find_victim_page (enlist_all_snoc [] pgns pgn) ∙ victim_snoc (enlist_all [] pgns) pgn
