-- ===== src/Pages.antt =====
-- The list of pages in use, by which src/libmem.c and src/mm64.c choose a page to replace.
pub mod Order
use os_lamina_atrium.Base.{ℕ, List, [], ◌∷◌, Option, none, some, ℤ, success}

unfoldable pub enlist_pgn_node : List ℕ → ℕ → ℤ × List ℕ
enlist_pgn_node plist pgn = (success, pgn ∷ plist)

-- The last page of the list that begins with `pg`, and the list without it.
unfoldable pub split_last : ℕ → List ℕ → ℕ × List ℕ
split_last pg [] = (pg, [])
split_last pg (next ∷ rest) = let (last, kept) = split_last next rest in (last, pg ∷ kept)

-- `none` is the result -1.
unfoldable pub find_victim_page : List ℕ → Option (ℕ × List ℕ)
unfolding split_last
find_victim_page [] = none
find_victim_page (pg ∷ rest) = some (split_last pg rest)
