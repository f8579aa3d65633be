-- ===== src/Memphy/Copy.antt =====
-- What `__swap_cp_page` copies.
use os_lamina_atrium.Base.{ℕ, zero, suc, ◌+◌, ◌≡◌, refl, ◌∙◌, List, get_or, set, length, length-set}
use os_lamina_atrium.Memphy.{Memphy}

-- The bytes of the destination after `n` cells from `c` on.
abbrev paste : ℕ → ℕ → List ℕ → ℕ → List ℕ → ℕ → List ℕ
paste zero c src from dst to = dst
paste (suc n) c src from dst to =
    paste n (c + 1) src from (set dst (to + c) (get_or src (from + c) 0)) to

length-paste :
    (n c : ℕ) (src : List ℕ) (from : ℕ) (dst : List ℕ) (to : ℕ)
    → length (paste n c src from dst to) ≡ length dst
length-paste zero c src from dst to = refl
length-paste (suc n) c src from dst to =
    length-paste n (c + 1) src from (set dst (to + c) (get_or src (from + c) 0)) to
    ∙ length-set dst (to + c) (get_or src (from + c) 0)
