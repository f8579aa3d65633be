-- ===== src/Base/Sums.antt =====
-- How often a number occurs in a list: the multiset view of the library's tests.
use Prim.Native.Nat.{ℕ, ◌+◌}
use mathlib.Core.Path.{◌≡◌}
use mathlib.Core.List.{List, [], ◌∷◌, ◌++◌}
use native.Mathlib.Omega.{arith}
use os_lamina_atrium.Base.Tests.{◌==◌, if◌then◌else◌}

-- 1 if `found` is `wanted`, otherwise 0
abbrev pub one_if : (wanted found : ℕ) → ℕ
one_if wanted found = if found == wanted then 1 else 0

abbrev pub count : (wanted : ℕ) → List ℕ → ℕ
count wanted [] = 0
count wanted (found ∷ rest) = one_if wanted found + count wanted rest

pub count-append :
    (wanted : ℕ) (before after : List ℕ)
    → count wanted (before ++ after) ≡ count wanted before + count wanted after
count-append wanted [] after = omega arith
count-append wanted (found ∷ before) after = omega (arith, count-append wanted before after)
