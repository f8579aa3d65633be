-- ===== src/Words.antt =====
-- The bit macros of include/bitops.h, include/mm.h and include/mm64.h. `addr_t` is `uint64_t`; the
-- masks of mm.h are `unsigned int`, so a complement of one has 32 bits.
use os_lamina_atrium.Base.{ℕ, ◌+◌, ◌-◌, ◌*◌, ◌/◌, ◌%◌, ◌^◌, bit_and, bit_or, ltb, if◌then◌else◌}

abbrev pub u64 : ℕ → ℕ
u64 x = x % 2 ^ 64

abbrev pub u32 : ℕ → ℕ
u32 x = x % 2 ^ 32

-- The pattern of an `int`, made an `addr_t`
abbrev pub int_to_addr : ℕ → ℕ
int_to_addr a = if ltb a (2 ^ 31) then a else a + 2 ^ 64 - 2 ^ 32

-- The `int` of a pattern, or 0 if it is negative: how often `for (i = 0; i < n; i++)` goes round.
abbrev pub or_zero : ℕ → ℕ
or_zero n = if ltb n (2 ^ 31) then n else 0

-- `BIT(nr)`
abbrev pub bit : ℕ → ℕ
bit nr = u32 (2 ^ nr)

-- `GENMASK(h, l)`, with `BITS_PER_LONG` 32
abbrev pub genmask : ℕ → ℕ → ℕ
genmask h l = bit_and (u32 ((2 ^ 32 - 1) * 2 ^ l)) ((2 ^ 32 - 1) / 2 ^ (32 - h - 1))

-- `GENMASK64(h, l)`
abbrev pub genmask64 : ℕ → ℕ → ℕ
genmask64 h l = bit_and (u64 ((2 ^ 64 - 1) * 2 ^ l)) ((2 ^ 64 - 1) / 2 ^ (64 - h - 1))

-- `~mask` of an `unsigned int`
abbrev pub not32 : ℕ → ℕ
not32 mask = 2 ^ 32 - 1 - mask

-- `SETBIT`, `CLRBIT`, `SETVAL` and `GETVAL`: the value that is assigned to `v`, or read from it
abbrev pub setbit : ℕ → ℕ → ℕ
setbit v mask = bit_or v mask

abbrev pub clrbit : ℕ → ℕ → ℕ
clrbit v mask = bit_and v (not32 mask)

abbrev pub setval : ℕ → ℕ → ℕ → ℕ → ℕ
setval v value mask offst = bit_or (bit_and v (not32 mask)) (bit_and (u64 (value * 2 ^ offst)) mask)

abbrev pub getval : ℕ → ℕ → ℕ → ℕ
getval v mask offst = bit_and v mask / 2 ^ offst

-- `DIV_ROUND_UP(n, d)` on `addr_t`
abbrev pub div_round_up : ℕ → ℕ → ℕ
div_round_up n d = u64 (n + d - 1) / d
