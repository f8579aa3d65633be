-- ===== src/Base/Bits/Fields.antt =====
-- Fields of words: bits `l` to `l + k - 1` of `v`, as a number.
use Prim.Native.Nat.{
  ℕ, zero, suc, ◌+◌, ◌-◌, ◌*◌, ◌/◌, ◌%◌, ◌^◌, ◌≤◌, ◌<◌, min, max, bit_and, bit_or,
}
use mathlib.Core.Path.{◌≡◌, refl, sym, ◌∙◌, ap, ap₂}
use native.Mathlib.Nat.{
  pow-suc, one-le-pow, div-div-eq-div-mul, mod-eq_of_lt, add-mul-mod_self_left, mul_comm, mod-lt,
  div-add-mod,
}
use native.Mathlib.Omega.{arith}
use os_lamina_atrium.Base.Bits.Step.{bit_and_step, bit_or_step}

abbrev pub field : ℕ → ℕ → ℕ → ℕ
field v l k = v / 2 ^ l % 2 ^ k

pow_pos : (k : ℕ) → 0 < 2 ^ k
pow_pos k = one-le-pow k 2 (omega arith)

pub div-pow-suc : (a k : ℕ) → a / 2 ^ suc k ≡ a / 2 / 2 ^ k
div-pow-suc a k =
    ap (λ (t : ℕ). a / t) (pow-suc 2 k ∙ mul_comm (2 ^ k) 2) ∙ sym (div-div-eq-div-mul a 2 (2 ^ k))

pub mod-pow-suc : (a k : ℕ) → a % 2 ^ suc k ≡ (a / 2 % 2 ^ k) * 2 + a % 2
mod-pow-suc a k =
    ap (λ (t : ℕ). t % 2 ^ suc k) split
    ∙ add-mul-mod_self_left (r * 2 + a % 2) (2 ^ suc k) q
    ∙ mod-eq_of_lt (omega (arith, pow-suc 2 k, mod-lt (a / 2) (pow_pos k)))
  where
    q : ℕ
    q = a / 2 / 2 ^ k

    r : ℕ
    r = a / 2 % 2 ^ k

    split : a ≡ r * 2 + a % 2 + 2 ^ suc k * q
    split = omega (arith, div-add-mod (a / 2) (2 ^ k), ap (λ (t : ℕ). t * q) (pow-suc 2 k))

-- An operation that works digit by digit works field by field.
module _ (op digit : ℕ → ℕ → ℕ)
    (step : (a b : ℕ) → op a b ≡ op (a / 2) (b / 2) * 2 + digit (a % 2) (b % 2))
    (small : (a b : ℕ) → a < 2 → b < 2 → digit a b < 2) where
  op-half : (a b : ℕ) → op a b / 2 ≡ op (a / 2) (b / 2)
  op-half a b = omega (arith, step a b, small (a % 2) (b % 2))

  op-digit : (a b : ℕ) → op a b % 2 ≡ digit (a % 2) (b % 2)
  op-digit a b = omega (arith, step a b, small (a % 2) (b % 2))

  op-div : (k a b : ℕ) → op a b / 2 ^ k ≡ op (a / 2 ^ k) (b / 2 ^ k)
  op-div zero a b = omega (arith, ap₂ op (one_div a) (one_div b))
    where
      one_div : (x : ℕ) → x / 2 ^ 0 ≡ x
      one_div x = omega arith
  op-div (suc k) a b =
      rw (div-pow-suc a k, div-pow-suc b k, div-pow-suc (op a b) k, op-half a b)
        (op-div k (a / 2) (b / 2))

  -- The remainder's two parts are those of the digit recursion.
  step_parts : (x y d e : ℕ) → d < 2 → e < 2 → op (x * 2 + d) (y * 2 + e) ≡ op x y * 2 + digit d e
  step_parts x y d e hd he =
      step (x * 2 + d) (y * 2 + e)
      ∙ ap₂ (λ (s t : ℕ). s * 2 + t) (ap₂ op (omega arith) (omega arith))
          (ap₂ digit (omega arith) (omega arith))

  op-mod : (k a b : ℕ) → op 0 0 ≡ 0 → op a b % 2 ^ k ≡ op (a % 2 ^ k) (b % 2 ^ k)
  op-mod zero a b z = omega (arith, z, ap₂ op (one_mod a) (one_mod b))
    where
      one_mod : (x : ℕ) → x % 2 ^ 0 ≡ 0
      one_mod x = omega arith
  op-mod (suc k) a b z =
      rw (mod-pow-suc a k, mod-pow-suc b k, mod-pow-suc (op a b) k, op-half a b, op-digit a b)
        (ap (λ (t : ℕ). t * 2 + digit (a % 2) (b % 2)) (op-mod k (a / 2) (b / 2) z)
          ∙ sym (
              step_parts (a / 2 % 2 ^ k) (b / 2 % 2 ^ k) (a % 2) (b % 2) (omega arith)
                (omega arith)))

  op-field : (l k a b : ℕ) → op 0 0 ≡ 0 → field (op a b) l k ≡ op (field a l k) (field b l k)
  op-field l k a b z = ap (λ (t : ℕ). t % 2 ^ k) (op-div l a b) ∙ op-mod k (a / 2 ^ l) (b / 2 ^ l) z

min-lt : (a b : ℕ) → a < 2 → b < 2 → min a b < 2
min-lt a b h k = omega arith

max-lt : (a b : ℕ) → a < 2 → b < 2 → max a b < 2
max-lt a b h k = omega arith

pub bit_and-div : (k a b : ℕ) → bit_and a b / 2 ^ k ≡ bit_and (a / 2 ^ k) (b / 2 ^ k)
bit_and-div = op-div bit_and min bit_and_step min-lt

pub bit_or-div : (k a b : ℕ) → bit_or a b / 2 ^ k ≡ bit_or (a / 2 ^ k) (b / 2 ^ k)
bit_or-div = op-div bit_or max bit_or_step max-lt

pub field-bit_and : (l k a b : ℕ) → field (bit_and a b) l k ≡ bit_and (field a l k) (field b l k)
field-bit_and l k a b = op-field bit_and min bit_and_step min-lt l k a b refl

pub field-bit_or : (l k a b : ℕ) → field (bit_or a b) l k ≡ bit_or (field a l k) (field b l k)
field-bit_or l k a b = op-field bit_or max bit_or_step max-lt l k a b refl

pub bit_and-zero : (a : ℕ) → bit_and a 0 ≡ 0
bit_and-zero a = zero_below a a (omega arith)
  where
    zero_below : (n x : ℕ) → x ≤ n → bit_and x 0 ≡ 0
    zero_below n zero h = refl
    zero_below zero (suc x) h = absurd (omega arith)
    zero_below (suc n) (suc x) h =
        omega (arith, bit_and_step (suc x) 0, zero_below n (suc x / 2) (omega arith))

pub bit_or-zero : (a : ℕ) → bit_or a 0 ≡ a
bit_or-zero a = zero_below a a (omega arith)
  where
    zero_below : (n x : ℕ) → x ≤ n → bit_or x 0 ≡ x
    zero_below n zero h = refl
    zero_below zero (suc x) h = absurd (omega arith)
    zero_below (suc n) (suc x) h =
        omega (arith, bit_or_step (suc x) 0, zero_below n (suc x / 2) (omega arith))

pub zero-bit_or : (a : ℕ) → bit_or 0 a ≡ a
zero-bit_or a = zero_below a a (omega arith)
  where
    zero_below : (n x : ℕ) → x ≤ n → bit_or 0 x ≡ x
    zero_below n zero h = refl
    zero_below zero (suc x) h = absurd (omega arith)
    zero_below (suc n) (suc x) h =
        omega (arith, bit_or_step 0 (suc x), zero_below n (suc x / 2) (omega arith))

-- `&` with `k` ones is the remainder by `2 ^ k`.
pub bit_and-ones : (k a : ℕ) → bit_and a (2 ^ k - 1) ≡ a % 2 ^ k
bit_and-ones zero a = bit_and-zero a ∙ omega arith
bit_and-ones (suc k) a =
    bit_and_step a (2 ^ suc k - 1)
    ∙ ap₂ (λ (s t : ℕ). s * 2 + t) (ap (bit_and (a / 2)) halved ∙ bit_and-ones k (a / 2))
        (ap (min (a % 2)) odd ∙ omega arith)
    ∙ sym (mod-pow-suc a k)
  where
    halved : (2 ^ suc k - 1) / 2 ≡ 2 ^ k - 1
    halved = omega (arith, pow-suc 2 k, pow_pos k)

    odd : (2 ^ suc k - 1) % 2 ≡ 1
    odd = omega (arith, pow-suc 2 k, pow_pos k)
