-- ===== src/Timer/LockStep/Parts.antt =====
-- A list of devices of which the first `i` are in one condition and the others in another.
use os_lamina_atrium.Base.{
  ℕ, zero, suc, ◌≡◌, ◌≢◌, refl, ap, subst, List, [], ◌∷◌, none, some, get_elem?, set,
}
use os_lamina_atrium.Timer.{Device}

unfoldable pub Split : (Device → Type 0) → (Device → Type 0) → ℕ → List Device → Type 0
Split P Q i [] = Unit
Split P Q zero (d ∷ ds) = Q d × Split P Q zero ds
Split P Q (suc i) (d ∷ ds) = P d × Split P Q i ds

pub get_elem?-set_ne :
    (ds : List Device) (k i : ℕ) (d : Device) → k ≢ i → get_elem? (set ds k d) i ≡ get_elem? ds i
get_elem?-set_ne [] k i d h = refl
get_elem?-set_ne (x ∷ ds) zero zero d h = absurd (h refl)
get_elem?-set_ne (x ∷ ds) zero (suc i) d h = refl
get_elem?-set_ne (x ∷ ds) (suc k) zero d h = refl
get_elem?-set_ne (x ∷ ds) (suc k) (suc i) d h = get_elem?-set_ne ds k i d (λ e. h (ap suc e))

pub get_elem?-set_self :
    (ds : List Device) (k : ℕ) (d d' : Device)
    → get_elem? ds k ≡ some d
    → get_elem? (set ds k d') k ≡ some d'
get_elem?-set_self [] k d d' e = cc (e)
get_elem?-set_self (x ∷ ds) zero d d' e = refl
get_elem?-set_self (x ∷ ds) (suc k) d d' e = get_elem?-set_self ds k d d' e

module _ (P Q : Device → Type 0) where
  pub Split-set :
      {d d' : Device}
      → (P d → P d')
      → (Q d → Q d')
      → (ds : List Device) (k i : ℕ) → get_elem? ds k ≡ some d
      → Split P Q i ds
      → Split P Q i (set ds k d')
  unfolding Split
  Split-set p q [] k i e s = s
  Split-set p q (x ∷ ds) zero zero e (h, s) = (q (subst Q (cc (e)) h), s)
  Split-set p q (x ∷ ds) zero (suc i) e (h, s) = (p (subst P (cc (e)) h), s)
  Split-set p q (x ∷ ds) (suc k) zero e (h, s) = (h, Split-set p q ds k zero e s)
  Split-set p q (x ∷ ds) (suc k) (suc i) e (h, s) = (h, Split-set p q ds k i e s)

  pub Split-set_next :
      {d' : Device} (ds : List Device) (i : ℕ)
      → P d'
      → Split P Q i ds
      → Split P Q (suc i) (set ds i d')
  unfolding Split
  Split-set_next [] i p s = s
  Split-set_next (x ∷ ds) zero p (h, s) = (p, s)
  Split-set_next (x ∷ ds) (suc i) p (h, s) = (h, Split-set_next ds i p s)

  pub Split-next :
      {d : Device} (ds : List Device) (i : ℕ)
      → get_elem? ds i ≡ some d
      → P d
      → Split P Q i ds
      → Split P Q (suc i) ds
  unfolding Split
  Split-next [] i e p s = s
  Split-next (x ∷ ds) zero e p (h, s) = (subst P (cc (e)) p, s)
  Split-next (x ∷ ds) (suc i) e p (h, s) = (h, Split-next ds i e p s)

  -- Nothing is left of the second condition past the end.
  pub Split-end :
      (R S : Device → Type 0)
      → ((d : Device) → P d → S d)
      → (ds : List Device) (i : ℕ) → get_elem? ds i ≡ none
      → Split P Q i ds
      → Split R S 0 ds
  unfolding Split
  Split-end R S f [] i e s = s
  Split-end R S f (x ∷ ds) zero e s = cc (e)
  Split-end R S f (x ∷ ds) (suc i) e (h, s) = (f x h, Split-end R S f ds i e s)

  pub Split-restart : (R : Device → Type 0) (ds : List Device) → Split P Q 0 ds → Split R Q 0 ds
  unfolding Split
  Split-restart R [] s = s
  Split-restart R (x ∷ ds) (h, s) = (h, Split-restart R ds s)

  -- What both conditions imply holds of every device.
  pub Split-all :
      {d : Device} (R : Device → Type 0)
      → (P d → R d)
      → (Q d → R d)
      → (ds : List Device) (i k : ℕ) → get_elem? ds k ≡ some d
      → Split P Q i ds
      → R d
  unfolding Split
  Split-all R p q [] i k e s = cc (e)
  Split-all R p q (x ∷ ds) zero zero e (h, s) = q (subst Q (cc (e)) h)
  Split-all R p q (x ∷ ds) (suc i) zero e (h, s) = p (subst P (cc (e)) h)
  Split-all R p q (x ∷ ds) zero (suc k) e (h, s) = Split-all R p q ds zero k e s
  Split-all R p q (x ∷ ds) (suc i) (suc k) e (h, s) = Split-all R p q ds i k e s

  -- The device at the place of the split
  pub Split-at :
      {d : Device} (ds : List Device) (i : ℕ) → get_elem? ds i ≡ some d → Split P Q i ds → Q d
  unfolding Split
  Split-at [] i e s = cc (e)
  Split-at (x ∷ ds) zero e (h, s) = subst Q (cc (e)) h
  Split-at (x ∷ ds) (suc i) e (h, s) = Split-at ds i e s
