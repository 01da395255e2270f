-- ===== src/ThreadPool/Counts.antt =====
-- Sums over the workers, the callers of `tp_wait` and the calls.
use maestro_core.Base.{
  ℕ, zero, suc, ◌+◌, ◌≤◌, ◌<◌, Option, none, some, List, [], ◌∷◌, ◌++◌, ◌≡◌, refl, arith, length,
  dec_lt,
}

module _ {ℓ} {A : Type ℓ} where
  abbrev pub get_elem? : List A → ℕ → Option A
  get_elem? [] i = none
  get_elem? (x ∷ l) zero = some x
  get_elem? (x ∷ l) (suc i) = get_elem? l i

  abbrev pub set : List A → ℕ → A → List A
  set [] i y = []
  set (x ∷ l) zero y = y ∷ l
  set (x ∷ l) (suc i) y = x ∷ set l i y

  pub length-set : (l : List A) (i : ℕ) (y : A) → length (set l i y) ≡ length l
  length-set [] i y = refl
  length-set (x ∷ l) zero y = refl
  length-set (x ∷ l) (suc i) y = omega (arith, length-set l i y)

module _ {ℓ} {A : Type ℓ} (w : A → ℕ) where
  unfoldable pub total : List A → ℕ
  total [] = 0
  total (x ∷ l) = w x + total l

  pub total-append : (l r : List A) → total (l ++ r) ≡ total l + total r
  unfolding total
  total-append [] r = omega arith
  total-append (x ∷ l) r = omega (arith, total-append l r)

  pub total-set :
      (l : List A) (i : ℕ) {x : A} (y : A)
      → get_elem? l i ≡ some x
      → total (set l i y) + w x ≡ total l + w y
  unfolding total
  total-set [] i y e = cc e
  total-set (x ∷ l) zero y e = ground arith
  total-set (x ∷ l) (suc i) y e = omega (arith, total-set l i y e)

  pub total-zero : ((a : A) → w a ≡ 0) → (l : List A) → total l ≡ 0
  unfolding total
  total-zero h [] = refl
  total-zero h (x ∷ l) = omega (arith, h x, total-zero h l)

  pub total-le : ((a : A) → w a ≤ 1) → (l : List A) → total l ≤ length l
  unfolding total
  total-le h [] = omega arith
  total-le h (x ∷ l) = omega (arith, h x, total-le h l)

  -- Where the sum is not zero, some element counts.
  pub total-found :
      (l : List A) → 0 < total l → (i : ℕ) × (x : A) × (get_elem? l i ≡ some x) × (0 < w x)
  unfolding total
  total-found [] h = absurd (omega arith)
  total-found (x ∷ l) h = elim (dec_lt 0 (w x)) [
    | yes p ↦ (0, x, refl, p)
    | no p ↦ let (i, y, e, q) = total-found l (omega arith) in (suc i, y, e, q)
  ]
