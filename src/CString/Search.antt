-- ===== src/CString/Search.antt =====
-- What the searches of the C library find.
use maestro_core.Base.{
  ℕ, true, none, some, [], ◌∷◌, ◌++◌, ◌≡◌, ◌↔◌, refl, arith, Bytes, Lacks, Option-cases, inl, inr,
}
use maestro_core.CString.{c_str, strchr, strip_prefix, equal}

pub c_str-Lacks : (s : Bytes) → Lacks 0 s → c_str s ≡ s
unfolding c_str
c_str-Lacks [] h = refl
c_str-Lacks (c ∷ s) h = ground (arith, c_str-Lacks s h.1)

pub Lacks-c_str : (s : Bytes) → Lacks 0 (c_str s)
unfolding c_str
Lacks-c_str [] = tt
Lacks-c_str (c ∷ s) = ground (arith, Lacks-c_str s)

pub strchr-append : (p q : Bytes) (b : ℕ) → Lacks b p → strchr (p ++ b ∷ q) b ≡ some (p, q)
unfolding strchr
strchr-append [] q b h = ground arith
strchr-append (c ∷ p) q b h = ground (arith, strchr-append p q b h.1)

pub strchr-none : (s : Bytes) (b : ℕ) → Lacks b s → strchr s b ≡ none
unfolding strchr
strchr-none [] b h = refl
strchr-none (c ∷ s) b h = ground (arith, strchr-none s b h.1)

pub strchr_sound :
    (s : Bytes) (b : ℕ) {p q : Bytes} → strchr s b ≡ some (p, q) → (s ≡ p ++ b ∷ q) × Lacks b p
unfolding strchr
strchr_sound [] b h = cc
strchr_sound (c ∷ s) b h = elim (Option-cases (strchr s b)) [
  | inl none' ↦ ground arith
  | inr ((p', q'), e) ↦ ground (arith, strchr_sound s b e)
]

pub strchr-eq-none : (s : Bytes) (b : ℕ) → strchr s b ≡ none → Lacks b s
unfolding strchr
strchr-eq-none [] b h = tt
strchr-eq-none (c ∷ s) b h = elim (Option-cases (strchr s b)) [
  | inl e ↦ ground (arith, strchr-eq-none s b e)
  | inr ((p', q'), e) ↦ ground arith
]

pub equal_iff : (a b : Bytes) → (equal a b ≡ true) ↔ (a ≡ b)
unfolding equal
equal_iff [] [] = ground arith
equal_iff (x ∷ a) (y ∷ b) = ground (arith, equal_iff a b)
equal_iff _ _ = ground arith

pub strip_prefix-append : (n s : Bytes) → strip_prefix (n ++ s) n ≡ some s
unfolding strip_prefix
strip_prefix-append [] s = refl
strip_prefix-append (c ∷ n) s = ground (arith, strip_prefix-append n s)
