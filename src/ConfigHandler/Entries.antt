-- ===== src/ConfigHandler/Entries.antt =====
-- The entries of a file, and the loops over its lines as loops over them.
use maestro_core.Base.{
  ℕ, zero, suc, ◌≤◌, ◌<◌, none, some, List, [], ◌∷◌, Bytes, length, ◌==◌, ◌≡◌, refl, arith,
  Option-cases, Bool-cases, inl, inr,
}
use maestro_core.ConfigHandler.{
  fgets, line_entry, Slot, keep_first, get_loop, Copied, keep_last, values_loop,
}

abbrev pub Entry : Type 0
Entry = Bytes × Bytes

-- The assignments of a file, line by line; a round for each byte is enough.
unfoldable pub entries : ℕ → Bytes → List Entry
entries zero file = []
entries (suc f) [] = []
entries (suc f) (c ∷ file) =
    let r = fgets 511 (c ∷ file) in
    elim (line_entry r.0) [ none ↦ entries f r.1 | some e ↦ e ∷ entries f r.1 ]

fgets-rest : (n : ℕ) (s : Bytes) → length (fgets n s).1 ≤ length s
unfolding fgets
fgets-rest zero s = omega arith
fgets-rest (suc n) [] = omega arith
fgets-rest (suc n) (c ∷ s) = elim (Bool-cases (c == 10)) [
  | inl h ↦ rw (h, fgets) (omega arith)
  | inr h ↦ rw (h, fgets) (omega (arith, fgets-rest n s))
]

-- A call at a file that is not at its end takes at least one byte.
fgets-less : (n c : ℕ) (s : Bytes) → length (fgets (suc n) (c ∷ s)).1 ≤ length s
unfolding fgets
fgets-less n c s = elim (Bool-cases (c == 10)) [
  | inl h ↦ rw (h, fgets) (omega arith)
  | inr h ↦ rw (h, fgets) (fgets-rest n s)
]

unfoldable pub keep_all : ℕ → List Entry → List Slot → List Slot
keep_all max [] l = l
keep_all max ((k, v) ∷ es) l = keep_all max es (keep_first max k v l)

pub get_loop-entries :
    (f max : ℕ) (file : Bytes) (l : List Slot)
    → length file < f
    → get_loop f max file l ≡ some (keep_all max (entries f file) l)
unfolding get_loop entries keep_all
get_loop-entries zero max file l h = absurd (omega arith)
get_loop-entries (suc f) max [] l h = refl
get_loop-entries (suc f) max (c ∷ file) l h =
    elim (Option-cases (line_entry (fgets 511 (c ∷ file)).0)) [
      | inl is ↦
          rw (is, get_loop, entries)
            (get_loop-entries f max (fgets 511 (c ∷ file)).1 l
              (omega (arith, fgets-less 510 c file)))
      | inr ((k, v), is) ↦
          rw (is, get_loop, entries)
            (get_loop-entries f max (fgets 511 (c ∷ file)).1 (keep_first max k v l)
              (omega (arith, fgets-less 510 c file)))
    ]

unfoldable pub copy_all : List Entry → Copied → Copied
copy_all [] r = r
copy_all ((k, v) ∷ es) r = copy_all es (keep_last k v r.count r.mem r.slots)

pub values_loop-entries :
    (f : ℕ) (file : Bytes) (r : Copied)
    → length file < f
    → values_loop f file r ≡ some (copy_all (entries f file) r)
unfolding values_loop entries copy_all
values_loop-entries zero file r h = absurd (omega arith)
values_loop-entries (suc f) [] r h = refl
values_loop-entries (suc f) (c ∷ file) r h =
    elim (Option-cases (line_entry (fgets 511 (c ∷ file)).0)) [
      | inl is ↦
          rw (is, values_loop, entries)
            (values_loop-entries f (fgets 511 (c ∷ file)).1 r
              (omega (arith, fgets-less 510 c file)))
      | inr ((k, v), is) ↦
          rw (is, values_loop, entries)
            (values_loop-entries f (fgets 511 (c ∷ file)).1 (keep_last k v r.count r.mem r.slots)
              (omega (arith, fgets-less 510 c file)))
    ]
