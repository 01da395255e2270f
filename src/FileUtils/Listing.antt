-- ===== src/FileUtils/Listing.antt =====
-- What `list_filenames_with_ext` of utils/src/file_utils.c lists, and which blocks it keeps.
pub mod Count
use maestro_core.Base.{
  ℕ, zero, suc, ◌+◌, ◌-◌, ◌*◌, ◌<◌, ◌≤◌, Bool, true, false, not, ◌&&◌, Option, none, some, List, [],
  ◌∷◌, ◌++◌, append_assoc, append-nil, Bytes, length, length-append, ◌==◌, if◌then◌else◌, ◌≡◌, refl,
  sym, ap, subst, ◌∙◌, arith, Bool-cases, inl, inr,
}
use maestro_core.Memory.{Mem, granted, attempt, release}
use maestro_core.FileUtils.{
  Dirent, is_dots, has_extension, Names, array_blocks, resized, grow, dropped, add_name, list_loop,
  unterminated, close_list, Listed, list_filenames_with_ext,
}
use maestro_core.FileUtils.Kept.{
  resized-live, array_blocks-pos, IsKept, Outcome, kept, lost, refused, add_name-Outcome,
}

-- The names with the extension, but for `.` and `..`.
unfoldable pub wanted : Bytes → List Dirent → List Bytes
wanted ext [] = []
wanted ext (e ∷ l) =
    if not (is_dots e.d_name) && has_extension e.d_name ext
    then e.d_name ∷ wanted ext l
    else wanted ext l

-- The rest of the loop behind a name that was added.
then_list :
    (base : ℕ) (g : ℕ → Bool) (ext : Bytes) (l : List Dirent) (a : Names) (name : Bytes)
    → ((b : Names) (m : Mem)
        → IsKept base g b m
        → Outcome base g (b.entries ++ wanted ext l) (list_loop ext l b m))
    → {r : Option Names × Mem} → Outcome base g (a.entries ++ name ∷ []) r
    → Outcome base g
        (a.entries ++ name ∷ wanted ext l)
        (elim r.0 [ none ↦ (none, r.1) | some b ↦ list_loop ext l b r.1 ])
then_list base g ext l a name rest (lost m n is no') = lost m n is no'
then_list base g ext l a name rest (kept b m k is) =
    subst (λ (w : List Bytes). Outcome base g w (list_loop ext l b m))
      (ap (λ (w : List Bytes). w ++ wanted ext l) is
        ∙ append_assoc a.entries (name ∷ []) (wanted ext l))
      (rest b m k)

list_loop-Outcome :
    (base : ℕ) (g : ℕ → Bool) (ext : Bytes) (l : List Dirent) (a : Names) (m : Mem)
    → IsKept base g a m
    → Outcome base g (a.entries ++ wanted ext l) (list_loop ext l a m)
unfolding list_loop wanted
list_loop-Outcome base g ext [] a m k = kept a m k (sym (append-nil a.entries))
list_loop-Outcome base g ext (e ∷ l) a m k = elim (Bool-cases (is_dots e.d_name)) [
  | inl dots ↦ rw dots (list_loop-Outcome base g ext l a m k)
  | inr name ↦ elim (Bool-cases (has_extension e.d_name ext)) [
    | inr other ↦ rw (name, other) (list_loop-Outcome base g ext l a m k)
    | inl has ↦
        rw (name, has)
          (then_list base g ext l a e.d_name (list_loop-Outcome base g ext l)
            (add_name-Outcome base g e.d_name a m k))
  ]
]

-- What the caller gets: every wanted name, with NULL behind them; every wanted name without it; or
-- nothing. One block stands for each name and one for the array, and all other blocks are as they
-- were before.
pub data Accounted (w : List Bytes) (m : Mem) (r : Listed) : Type 0 where
  complete :
      r.names ≡ some w
      → r.terminated ≡ true
      → r.count_out ≡ length w
      → r.mem.live ≡ m.live + length w + 1
      → Accounted w m r
  open_ended :
      (n : ℕ)
      → m.grants n ≡ false
      → r.names ≡ (if length w == 0 then none else some w)
      → r.terminated ≡ false
      → r.count_out ≡ length w
      → r.mem.live ≡ m.live + length w + (if length w == 0 then 0 else 1)
      → Accounted w m r
  failed :
      (n : ℕ)
      → m.grants n ≡ false
      → r.names ≡ none
      → r.count_out ≡ 0
      → r.mem.live ≡ m.live
      → Accounted w m r

close_list-Accounted :
    (w : List Bytes) (m : Mem) (a : Names) (m' : Mem)
    → IsKept m.live m.grants a m'
    → a.entries ≡ w
    → Accounted w m (close_list a m')
unfolding close_list unterminated
close_list-Accounted w m a m' k is =
    let live = resized-live a.capacity m' in
    let blocks = array_blocks-pos a.capacity in
    let size = ap (λ (l : List Bytes). length l) is in
    let held = k.held in
    let fits = k.fits in
    let used = k.used in
    elim (Bool-cases (granted m')) [
      | inl yes' ↦
          rw yes'
            (complete (ap some is) refl size (ground (arith, live, blocks, size, held, fits, yes')))
      | inr no' ↦ rw no' (
          open_ended m'.asked (refused m' k.grants no') (ground (arith, is, size, fits, used)) refl
            size (ground (arith, live, blocks, size, held, fits, used, no')))
    ]

-- For every directory, extension and refusal of memory `list_filenames_with_ext` gives the names
-- but for `.` and `..` that have the extension, all and in their order, with their count and NULL
-- behind them; where `m` refuses a request, also the same without that NULL, or NULL and 0. It
-- keeps one block for each name given and one for the array, and on a failure none.
pub list_filenames_with_ext-Accounted :
    (ext : Bytes) (l : List Dirent) (m : Mem)
    → Accounted (wanted ext l) m (list_filenames_with_ext (some l) ext m)
unfolding list_filenames_with_ext array_blocks
list_filenames_with_ext-Accounted ext l m =
    elim (list_loop-Outcome m.live m.grants ext l (record { entries = []; capacity = 0 }) m
        (record {
          grants = refl;
          held = omega arith;
          fits = omega arith;
          used = λ p. absurd (omega (arith, p));
        }))
      as (λ r h. Accounted (wanted ext l) m (elim r.0 [
        | none ↦ record { names = none; terminated = false; count_out = 0; mem = r.1 }
        | some a ↦ close_list a r.1
      ])) [
        | kept b m' k is ↦ close_list-Accounted (wanted ext l) m b m' k is
        | lost m' n is no' ↦ failed n no' refl refl is
      ]
