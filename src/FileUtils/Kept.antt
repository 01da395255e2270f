-- ===== src/FileUtils/Kept.antt =====
-- The array of names in `list_filenames_with_ext` of utils/src/file_utils.c: how it grows, and
-- which blocks it holds.
use maestro_core.Base.{
  ℕ, zero, suc, ◌+◌, ◌*◌, ◌<◌, ◌≤◌, Bool, false, ◌&&◌, Option, none, some, List, [], ◌∷◌, ◌++◌,
  Bytes, length, length-append, ◌==◌, if◌then◌else◌, ◌≡◌, refl, sym, ap, ◌∙◌, arith, Bool-cases,
  inl, inr,
}
use maestro_core.Memory.{Mem, granted, attempt, release}
use maestro_core.FileUtils.{Names, array_blocks, resized, grow, dropped, add_name}

pub resized-live :
    (c : ℕ) (m : Mem) → (resized c m).live ≡ (if granted m && (c == 0) then m.live + 1 else m.live)
unfolding resized
resized-live zero m = ground arith
resized-live (suc c) m = ground arith

resized-grants : (c : ℕ) (m : Mem) → (resized c m).grants ≡ m.grants
unfolding resized
resized-grants zero m = refl
resized-grants (suc c) m = refl

pub array_blocks-pos : (c : ℕ) → array_blocks c ≡ (if c == 0 then 0 else 1)
unfolding array_blocks
array_blocks-pos zero = refl
array_blocks-pos (suc c) = ground arith

-- An array beside `base` other blocks: one block for each name and one for the array, which is
-- there exactly if it holds a name, and is long enough.
pub record IsKept (base : ℕ) (g : ℕ → Bool) (a : Names) (m : Mem) : Type 0 where
  pub grants : m.grants ≡ g
  pub held : m.live ≡ base + length a.entries + array_blocks a.capacity
  pub fits : length a.entries ≤ a.capacity
  pub used : 0 < a.capacity → 0 < length a.entries

-- The array holds the names `w`; or a request was refused and everything has been released.
pub data Outcome (base : ℕ) (g : ℕ → Bool) (w : List Bytes) : Option Names × Mem → Type 0 where
  kept : (b : Names) (m : Mem) → IsKept base g b m → b.entries ≡ w → Outcome base g w (some b, m)
  lost : (m : Mem) (n : ℕ) → m.live ≡ base → g n ≡ false → Outcome base g w (none, m)

-- Room for one more name; or `realloc` was refused.
pub data Grew (base : ℕ) (g : ℕ → Bool) (a : Names) : Option Names × Mem → Type 0 where
  roomy :
      (c : ℕ) (m : Mem)
      → m.grants ≡ g
      → m.live ≡ base + length a.entries + 1
      → length a.entries < c
      → Grew base g a (some (record a { capacity = c }), m)
  stuck :
      (m : Mem) (n : ℕ)
      → m.live ≡ base + length a.entries + array_blocks a.capacity
      → g n ≡ false
      → Grew base g a (none, m)

pub refused : {g : ℕ → Bool} (m : Mem) → m.grants ≡ g → granted m ≡ false → g m.asked ≡ false
refused m e h = ap (λ (f : ℕ → Bool). f m.asked) (sym e) ∙ h

grow-Grew :
    (base : ℕ) (g : ℕ → Bool) (a : Names) (m : Mem) → IsKept base g a m → Grew base g a (grow a m)
unfolding grow
grow-Grew base g a m k =
    let live = resized-live a.capacity m in
    let blocks = array_blocks-pos a.capacity in
    let held = k.held in
    let fits = k.fits in
    elim (Bool-cases (length a.entries == a.capacity)) [
      | inl full ↦ elim (Bool-cases (granted m)) [
        | inl yes' ↦
            rw (full, yes')
              (roomy (if a.capacity == 0 then 8 else a.capacity * 2) (resized a.capacity m)
                (resized-grants a.capacity m ∙ k.grants) (ground (arith, live, blocks, held, yes'))
                (ground (arith, full)))
        | inr no' ↦
            rw (full, no')
              (stuck (resized a.capacity m) m.asked (ground (arith, live, held, no'))
                (refused m k.grants no'))
      ]
      | inr room ↦ rw room (
          roomy a.capacity m k.grants (ground (arith, blocks, held, fits, room))
            (ground (arith, fits, room)))
    ]

pub add_name-Outcome :
    (base : ℕ) (g : ℕ → Bool) (name : Bytes) (a : Names) (m : Mem)
    → IsKept base g a m
    → Outcome base g (a.entries ++ name ∷ []) (add_name name a m)
unfolding add_name dropped
add_name-Outcome base g name a m k =
    elim (grow-Grew base g a m k)
      as (λ r h. Outcome base g (a.entries ++ name ∷ []) (elim r.0 [
        | none ↦ (none, release (length a.entries + array_blocks a.capacity) r.1)
        | some b ↦
            if granted r.1
            then (some (record b { entries = b.entries ++ name ∷ [] }), attempt r.1)
            else (none, release (length b.entries + array_blocks b.capacity) (attempt r.1))
      ])) [
        | stuck m' n held no' ↦
            lost (release (length a.entries + array_blocks a.capacity) m') n (omega (arith, held))
              no'
        | roomy c m' gr held room ↦
            let blocks = array_blocks-pos c in
            let longer = length-append a.entries (name ∷ []) in
            elim (Bool-cases (granted m')) [
              | inl yes' ↦ rw yes' (
                  kept (record { entries = a.entries ++ name ∷ []; capacity = c })
                    (record m' { asked = m'.asked + 1; live = m'.live + 1 })
                    (record {
                      grants = gr;
                      held = ground (arith, held, room, blocks, longer, yes');
                      fits = omega (arith, room, longer);
                      used = λ p. omega (arith, longer);
                    })
                    refl)
              | inr no' ↦ rw no' (
                  lost
                    (release (length a.entries + array_blocks c)
                      (record m' { asked = m'.asked + 1 }))
                    m'.asked (ground (arith, held, room, blocks, no')) (refused m' gr no'))
            ]
      ]
