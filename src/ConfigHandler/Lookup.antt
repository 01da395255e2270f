-- ===== src/ConfigHandler/Lookup.antt =====
-- Which values the two readers find.
use maestro_core.Base.{
  ℕ, ◌+◌, ◌-◌, ◌<◌, pos, negsuc, true, false, Option, none, some, List, [], ◌∷◌, Bytes, length,
  take, ◌==◌, if◌then◌else◌, ◌≡◌, refl, arith, ap, sym, ◌∙◌, Bool-cases, inl, inr,
}
use maestro_core.CString.{equal}
use maestro_core.ConfigHandler.{Slot, keep_one, asks, keep_first, fresh_slots, all_found, get_value}
use maestro_core.ConfigHandler.Entries.{Entry, entries, keep_all, get_loop-entries}

-- The value of the first entry with the key, and of the last.
unfoldable pub first_value : Option Bytes → List Entry → Option Bytes
first_value none es = none
first_value (some j) [] = none
first_value (some j) ((k, v) ∷ es) = if equal j k then some v else first_value (some j) es

unfoldable pub last_value : Option Bytes → List Entry → Option Bytes → Option Bytes
last_value none es before = before
last_value (some j) [] before = before
last_value (some j) ((k, v) ∷ es) before =
    last_value (some j) es (if equal j k then some v else before)

-- A slot after the entries, where it keeps what it had.
settled : ℕ → List Entry → Option Bytes → Option Bytes → Option Bytes
settled max es key (some v) = some v
settled max es key none = elim (first_value key es) [
  | none ↦ none
  | some v ↦ some (take (max - 1) v)
]

unfoldable pub with_values : (Option Bytes → Option Bytes → Option Bytes) → List Slot → List Slot
with_values f [] = []
with_values f (s ∷ l) = record s { value = f s.key s.value } ∷ with_values f l

settled-none : (max : ℕ) (key value : Option Bytes) → settled max [] key value ≡ value
unfolding settled first_value
settled-none max none none = refl
settled-none max (some j) none = refl
settled-none max key (some v) = refl

pub with_values-id :
    (f : Option Bytes → Option Bytes → Option Bytes)
    → ((key value : Option Bytes) → f key value ≡ value)
    → (l : List Slot) → with_values f l ≡ l
unfolding with_values
with_values-id f h [] = refl
with_values-id f h (s ∷ l) =
    ap (λ (v : Option Bytes). record s { value = v } ∷ with_values f l) (h s.key s.value)
    ∙ ap (λ (r : List Slot). s ∷ r) (with_values-id f h l)

-- One more entry at the front.
keep_one-same :
    (max : ℕ) (k v j : Bytes)
    → equal j k ≡ true
    → keep_one max k v (record { key = some j; value = none })
      ≡ record { key = some j; value = some (take (max - 1) v) }
unfolding keep_one asks
keep_one-same max k v j h = rw (h, keep_one) refl

keep_one-other :
    (max : ℕ) (k v j : Bytes)
    → equal j k ≡ false
    → keep_one max k v (record { key = some j; value = none })
      ≡ record { key = some j; value = none }
unfolding keep_one asks
keep_one-other max k v j h = rw (h, keep_one) refl

settled-same :
    (max : ℕ) (k v j : Bytes) (es : List Entry)
    → equal j k ≡ true
    → settled max ((k, v) ∷ es) (some j) none ≡ some (take (max - 1) v)
unfolding settled first_value
settled-same max k v j es h = rw (h, settled) refl

settled-other :
    (max : ℕ) (k v j : Bytes) (es : List Entry)
    → equal j k ≡ false
    → settled max ((k, v) ∷ es) (some j) none ≡ settled max es (some j) none
unfolding settled first_value
settled-other max k v j es h = rw (h, settled) refl

settled-keep_one :
    (max : ℕ) (k v : Bytes) (es : List Entry) (key value : Option Bytes)
    → (let s = keep_one max k v (record { key = key; value = value }) in
        record s { value = settled max es s.key s.value })
      ≡ record { key = key; value = settled max ((k, v) ∷ es) key value }
unfolding keep_one settled first_value asks
settled-keep_one max k v es none none = refl
settled-keep_one max k v es none (some w) = refl
settled-keep_one max k v es (some j) (some w) = refl
settled-keep_one max k v es (some j) none = elim (Bool-cases (equal j k)) [
  | inl h ↦
      ap (λ (s : Slot). record s { value = settled max es s.key s.value })
        (keep_one-same max k v j h)
      ∙ ap (λ (w : Option Bytes). record { key = some j; value = w })
          (sym (settled-same max k v j es h))
  | inr h ↦
      ap (λ (s : Slot). record s { value = settled max es s.key s.value })
        (keep_one-other max k v j h)
      ∙ ap (λ (w : Option Bytes). record { key = some j; value = w })
          (sym (settled-other max k v j es h))
]

settled-keep_first :
    (max : ℕ) (k v : Bytes) (es : List Entry) (l : List Slot)
    → with_values (settled max es) (keep_first max k v l)
      ≡ with_values (settled max ((k, v) ∷ es)) l
unfolding with_values keep_first
settled-keep_first max k v es [] = refl
settled-keep_first max k v es (s ∷ l) =
    ap (λ (t : Slot). t ∷ with_values (settled max es) (keep_first max k v l))
      (settled-keep_one max k v es s.key s.value)
    ∙ ap (λ (r : List Slot). record s { value = settled max ((k, v) ∷ es) s.key s.value } ∷ r)
        (settled-keep_first max k v es l)

keep_all-settled :
    (max : ℕ) (es : List Entry) (l : List Slot) → keep_all max es l ≡ with_values (settled max es) l
unfolding keep_all
keep_all-settled max [] l = sym (with_values-id (settled max []) (settled-none max) l)
keep_all-settled max ((k, v) ∷ es) l =
    keep_all-settled max es (keep_first max k v l) ∙ settled-keep_first max k v es l

-- The answer for each key: its first value, cut to `max - 1` bytes.
unfoldable pub firsts : ℕ → List Entry → List (Option Bytes) → List Slot
firsts max es [] = []
firsts max es (key ∷ keys) =
    record {
      key = key;
      value = elim (first_value key es) [ none ↦ none | some v ↦ some (take (max - 1) v) ];
    }
    ∷ firsts max es keys

with_values-fresh :
    (max : ℕ) (es : List Entry) (keys : List (Option Bytes))
    → with_values (settled max es) (fresh_slots keys) ≡ firsts max es keys
unfolding with_values firsts settled
with_values-fresh max es [] = refl
with_values-fresh max es (key ∷ keys) =
    ap (λ (r : List Slot). record { key = key; value = settled max es key none } ∷ r)
      (with_values-fresh max es keys)

-- `config_get_value` on a file that can be opened, for at least one key and a positive length:
-- every key has the value of the first line that assigns it, cut to one byte less than that
-- length, and the result is 0 exactly if each key has one, and else -2.
pub get_value-firsts :
    (bytes : Bytes) (keys : List (Option Bytes)) (max : ℕ)
    → 0 < max
    → 0 < length keys
    → (let l = firsts max (entries (length bytes + 1) bytes) keys in
        get_value (some bytes) keys max ≡ (if all_found l then pos 0 else negsuc 1, some l))
unfolding get_value
get_value-firsts bytes keys max h k =
    let m : (max == 0) ≡ false = ground arith in
    let n : (length keys == 0) ≡ false = ground arith in
    let l =
      get_loop-entries (length bytes + 1) max bytes (fresh_slots keys) (omega arith)
      ∙ ap some (
          keep_all-settled max (entries (length bytes + 1) bytes) (fresh_slots keys)
          ∙ with_values-fresh max (entries (length bytes + 1) bytes) keys) in
    rw (m, n, l) refl
