-- ===== src/ConfigHandler.antt =====
-- utils/src/config_handler.c: files of lines `key=value`. A file is its bytes, `none` where it
-- cannot be opened.
pub mod Entries
pub mod Lookup
pub mod Copies
pub mod RoundTrip
use maestro_core.Base.{
  ℕ, zero, suc, ◌+◌, ◌-◌, ℤ, pos, negsuc, Bool, true, false, not, ◌&&◌, ◌||◌, Option, none, some,
  List, [], ◌∷◌, Bytes, length, take, ◌==◌, if◌then◌else◌,
}
use maestro_core.CString.{c_str, skip, trim_end, strchr, equal, isspace}
use maestro_core.Memory.{Mem, granted, attempt, release}

-- `trim`
unfoldable pub trim : Bytes → Bytes
trim s = trim_end isspace (skip isspace (c_str s))

-- `strip_inline_comment`; the flag says that a `#` would begin a comment here.
unfoldable pub strip_from : Bool → Bytes → Bytes
strip_from opens [] = []
strip_from opens (c ∷ s) = if c == b'#' && opens then [] else c ∷ strip_from (isspace c) s

-- `fgets` with room for `n` characters: the line with its newline, and the rest of the file.
unfoldable pub fgets : ℕ → Bytes → Bytes × Bytes
fgets zero s = ([], s)
fgets (suc n) [] = ([], [])
fgets (suc n) (c ∷ s) =
    let rest = fgets n s in if c == 10 then (c ∷ [], s) else (c ∷ rest.0, rest.1)

-- Behind the test for a comment.
entry_of : Bytes → Option (Bytes × Bytes)
entry_of t = elim (strchr t b'=') [
  | none ↦ none
  | some (k, v) ↦ some (trim k, trim (strip_from true (trim v)))
]

unfoldable pub trimmed_entry : Bytes → Option (Bytes × Bytes)
unfolding entry_of
trimmed_entry [] = none
trimmed_entry (c ∷ t) = if c == b'#' then none else entry_of (c ∷ t)

-- What a line assigns, if it does.
unfoldable pub line_entry : Bytes → Option (Bytes × Bytes)
unfolding trimmed_entry
line_entry line = trimmed_entry (trim line)

-- A key that is asked for, which may be NULL, and the value found for it.
pub record Slot : Type 0 where
  pub key : Option Bytes
  pub value : Option Bytes

unfoldable pub asks : Slot → Bytes → Bool
asks s k = elim s.key [ none ↦ false | some j ↦ equal j k ]

is_none : Option Bytes → Bool
is_none none = true
is_none (some _) = false

-- `config_get_value`, one assignment: a value is cut to `max - 1` bytes, and kept once found.
unfoldable pub keep_one : ℕ → Bytes → Bytes → Slot → Slot
unfolding is_none
keep_one max k v s =
    if is_none s.value && asks s k then record s { value = some (take (max - 1) v) } else s

unfoldable pub keep_first : ℕ → Bytes → Bytes → List Slot → List Slot
keep_first max k v [] = []
keep_first max k v (s ∷ l) = keep_one max k v s ∷ keep_first max k v l

-- The loop over the lines; one round more than there are bytes is enough.
unfoldable pub get_loop : ℕ → ℕ → Bytes → List Slot → Option (List Slot)
get_loop zero max file l = none
get_loop (suc f) max [] l = some l
get_loop (suc f) max (c ∷ file) l =
    let r = fgets 511 (c ∷ file) in
    elim (line_entry r.0) [
      | none ↦ get_loop f max r.1 l
      | some (k, v) ↦ get_loop f max r.1 (keep_first max k v l)
    ]

unfoldable pub all_found : List Slot → Bool
unfolding is_none
all_found [] = true
all_found (s ∷ l) = not (is_none s.value) && all_found l

abbrev pub fresh_slots : List (Option Bytes) → List Slot
fresh_slots [] = []
fresh_slots (k ∷ keys) = record { key = k; value = none } ∷ fresh_slots keys

-- `none` for the slots means that the buffers of the caller are untouched.
unfoldable pub get_value : Option Bytes → List (Option Bytes) → ℕ → ℤ × Option (List Slot)
get_value file keys max = if max == 0 || length keys == 0 then (negsuc 1, none) else elim file [
  | none ↦ (negsuc 0, none)
  | some bytes ↦ elim (get_loop (length bytes + 1) max bytes (fresh_slots keys)) [
    | none ↦ (negsuc 1, none)
    | some l ↦ (if all_found l then pos 0 else negsuc 1, some l)
  ]
]

-- `config_values_get`, one assignment: every slot that asks gets a copy, whatever it held.
pub record Copied : Type 0 where
  pub slots : List Slot
  pub count : ℕ
  pub mem : Mem

abbrev pub onto : Slot → Copied → Copied
onto s r = record r { slots = s ∷ r.slots }

-- The slots in order, with the count and the allocator so far; `strdup` may be refused.
unfoldable pub keep_last : Bytes → Bytes → ℕ → Mem → List Slot → Copied
keep_last k v count m [] = record { slots = []; count = count; mem = m }
keep_last k v count m (s ∷ l) =
    let copied = onto (record s { value = some v }) (keep_last k v (count + 1) (attempt m) l) in
    let refused = onto (record s { value = none }) (keep_last k v count (attempt m) l) in
    let other = onto s (keep_last k v count m l) in
    if asks s k then if granted m then copied else refused else other

unfoldable pub values_loop : ℕ → Bytes → Copied → Option Copied
values_loop zero file r = none
values_loop (suc f) [] r = some r
values_loop (suc f) (c ∷ file) r =
    let l = fgets 511 (c ∷ file) in
    elim (line_entry l.0) [
      | none ↦ values_loop f l.1 r
      | some (k, v) ↦ values_loop f l.1 (keep_last k v r.count r.mem r.slots)
    ]

-- The result is the count, or -1 with the caller's array untouched.
unfoldable pub values_get : Option Bytes → List (Option Bytes) → Mem → ℤ × Option (List Slot) × Mem
values_get file keys m = if length keys == 0 then (negsuc 0, none, m) else elim file [
  | none ↦ (negsuc 0, none, m)
  | some bytes ↦
      elim (values_loop (length bytes + 1) bytes
        (record { slots = fresh_slots keys; count = 0; mem = m })) [
          | none ↦ (negsuc 0, none, m)
          | some r ↦ (pos r.count, some r.slots, r.mem)
        ]
]

-- `config_values_dispose`
unfoldable pub values_held : List Slot → ℕ
unfolding is_none
values_held [] = 0
values_held (s ∷ l) = (if is_none s.value then 0 else 1) + values_held l

unfoldable pub values_dispose : List Slot → Mem → Mem
unfolding values_held
values_dispose l m = release (values_held l) m
