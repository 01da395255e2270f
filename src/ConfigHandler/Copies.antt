-- ===== src/ConfigHandler/Copies.antt =====
-- What `config_values_get` copies, counts and loses.
use maestro_core.Base.{
  ℕ, ◌+◌, ◌-◌, ◌<◌, ℤ, pos, true, false, Option, none, some, List, [], ◌∷◌, Bytes, length, ◌==◌,
  if◌then◌else◌, ◌≡◌, refl, arith, ap, sym, ◌∙◌, Bool-cases, inl, inr,
}
use maestro_core.Memory.{Mem, Plentiful}
use maestro_core.ConfigHandler.{
  Slot, asks, fresh_slots, Copied, keep_last, values_get, values_held, values_dispose,
}
use maestro_core.ConfigHandler.Entries.{Entry, entries, copy_all, values_loop-entries}
use maestro_core.ConfigHandler.Lookup.{last_value, with_values, with_values-id}

-- How many slots ask for a key.
unfoldable pub asking : Bytes → List Slot → ℕ
asking k [] = 0
asking k (s ∷ l) = (if asks s k then 1 else 0) + asking k l

-- How many copies the entries make.
unfoldable pub copies : List Entry → List Slot → ℕ
copies [] l = 0
copies ((k, v) ∷ es) l = asking k l + copies es l

abbrev one_entry : Bytes → Bytes → Option Bytes → Option Bytes → Option Bytes
one_entry k v key value = last_value key ((k, v) ∷ []) value

record Keeps (k v : Bytes) (count : ℕ) (m : Mem) (l : List Slot) (r : Copied) : Type 0 where
  slots_are : r.slots ≡ with_values (one_entry k v) l
  counted : r.count ≡ count + asking k l
  plenty : Plentiful r.mem
  allocated : r.mem.live ≡ m.live + asking k l

other_slot : (k v : Bytes) (s : Slot) → asks s k ≡ false → one_entry k v s.key s.value ≡ s.value
unfolding asks last_value
other_slot k v s h = ground (arith, h)

asking_slot : (k v : Bytes) (s : Slot) → asks s k ≡ true → one_entry k v s.key s.value ≡ some v
unfolding asks last_value
asking_slot k v s h = ground (arith, h)

keep_last-Keeps :
    (k v : Bytes) (count : ℕ) (m : Mem) (l : List Slot)
    → Plentiful m
    → Keeps k v count m l (keep_last k v count m l)
unfolding keep_last asking with_values
keep_last-Keeps k v count m [] p = record {
  slots_are = refl;
  counted = omega arith;
  plenty = p;
  allocated = omega arith;
}
keep_last-Keeps k v count m (s ∷ l) p = elim (Bool-cases (asks s k)) [
  | inl h ↦
      let after : Mem = record m { asked = m.asked + 1; live = m.live + 1 } in
      let rest = keep_last-Keeps k v (count + 1) after l p in
      rw (h, p m.asked, keep_last)
        (record {
          slots_are =
              ap (λ (r : List Slot). record s { value = some v } ∷ r) rest.slots_are
              ∙ ap (λ (w : Option Bytes). record s { value = w } ∷ with_values (one_entry k v) l)
                  (sym (asking_slot k v s h));
          counted = ground (arith, rest.counted, h);
          plenty = rest.plenty;
          allocated = ground (arith, rest.allocated, h);
        })
  | inr h ↦
      let rest = keep_last-Keeps k v count m l p in
      rw (h, keep_last)
        (record {
          slots_are =
              ap (λ (r : List Slot). s ∷ r) rest.slots_are
              ∙ ap (λ (w : Option Bytes). record s { value = w } ∷ with_values (one_entry k v) l)
                  (sym (other_slot k v s h));
          counted = ground (arith, rest.counted, h);
          plenty = rest.plenty;
          allocated = ground (arith, rest.allocated, h);
        })
]

-- Keys do not change.
asking-with_values :
    (f : Option Bytes → Option Bytes → Option Bytes) (k : Bytes) (l : List Slot)
    → asking k (with_values f l) ≡ asking k l
unfolding asking with_values asks
asking-with_values f k [] = refl
asking-with_values f k (s ∷ l) = omega (arith, asking-with_values f k l)

copies-with_values :
    (f : Option Bytes → Option Bytes → Option Bytes) (es : List Entry) (l : List Slot)
    → copies es (with_values f l) ≡ copies es l
unfolding copies
copies-with_values f [] l = refl
copies-with_values f ((k, v) ∷ es) l =
    omega (arith, asking-with_values f k l, copies-with_values f es l)

last_value-cons :
    (es : List Entry) (k v : Bytes) (key value : Option Bytes)
    → last_value key es (one_entry k v key value) ≡ last_value key ((k, v) ∷ es) value
unfolding last_value
last_value-cons es k v none value = last_value-null es value
  where
    last_value-null :
        (fs : List Entry) (w : Option Bytes)
        → last_value none fs w ≡ last_value none ((k, v) ∷ fs) w
    last_value-null fs w = refl
last_value-cons es k v (some j) value = refl

with_values-cons :
    (es : List Entry) (k v : Bytes) (l : List Slot)
    → with_values (λ key value. last_value key es value) (with_values (one_entry k v) l)
      ≡ with_values (λ key value. last_value key ((k, v) ∷ es) value) l
unfolding with_values
with_values-cons es k v [] = refl
with_values-cons es k v (s ∷ l) =
    ap
      (λ (w : Option Bytes).
        record s { value = w }
        ∷ with_values (λ key value. last_value key es value) (with_values (one_entry k v) l))
      (last_value-cons es k v s.key s.value)
    ∙ ap (λ (r : List Slot). record s { value = last_value s.key ((k, v) ∷ es) s.value } ∷ r)
        (with_values-cons es k v l)

record Copies (es : List Entry) (count live : ℕ) (l : List Slot) (r : Copied) : Type 0 where
  slots_are : r.slots ≡ with_values (λ key value. last_value key es value) l
  counted : r.count ≡ count + copies es l
  allocated : r.mem.live ≡ live + copies es l

last_value-nil : (key value : Option Bytes) → last_value key [] value ≡ value
unfolding last_value
last_value-nil none value = refl
last_value-nil (some j) value = refl

copy_all-Copies :
    (es : List Entry) (r : Copied)
    → Plentiful r.mem
    → Copies es r.count r.mem.live r.slots (copy_all es r)
unfolding copy_all copies
copy_all-Copies [] r p = record {
  slots_are = sym (with_values-id (λ key value. last_value key [] value) last_value-nil r.slots);
  counted = omega arith;
  allocated = omega arith;
}
copy_all-Copies ((k, v) ∷ es) r p =
    let one = keep_last-Keeps k v r.count r.mem r.slots p in
    let rest = copy_all-Copies es (keep_last k v r.count r.mem r.slots) one.plenty in
    let same = ap (copies es) one.slots_are ∙ copies-with_values (one_entry k v) es r.slots in
    record {
      slots_are =
          rest.slots_are
          ∙ ap (with_values (λ key value. last_value key es value)) one.slots_are
          ∙ with_values-cons es k v r.slots;
      counted = omega (arith, rest.counted, one.counted, same);
      allocated = omega (arith, rest.allocated, one.allocated, same);
    }

-- The answer for each key: its last value.
unfoldable pub lasts : List Entry → List (Option Bytes) → List Slot
lasts es [] = []
lasts es (key ∷ keys) = record { key = key; value = last_value key es none } ∷ lasts es keys

with_values-lasts :
    (es : List Entry) (keys : List (Option Bytes))
    → with_values (λ key value. last_value key es value) (fresh_slots keys) ≡ lasts es keys
unfolding with_values lasts
with_values-lasts es [] = refl
with_values-lasts es (key ∷ keys) =
    ap (λ (r : List Slot). record { key = key; value = last_value key es none } ∷ r)
      (with_values-lasts es keys)

-- With memory granted, `config_values_get` on a file that can be opened, for at least one key,
-- gives every key a copy of its last value. The result counts a copy for each line and each key
-- that it assigns, and so many blocks are live in the end; `config_values_dispose` releases one
-- for each key that has a value.
pub values_get-lasts :
    (bytes : Bytes) (keys : List (Option Bytes)) (m : Mem)
    → Plentiful m
    → 0 < length keys
    → (let es = entries (length bytes + 1) bytes in
        let n = copies es (fresh_slots keys) in
        (m' : Mem) × (values_get (some bytes) keys m ≡ (pos n, some (lasts es keys), m'))
        × (m'.live ≡ m.live + n)
        × ((values_dispose (lasts es keys) m').live ≡ m.live + n - values_held (lasts es keys)))
unfolding values_get values_dispose
values_get-lasts bytes keys m p k =
    let n : (length keys == 0) ≡ false = ground arith in
    let es = entries (length bytes + 1) bytes in
    let begin : Copied = record { slots = fresh_slots keys; count = 0; mem = m } in
    let c = copy_all-Copies es begin p in
    let l = values_loop-entries (length bytes + 1) bytes begin (omega arith) in
    (
      (copy_all es begin).mem,
      rw (n, l)
          (counted_all (copy_all es begin) (c.counted ∙ omega arith)
            (c.slots_are ∙ with_values-lasts es keys)),
      c.allocated,
      ap (λ k. k - values_held (lasts es keys)) c.allocated,
    )
  where
    counted_all :
        {n : ℕ} {slots : List Slot} (r : Copied)
        → r.count ≡ n
        → r.slots ≡ slots
        → ◌≡◌ {A = ℤ × Option (List Slot) × Mem}
            (pos r.count, some r.slots, r.mem)
            (pos n, some slots, r.mem)
    counted_all r a b = cc
