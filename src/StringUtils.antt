-- ===== src/StringUtils.antt =====
-- utils/src/string_utils.c
pub mod Parse
use maestro_core.Base.{
  ℕ, zero, suc, ◌+◌, ◌-◌, ◌^◌, ℤ, pos, negsuc, Bool, true, false, not, ◌||◌, ◌⊎◌, inl, inr, Option,
  none, some, [], ◌∷◌, ◌++◌, Bytes, length, take, ltb_ℤ, ◌==◌, if◌then◌else◌,
}
use maestro_core.ErrorCode.{ErrorCode, err_invalid_arg, err_no_memory}
use maestro_core.Memory.{Mem, granted, attempt}
use maestro_core.Numbers.{Strtol, strtol}

is_empty : Bytes → Bool
is_empty [] = true
is_empty (_ ∷ _) = false

-- The checks on what `strtol` gave: `errno`, `endptr`, and the range of `int`.
int_of : Strtol → Option ℤ
unfolding is_empty
int_of r =
    if r.range || not r.found || not (is_empty r.rest)
    then none
    else if ltb_ℤ r.val (negsuc (2 ^ 31 - 1)) || ltb_ℤ (pos (2 ^ 31 - 1)) r.val
    then none
    else some r.val

-- `parse_string_to_int`: at most 36 characters are read; `none` is -1, with `*_int` untouched.
unfoldable pub parse_string_to_int : Bytes → Option ℤ
unfolding int_of
parse_string_to_int s = int_of (strtol (take 36 s))

-- `buffer_append`: the buffer behind `*base_ptr` (NULL is `none`), the number of bytes appended
-- or an error, and the heap. `realloc` makes a new block only from NULL.
pub record Appended : Type 0 where
  pub result : ErrorCode ⊎ ℕ
  pub buffer : Option Bytes
  pub mem : Mem

unfoldable pub contents : Option Bytes → Bytes
contents none = []
contents (some s) = s

unfoldable pub reallocated : Option Bytes → Mem → Mem
reallocated none m = attempt m
reallocated (some _) m = record (attempt m) { live = m.live }

unfoldable pub buffer_append : Option Bytes → Bytes → Mem → Appended
unfolding contents reallocated
buffer_append buf input m =
    if length input == 0
    then record { result = inl err_invalid_arg; buffer = buf; mem = m }
    else if granted m
    then record {
      result = inr (length input);
      buffer = some (contents buf ++ input);
      mem = reallocated buf m;
    }
    else record { result = inl err_no_memory; buffer = buf; mem = reallocated buf m }

-- `char_is_number`: the loop over i = 0 … 9.
is_number_from : ℕ → ℕ → ℕ → Bool
is_number_from zero i c = false
is_number_from (suc rounds) i c =
    let rest = is_number_from rounds (i + 1) c in if c == i + 48 then true else rest

unfoldable pub char_is_number : ℕ → Bool
unfolding is_number_from
char_is_number c = is_number_from 10 0 c

-- `stringcat`; `none` is undefined: the result of `malloc` is not tested before the copy.
unfoldable pub stringcat : Bytes → Bytes → Mem → Option (Bytes × Mem)
stringcat a b m = if granted m then some (a ++ b, attempt m) else none

-- `strdup` of a string that is not NULL.
unfoldable pub strdup : Bytes → Mem → Option Bytes × Mem
strdup s m = (if granted m then some s else none, attempt m)
