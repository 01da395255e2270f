-- ===== src/FileUtils.antt =====
-- utils/src/file_utils.c. What the file system answers is an argument: the kind of a path, the
-- entries of a directory, the size and the bytes of a file. `none` in place of the entries or of
-- a file is one that cannot be opened.
pub mod Extension
pub mod Kept
pub mod Listing
use maestro_core.Base.{
  ℕ, zero, suc, ◌+◌, ◌-◌, ◌*◌, ℤ, pos, negsuc, Bool, true, false, not, ◌&&◌, ◌||◌, Option, none,
  some, List, [], ◌∷◌, ◌++◌, Bytes, codes, length, drop, ltb, leb, ◌==◌, if◌then◌else◌,
}
use maestro_core.Memory.{Mem, granted, attempt, release}
use maestro_core.CString.{equal}

-- What `stat` tells of a path; no path is `none`.
pub data PathKind : Type 0 where
  directory regular_file other_path : PathKind

unfoldable pub directory_exists : Option PathKind → Bool
directory_exists (some directory) = true
directory_exists _ = false

unfoldable pub file_exists : Option PathKind → Bool
file_exists (some regular_file) = true
file_exists _ = false

-- `mkdir` made the directory, met something with the name, or failed.
pub data Made : Type 0 where
  made exists_already mkdir_failed : Made

unfoldable pub create_directory_if_not_exists : Option PathKind → Made → ℤ
unfolding directory_exists
create_directory_if_not_exists path answer =
    if directory_exists path
    then pos 0
    else elim answer [ made ↦ pos 0 | exists_already ↦ pos 0 | mkdir_failed ↦ negsuc 0 ]

-- `write_string_to_file`: the result, and the text given to `fputs`.
unfoldable pub write_string_to_file : Bool → Bytes → ℤ × Option Bytes
write_string_to_file opens str = if opens then (pos 0, some str) else (negsuc 0, none)

-- A file that is open: what `ftell` says at its end, where -1 is `none`, and the bytes that
-- `fread` then has for the block.
pub record File : Type 0 where
  pub size : Option ℕ
  pub delivered : Bytes

-- `read_file_to_string`; `none` is undefined: the size -1 asks `malloc` for no byte, and `fread`
-- writes behind that block.
unfoldable pub read_file_to_string : Option File → Mem → Option (Option Bytes × Mem)
read_file_to_string none m = some (none, m)
read_file_to_string (some f) m =
    let given_back : Option Bytes × Mem = (none, release 1 (attempt m)) in
    if granted m
    then elim f.size [
      | none ↦ if length f.delivered == 0 then some given_back else none
      | some n ↦
          some (if length f.delivered == n then (some f.delivered, attempt m) else given_back)
    ]
    else some (none, attempt m)

unfoldable pub begins_dot : Bytes → Bool
begins_dot [] = false
begins_dot (c ∷ s) = c == b'.'

unfoldable pub has_extension : Bytes → Bytes → Bool
unfolding begins_dot
has_extension name ext =
    if ltb (length name) (length ext + 1)
    then false
    else if not (begins_dot (drop (length name - length ext - 1) name))
    then false
    else equal (drop (length name - length ext) name) ext

-- The kind of an entry, as far as the code asks.
pub data EntryType : Type 0 where
  dt_reg dt_unknown dt_other : EntryType

pub record Dirent : Type 0 where
  pub d_name : Bytes
  pub d_type : EntryType

-- The entries `.` and `..`.
unfoldable pub is_dots : Bytes → Bool
is_dots name = equal name (codes ".") || equal name (codes "..")

unfoldable pub may_be_file : EntryType → Bool
may_be_file dt_other = false
may_be_file _ = true

unfoldable pub ends_with : Bytes → Bytes → Bool
ends_with name ext =
    leb (length ext) (length name) && equal (drop (length name - length ext) name) ext

unfoldable pub count_loop : Bytes → List Dirent → ℕ → ℕ
unfolding is_dots may_be_file ends_with
count_loop ext [] count = count
count_loop ext (e ∷ l) count =
    let counted = if ends_with e.d_name ext then count + 1 else count in
    count_loop ext l
      (if is_dots e.d_name then count else if may_be_file e.d_type then counted else count)

unfoldable pub count_files_with_extension : Option (List Dirent) → Bytes → ℤ
unfolding count_loop
count_files_with_extension none ext = negsuc 0
count_files_with_extension (some l) ext = pos (count_loop ext l 0)

-- The array of names; without capacity it is NULL.
pub record Names : Type 0 where
  pub entries : List Bytes
  pub capacity : ℕ

-- The blocks that hold an array of the capacity.
unfoldable pub array_blocks : ℕ → ℕ
array_blocks zero = 0
array_blocks (suc _) = 1

-- `realloc` of an array that has the capacity.
unfoldable pub resized : ℕ → Mem → Mem
resized zero m = attempt m
resized (suc _) m = record (attempt m) { live = m.live }

-- The growth of the array where it is full; `none` where `realloc` fails.
unfoldable pub grow : Names → Mem → Option Names × Mem
unfolding resized
grow a m =
    let new_cap = if a.capacity == 0 then 8 else a.capacity * 2 in
    if length a.entries == a.capacity
    then if granted m
      then (some (record a { capacity = new_cap }), resized a.capacity m)
      else (none, resized a.capacity m)
    else (some a, m)

-- The copies and the array are freed on a failure.
unfoldable pub dropped : Names → Mem → Mem
unfolding array_blocks
dropped a m = release (length a.entries + array_blocks a.capacity) m

-- A name that has the extension.
unfoldable pub add_name : Bytes → Names → Mem → Option Names × Mem
unfolding grow dropped
add_name name a m =
    let g = grow a m in
    elim g.0 [
      | none ↦ (none, dropped a g.1)
      | some b ↦
          if granted g.1
          then (some (record b { entries = b.entries ++ name ∷ [] }), attempt g.1)
          else (none, dropped b (attempt g.1))
    ]

unfoldable pub list_loop : Bytes → List Dirent → Names → Mem → Option Names × Mem
unfolding is_dots has_extension add_name
list_loop ext [] a m = (some a, m)
list_loop ext (e ∷ l) a m =
    let skipped = list_loop ext l a m in
    let r = add_name e.d_name a m in
    let added : Option Names × Mem = elim r.0 [
      | none ↦ (none, r.1)
      | some b ↦ list_loop ext l b r.1
    ] in
    if is_dots e.d_name
    then skipped
    else if not (has_extension e.d_name ext)
    then skipped
    else added

-- What `list_filenames_with_ext` gives: the array, NULL as `none`, whether NULL stands behind its
-- names, and `*_count_out`.
pub record Listed : Type 0 where
  pub names : Option (List Bytes)
  pub terminated : Bool
  pub count_out : ℕ
  pub mem : Mem

-- An array that `realloc` did not make longer.
unfoldable pub unterminated : Names → Option (List Bytes)
unterminated a = if a.capacity == 0 then none else some a.entries

unfoldable pub close_list : Names → Mem → Listed
unfolding unterminated resized
close_list a m =
    if granted m
    then record {
      names = some a.entries;
      terminated = true;
      count_out = length a.entries;
      mem = resized a.capacity m;
    }
    else record {
      names = unterminated a;
      terminated = false;
      count_out = length a.entries;
      mem = resized a.capacity m;
    }

unfoldable pub list_filenames_with_ext : Option (List Dirent) → Bytes → Mem → Listed
unfolding list_loop close_list
list_filenames_with_ext none ext m = record {
  names = none;
  terminated = false;
  count_out = 0;
  mem = m;
}
list_filenames_with_ext (some l) ext m =
    let r = list_loop ext l (record { entries = []; capacity = 0 }) m in
    elim r.0 [
      | none ↦ record { names = none; terminated = false; count_out = 0; mem = r.1 }
      | some a ↦ close_list a r.1
    ]
