-- ===== src/FileUtils/Listing/Count.antt =====
-- `count_files_with_extension` beside `list_filenames_with_ext`, both of utils/src/file_utils.c.
use maestro_core.Base.{
  ℕ, ◌+◌, pos, some, List, [], ◌∷◌, Bytes, length, if◌then◌else◌, ◌≡◌, ap, arith, Bool-cases, inl,
  inr,
}
use maestro_core.Memory.{Mem, Plentiful}
use maestro_core.FileUtils.{
  Dirent, is_dots, may_be_file, ends_with, count_loop, count_files_with_extension,
  list_filenames_with_ext,
}
use maestro_core.FileUtils.Extension.{has_extension-ends_with}
use maestro_core.FileUtils.Listing.{
  wanted, complete, open_ended, failed, list_filenames_with_ext-Accounted,
}

-- The entries that may be regular files.
unfoldable pub files : List Dirent → List Dirent
files [] = []
files (e ∷ l) = if may_be_file e.d_type then e ∷ files l else files l

count_loop-wanted :
    (ext : Bytes) (l : List Dirent) (n : ℕ)
    → count_loop (b'.' ∷ ext) l n ≡ n + length (wanted ext (files l))
unfolding count_loop wanted files
count_loop-wanted ext [] n = omega arith
count_loop-wanted ext (e ∷ l) n =
    let has = has_extension-ends_with e.d_name ext in
    let same = count_loop-wanted ext l n in
    let one_more = count_loop-wanted ext l (n + 1) in
    elim (Bool-cases (may_be_file e.d_type)) [
      | inr other ↦ elim (Bool-cases (is_dots e.d_name)) [
        | inl dots ↦ rw (other, dots) same
        | inr name ↦ rw (other, name) same
      ]
      | inl file ↦ elim (Bool-cases (is_dots e.d_name)) [
        | inl dots ↦ rw (file, dots) same
        | inr name ↦ elim (Bool-cases (ends_with e.d_name (b'.' ∷ ext))) [
          | inr short ↦ rw (file, name, has, short) same
          | inl ends ↦ rw (file, name, has, ends) (omega (arith, one_more))
        ]
      ]
    ]

-- With memory granted, `count_files_with_extension` counts, for a dot and an extension, as many
-- names as `list_filenames_with_ext` lists for the extension in a directory that holds the entries
-- which may be regular files, and no others.
pub count_files_with_extension-list_filenames_with_ext :
    (ext : Bytes) (l : List Dirent) (m : Mem)
    → Plentiful m
    → count_files_with_extension (some l) (b'.' ∷ ext)
      ≡ pos (list_filenames_with_ext (some (files l)) ext m).count_out
unfolding count_files_with_extension
count_files_with_extension-list_filenames_with_ext ext l m p =
    elim (list_filenames_with_ext-Accounted ext (files l) m) [
      | complete _ _ n _ ↦ ap pos (omega (arith, count_loop-wanted ext l 0, n))
      | open_ended n no' _ _ _ _ ↦ cc (p n, no')
      | failed n no' _ _ _ ↦ cc (p n, no')
    ]
