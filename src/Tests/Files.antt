-- ===== src/Tests/Files.antt =====
-- Runs of utils/src/file_utils.c.
use maestro_core.Base.{pos, ◌++◌, true, some, List, [], ◌∷◌, Bytes, codes, ◌≡◌, refl}
use maestro_core.Memory.{Mem}
use maestro_core.FileUtils.{
  Dirent, dt_reg, dt_other, is_dots, has_extension, count_loop, ends_with, may_be_file, add_name,
  list_loop, list_filenames_with_ext, count_files_with_extension, begins_dot, grow, close_list,
  resized,
}
use maestro_core.CString.{equal}
use maestro_core.FileUtils.Extension.{has_extension_iff}
use maestro_core.FileUtils.Listing.{Accounted, wanted, list_filenames_with_ext-Accounted}
use maestro_core.FileUtils.Listing.Count.{files, count_files_with_extension-list_filenames_with_ext}

abbrev spacious : Mem
spacious = record { grants = λ _. true; asked = 0; live = 2 }

abbrev folder : List Dirent
folder =
    record { d_name = codes ".."; d_type = dt_other }
    ∷ record { d_name = codes "a.txt"; d_type = dt_reg }
    ∷ record { d_name = codes "txt"; d_type = dt_reg }
    ∷ record { d_name = codes "b.txt"; d_type = dt_other }
    ∷ []

listed :
    (list_filenames_with_ext (some folder) (codes "txt") spacious).names
    ≡ some (codes "a.txt" ∷ codes "b.txt" ∷ [])
unfolding list_filenames_with_ext list_loop is_dots has_extension begins_dot equal add_name grow
    resized close_list
listed = refl

list_filenames_with_ext-Accounted_example :
    Accounted
      (codes "a.txt" ∷ codes "b.txt" ∷ [])
      spacious
      (list_filenames_with_ext (some folder) (codes "txt") spacious)
unfolding wanted is_dots has_extension begins_dot equal
list_filenames_with_ext-Accounted_example =
    list_filenames_with_ext-Accounted (codes "txt") folder spacious

count_files_with_extension-list_filenames_with_ext_example :
    pos 1 ≡ pos (list_filenames_with_ext (some (files folder)) (codes "txt") spacious).count_out
unfolding count_files_with_extension count_loop is_dots may_be_file ends_with equal
count_files_with_extension-list_filenames_with_ext_example =
    count_files_with_extension-list_filenames_with_ext (codes "txt") folder spacious (λ n. refl)

has_extension_iff_run :
    (has_extension (codes "a.txt") (codes "txt") ≡ true)
    × ((stem : Bytes) × (codes "a.txt" ≡ stem ++ codes ".txt"))
has_extension_iff_run =
    let is : has_extension (codes "a.txt") (codes "txt") ≡ true = yes_it_is in
    (is, (has_extension_iff (codes "a.txt") (codes "txt")).0 is)
  where
    yes_it_is : has_extension (codes "a.txt") (codes "txt") ≡ true
    yes_it_is = (has_extension_iff (codes "a.txt") (codes "txt")).1 (codes "a", refl)
