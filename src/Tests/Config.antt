-- ===== src/Tests/Config.antt =====
-- Runs of the configuration readers.
use maestro_core.Base.{
  ◌+◌, ◌-◌, pos, negsuc, true, Option, some, none, List, [], ◌∷◌, Bytes, codes, length, ◌≡◌, refl,
  arith, if◌then◌else◌,
}
use maestro_core.CString.{c_str, skip, trim_end, strchr, isspace}
use maestro_core.Memory.{Mem}
use maestro_core.ConfigHandler.{
  trim, strip_from, fgets, line_entry, all_found, get_value, fresh_slots, values_get, values_held,
  values_dispose,
}
use maestro_core.ConfigHandler.Entries.{entries}
use maestro_core.ConfigHandler.Lookup.{firsts, get_value-firsts}
use maestro_core.ConfigHandler.Copies.{copies, lasts, values_get-lasts}
use maestro_core.ConfigHandler.RoundTrip.{IsEntry, render, entries-render}

abbrev plenty : Mem
plenty = record { grants = λ _. true; asked = 0; live = 0 }

-- The second line is a comment; `port` is assigned twice.
abbrev file : Bytes
file = codes " port = 80 # web\n#x=1\nhost=a#b\nport=81\n"

read_entries :
    entries (length file + 1) file
    ≡ (codes "port", codes "80") ∷ (codes "host", codes "a#b") ∷ (codes "port", codes "81") ∷ []
unfolding entries fgets line_entry trim strip_from c_str skip trim_end strchr isspace
read_entries = refl

abbrev keys : List (Option Bytes)
keys = some (codes "port") ∷ none ∷ []

get_value-firsts_example :
    (let l = firsts 8 (entries (length file + 1) file) keys in
      get_value (some file) keys 8 ≡ (if all_found l then pos 0 else negsuc 1, some l))
get_value-firsts_example = get_value-firsts file keys 8 (omega arith) (omega arith)

values_get-lasts_example :
    (let es = entries (length file + 1) file in
      let n = copies es (fresh_slots keys) in
      (m' : Mem) × (values_get (some file) keys plenty ≡ (pos n, some (lasts es keys), m'))
      × (m'.live ≡ 0 + n)
      × ((values_dispose (lasts es keys) m').live ≡ 0 + n - values_held (lasts es keys)))
values_get-lasts_example = values_get-lasts file keys plenty (λ _. refl) (omega arith)

abbrev one_line : List (Bytes × Bytes)
one_line = (codes "k", codes "v") ∷ []

one_line-IsEntry : IsEntry (codes "k", codes "v")
unfolding isspace
one_line-IsEntry = record {
  key_plain = ((refl, omega arith, omega arith), tt);
  key_nonempty = omega arith;
  key_lacks = (omega arith, tt);
  value_plain = ((refl, omega arith, omega arith), tt);
  short = omega arith;
}

entries-render_example : entries 5 (render one_line) ≡ one_line
unfolding render
entries-render_example = entries-render one_line 5 (one_line-IsEntry, tt) (omega arith)
