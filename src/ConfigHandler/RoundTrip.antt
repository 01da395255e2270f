-- ===== src/ConfigHandler/RoundTrip.antt =====
-- A file that was written from its entries is read as these entries.
use maestro_core.Base.{
  ℕ, zero, suc, ◌+◌, ◌<◌, Bool, true, false, Option, some, List, [], ◌∷◌, ◌++◌, Bytes, Lacks, All,
  All-append, length, ◌≡◌, ◌≢◌, refl, arith, ap, ◌∙◌, length-append,
}
use maestro_core.CString.{c_str, skip, trim_end, trim_cons, isspace}
use maestro_core.CString.Search.{c_str-Lacks, strchr-append}
use maestro_core.ConfigHandler.{trim, strip_from, fgets, entry_of, trimmed_entry, line_entry}
use maestro_core.ConfigHandler.Entries.{Entry, entries}

-- Neither white space nor NUL nor the sign of a comment.
abbrev pub IsPlain : ℕ → Type 0
IsPlain c = (isspace c ≡ false) × (c ≢ 0) × (c ≢ b'#')

-- A key and a value that a line can hold.
pub record IsEntry (e : Entry) : Type 0 where
  pub key_plain : All IsPlain e.0
  pub key_nonempty : 0 < length e.0
  pub key_lacks : Lacks b'=' e.0
  pub value_plain : All IsPlain e.1
  pub short : length e.0 + length e.1 < 510

unfoldable pub render : List Entry → Bytes
render [] = []
render ((k, v) ∷ es) = (k ++ (b'=' ∷ v)) ++ (10 ∷ render es)

fgets-line :
    (n : ℕ) (t rest : Bytes)
    → Lacks 10 t
    → length t < n
    → fgets n (t ++ (10 ∷ rest)) ≡ (t ++ 10 ∷ [], rest)
unfolding fgets
fgets-line zero t rest h k = absurd (omega arith)
fgets-line (suc n) [] rest h k = refl
fgets-line (suc n) (c ∷ t) rest h k = ground (arith, fgets-line n t rest h.1)

abbrev NoSpace : ℕ → Type 0
NoSpace c = isspace c ≡ false

skip-NoSpace : (c : ℕ) (s : Bytes) → NoSpace c → skip isspace (c ∷ s) ≡ c ∷ s
unfolding skip
skip-NoSpace c s h = rw (h, skip) refl

trim_end-NoSpace : (s : Bytes) → All NoSpace s → trim_end isspace s ≡ s
unfolding trim_end trim_cons
trim_end-NoSpace [] h = refl
trim_end-NoSpace (c ∷ []) h = rw (h.0, trim_cons) refl
trim_end-NoSpace (c ∷ d ∷ s) h = rw (trim_end-NoSpace (d ∷ s) h.1, trim_end) refl

newline_space : isspace 10 ≡ true
unfolding isspace
newline_space = refl

-- The newline at the end goes.
trim_end-newline : (s : Bytes) → All NoSpace s → trim_end isspace (s ++ 10 ∷ []) ≡ s
unfolding trim_end trim_cons
trim_end-newline [] h = unfold isspace in refl
trim_end-newline (c ∷ []) h = rw (newline_space, h.0, trim_cons) refl
trim_end-newline (c ∷ d ∷ s) h = rw (trim_end-newline (d ∷ s) h.1, trim_end) refl

plain-NoSpace : (s : Bytes) → All IsPlain s → All NoSpace s
plain-NoSpace [] h = tt
plain-NoSpace (c ∷ s) h = (h.0.0, plain-NoSpace s h.1)

plain-Lacks : (s : Bytes) → All IsPlain s → Lacks 0 s
plain-Lacks [] h = tt
plain-Lacks (c ∷ s) h = (h.0.1, plain-Lacks s h.1)

newline-not_plain : (c : ℕ) → IsPlain c → c ≢ 10
unfolding isspace
newline-not_plain c h e = ground arith

plain-Lacks_newline : (s : Bytes) → All IsPlain s → Lacks 10 s
plain-Lacks_newline [] h = tt
plain-Lacks_newline (c ∷ s) h = (newline-not_plain c h.0, plain-Lacks_newline s h.1)

trim-plain : (s : Bytes) → All IsPlain s → trim s ≡ s
unfolding trim
trim-plain [] h = unfold c_str skip trim_end in refl
trim-plain (c ∷ s) h =
    rw (c_str-Lacks (c ∷ s) (plain-Lacks (c ∷ s) h), skip-NoSpace c s h.0.0)
      (trim_end-NoSpace (c ∷ s) (plain-NoSpace (c ∷ s) h))

strip_from-plain : (opens : Bool) (s : Bytes) → All IsPlain s → strip_from opens s ≡ s
unfolding strip_from
strip_from-plain opens [] h = refl
strip_from-plain opens (c ∷ s) h = ground (arith, strip_from-plain (isspace c) s h.1)

-- `=` is plain.
equals-IsPlain : IsPlain b'='
unfolding isspace
equals-IsPlain = (refl, omega arith, omega arith)

line-IsPlain : (k v : Bytes) → IsEntry (k, v) → All IsPlain (k ++ (b'=' ∷ v))
line-IsPlain k v h = All-append IsPlain k (b'=' ∷ v) h.key_plain (equals-IsPlain, h.value_plain)

trim-line : (c : ℕ) (s : Bytes) → All IsPlain (c ∷ s) → trim ((c ∷ s) ++ 10 ∷ []) ≡ c ∷ s
unfolding trim
trim-line c s h =
    rw
      (
        c_str-Lacks ((c ∷ s) ++ 10 ∷ [])
            (All-append (λ b. b ≢ 0) (c ∷ s) (10 ∷ []) (plain-Lacks (c ∷ s) h) (omega arith, tt)),
        skip-NoSpace c (s ++ 10 ∷ []) h.0.0,
      )
      (trim_end-newline (c ∷ s) (plain-NoSpace (c ∷ s) h))

entry_of-line : (k v : Bytes) → IsEntry (k, v) → entry_of (k ++ (b'=' ∷ v)) ≡ some (k, v)
unfolding entry_of
entry_of-line k v h =
    rw (strchr-append k v b'=' h.key_lacks, entry_of)
      (found (trim-plain k h.key_plain) (
        ap (λ t. trim (strip_from true t)) (trim-plain v h.value_plain)
        ∙ ap trim (strip_from-plain true v h.value_plain)
        ∙ trim-plain v h.value_plain))
  where
    found : {a b : Bytes} → a ≡ k → b ≡ v → ◌≡◌ {A = Option Entry} (some (a, b)) (some (k, v))
    found p q = cc

-- A line with a key is no comment.
trimmed_entry-line : (c : ℕ) (t : Bytes) → IsPlain c → trimmed_entry (c ∷ t) ≡ entry_of (c ∷ t)
unfolding trimmed_entry
trimmed_entry-line c t h = ground arith

line_entry-line :
    (k v : Bytes) → IsEntry (k, v) → line_entry ((k ++ (b'=' ∷ v)) ++ 10 ∷ []) ≡ some (k, v)
unfolding line_entry
line_entry-line [] v h = absurd (omega (arith, h.key_nonempty))
line_entry-line (c ∷ k) v h =
    ap trimmed_entry (trim-line c (k ++ (b'=' ∷ v)) (line-IsPlain (c ∷ k) v h))
    ∙ trimmed_entry-line c (k ++ (b'=' ∷ v)) h.key_plain.0
    ∙ entry_of-line (c ∷ k) v h

-- The entries of a file that was written from entries are those entries: lines `key=value` of
-- fewer than 511 bytes, with a key and a value of plain characters, the key not empty and with no
-- `=` in it.
pub entries-render :
    (es : List Entry) (f : ℕ) → All IsEntry es → length (render es) < f → entries f (render es) ≡ es
unfolding entries render
entries-render [] zero h k = absurd (omega arith)
entries-render [] (suc f) h k = refl
entries-render (([], v) ∷ es) f h k = absurd (omega (arith, h.0.key_nonempty))
entries-render ((c ∷ key, v) ∷ es) zero h k = absurd (omega arith)
entries-render ((c ∷ key, v) ∷ es) (suc f) h k =
    let line = key ++ (b'=' ∷ v) in
    let read =
      fgets-line 511 (c ∷ line) (render es)
        (plain-Lacks_newline (c ∷ line) (line-IsPlain (c ∷ key) v h.0))
        (omega (arith, length-append key (b'=' ∷ v), h.0.short)) in
    rw (read, entries, line_entry-line (c ∷ key) v h.0)
      (ap (λ (b : Bytes). (c ∷ key, v) ∷ entries f b) (ap (λ (r : Bytes × Bytes). r.1) read)
        ∙ ap (λ (r : List Entry). (c ∷ key, v) ∷ r)
            (entries-render es f h.1 (omega (arith, length-append line (10 ∷ render es)))))
