-- ===== src/HttpParser/Headers/Sound.antt =====
-- What `http_parser_headers` returns for any buffer whatever, and the blocks it holds.
use maestro_core.Base.{
  ℕ, zero, suc, ◌+◌, ◌<◌, none, some, Option, List, [], ◌∷◌, ◌≡◌, arith, Bytes, Lacks, length,
  length-drop, take, drop, All, All-append, inl, inr, subst, Bool-cases, Option-cases,
}
use maestro_core.CString.{c_str, strchr, skip, trim_end, trim_cons}
use maestro_core.CString.Search.{strchr_sound}
use maestro_core.ErrorCode.{ErrorCode, success, err_bad_format, err_no_memory}
use maestro_core.HttpParser.{HttpKeyValue}
use maestro_core.HttpParser.Query.{item_add}
use maestro_core.HttpParser.Headers.{
  HeadersOut, is_blank, is_line_space, header_of, headers_loop, headers,
}
use maestro_core.HttpParser.Headers.RoundTrip.{EndsInText, BeginsInText}
use maestro_core.HttpParser.Scan.{find_line_end}
use maestro_core.Memory.{Mem, release, attempt, granted}

-- A run that does not run out of fuel and whose outcome satisfies `Q`.
abbrev pub Returns : (HeadersOut → Type 0) → Option HeadersOut → Type 0
Returns Q none = ⊥
Returns Q (some out) = Q out

-- Names have no colon and no white space behind, values none on either side.
abbrev pub IsClean : HttpKeyValue → Type 0
IsClean h = Lacks b':' h.key × EndsInText h.key × BeginsInText h.value × EndsInText h.value

-- Success comes with clean headers; an error is one of two, and comes with no list.
abbrev pub SoundResult : ErrorCode → Option (List HttpKeyValue) → Type 0
SoundResult success (some l) = All IsClean l
SoundResult err_bad_format none = Unit
SoundResult err_no_memory none = Unit
SoundResult _ _ = ⊥

cons_ends : (c : ℕ) (s : Bytes) → EndsInText s → EndsInText (trim_cons is_line_space c s)
unfolding trim_cons is_line_space
cons_ends c [] h = ground arith
cons_ends c (x ∷ s) h = h

trim_end_ends : (s : Bytes) → EndsInText (trim_end is_line_space s)
unfolding trim_end
trim_end_ends [] = tt
trim_end_ends (c ∷ s) = cons_ends c (trim_end is_line_space s) (trim_end_ends s)

cons_begins :
    (c : ℕ) (s : Bytes) → BeginsInText (c ∷ []) → BeginsInText (trim_cons is_line_space c s)
unfolding trim_cons
cons_begins c [] h = ground arith
cons_begins c (x ∷ s) h = h

trim_end_begins : (s : Bytes) → BeginsInText s → BeginsInText (trim_end is_line_space s)
unfolding trim_end
trim_end_begins [] h = tt
trim_end_begins (c ∷ s) h = cons_begins c (trim_end is_line_space s) h

cons-Lacks : (b c : ℕ) (s : Bytes) → Lacks b (c ∷ s) → Lacks b (trim_cons is_line_space c s)
unfolding trim_cons
cons-Lacks b c [] h = ground arith
cons-Lacks b c (x ∷ s) h = h

trim_end-Lacks : (b : ℕ) (s : Bytes) → Lacks b s → Lacks b (trim_end is_line_space s)
unfolding trim_end
trim_end-Lacks b [] h = tt
trim_end-Lacks b (c ∷ s) h = cons-Lacks b c (trim_end is_line_space s) (h.0, trim_end-Lacks b s h.1)

skip_begins : (s : Bytes) → BeginsInText (skip is_blank s)
unfolding skip is_blank
skip_begins [] = tt
skip_begins (c ∷ s) = ground (arith, skip_begins s)

header_of-IsClean : (line : Bytes) (h : HttpKeyValue) → header_of line ≡ some h → IsClean h
unfolding header_of
header_of-IsClean line h e = elim (Option-cases (strchr (c_str line) b':')) [
  | inl no_colon ↦ ground arith
  | inr ((k, v), cut) ↦
      let clean : IsClean (trimmed k v) = (
        trim_end-Lacks b':' k (strchr_sound (c_str line) b':' cut).1,
        trim_end_ends k,
        trim_end_begins (skip is_blank v) (skip_begins v),
        trim_end_ends (skip is_blank v),
      ) in
      subst IsClean (trimmed_lem k v cut) clean
]
  where
    trimmed : Bytes → Bytes → HttpKeyValue
    trimmed k v = record {
      key = trim_end is_line_space k;
      value = trim_end is_line_space (skip is_blank v);
    }

    trimmed_lem : (k v : Bytes) → strchr (c_str line) b':' ≡ some (k, v) → trimmed k v ≡ h
    trimmed_lem k v cut = ground arith

item_add-All :
    (l : List HttpKeyValue) (x : HttpKeyValue) (m : Mem)
    → All IsClean l
    → IsClean x
    → All IsClean (item_add l x m)
unfolding item_add
item_add-All l x m hl hx = elim (Bool-cases (granted m)) [
  | inl g ↦ rw g (All-append IsClean l (x ∷ []) hl (hx, tt))
  | inr g ↦ rw g hl
]

pub drop_lt :
    (n c : ℕ) (s : Bytes) (f : ℕ) → length (c ∷ s) < suc f → length (drop (n + 2) (c ∷ s)) < f
drop_lt n c s f h = omega (arith, length-drop (n + 2) (c ∷ s))

loop_sound :
    (f : ℕ) (buf : Bytes) (l : List HttpKeyValue) (m : Mem)
    → length buf < f
    → All IsClean l
    → Returns (λ out. SoundResult out.code out.headers_out) (headers_loop f buf l m)
unfolding headers_loop
loop_sound zero buf l m h k = absurd (omega arith)
loop_sound (suc f) [] l m h k = k
loop_sound (suc f) (c ∷ s) l m h k = elim (Option-cases (find_line_end (c ∷ s))) [
  | inl e ↦ rw (e, headers_loop) k
  | inr (n, e) ↦ elim (Option-cases (header_of (take n (c ∷ s)))) [
    | inl bad ↦ ground arith
    | inr (x, good) ↦
        let m4 = attempt (attempt (attempt (attempt m))) in
        ground (
          arith,
          loop_sound f (drop (n + 2) (c ∷ s)) (item_add l x m4) (release 1 (attempt m4))
              (drop_lt n c s f h) (item_add-All l x m4 k (header_of-IsClean _ x good)),
        )
  ]
]

-- Whatever the buffer holds and whichever requests for memory are refused,
-- `http_parser_headers` comes to an end: with success and headers whose names hold no colon and
-- end in no white space and whose values neither begin with a blank nor end in white space, or
-- with ERR_BAD_FORMAT or ERR_NO_MEMORY and no list.
pub headers_sound :
    (buf : Bytes) (m : Mem) → Returns (λ out. SoundResult out.code out.headers_out) (headers buf m)
unfolding headers
headers_sound buf m =
    ground (arith, loop_sound (suc (length buf)) buf [] (attempt m) (omega arith) tt)
