-- ===== src/HttpParser/Scan/First.antt =====
-- The two searches and the first place of a line end.
use maestro_core.Base.{
  ℕ, ◌+◌, ◌++◌, refl, zero, suc, ◌<◌, Bool, true, false, none, some, [], ◌∷◌, ◌≡◌, ◌↔◌, arith,
  Bytes, length, take, drop, ◌≢◌, Lacks, ◌++◌, drop-length-append, dec_lt, Option-cases, inl, inr,
  sym, ap, ◌∙◌,
}
use maestro_core.HttpParser.Scan.{first_at, is_crlf, is_crlf_crlf, find_line_end, find_headers_end}

abbrev pub crlf : Bytes
crlf = b'\r' ∷ b'\n' ∷ []

abbrev pub crlf_crlf : Bytes
crlf_crlf = b'\r' ∷ b'\n' ∷ b'\r' ∷ b'\n' ∷ []

-- `mark` stands at index `i` of `s`.
abbrev pub At : Bytes → Bytes → ℕ → Type 0
At mark s i = take (length mark) (drop i s) ≡ mark

-- `i` is the first such index.
abbrev pub FirstAt : Bytes → Bytes → ℕ → Type 0
FirstAt mark s i = At mark s i × ((j : ℕ) → j < i → ¬ At mark s j)

module _ (test : Bytes → Bool) where
  first_at_sound : (s : Bytes) (i : ℕ) → first_at test s ≡ some i → test (drop i s) ≡ true
  unfolding first_at
  first_at_sound [] i e = cc
  first_at_sound (c ∷ s) zero e = elim (Option-cases (first_at test s)) [
    | inl n ↦ ground arith
    | inr (j, n) ↦ ground arith
  ]
  first_at_sound (c ∷ s) (suc i) e = elim (Option-cases (first_at test s)) [
    | inl n ↦ ground arith
    | inr (j, n) ↦ ground (arith, first_at_sound s i)
  ]

  first_at_first :
      (s : Bytes) (i j : ℕ) → first_at test s ≡ some i → j < i → test (drop j s) ≡ false
  unfolding first_at
  first_at_first [] i j e h = cc
  first_at_first (c ∷ s) zero j e h = absurd (omega arith)
  first_at_first (c ∷ s) (suc i) zero e h = ground arith
  first_at_first (c ∷ s) (suc i) (suc j) e h = elim (Option-cases (first_at test s)) [
    | inl n ↦ ground arith
    | inr (k, n) ↦ ground (arith, first_at_first s i j)
  ]

  first_at-none :
      (s : Bytes) (j : ℕ) → first_at test s ≡ none → test [] ≡ false → test (drop j s) ≡ false
  unfolding first_at
  first_at-none [] zero e h = h
  first_at-none [] (suc j) e h = h
  first_at-none (c ∷ s) zero e h = ground arith
  first_at-none (c ∷ s) (suc j) e h = elim (Option-cases (first_at test s)) [
    | inl n ↦ first_at-none s j n h
    | inr (k, n) ↦ ground arith
  ]

is_crlf_iff : (s : Bytes) → (is_crlf s ≡ true) ↔ (take 2 s ≡ crlf)
unfolding is_crlf
is_crlf_iff [] = ground arith
is_crlf_iff (a ∷ []) = ground arith
is_crlf_iff (a ∷ b ∷ s) = ground arith

is_crlf_crlf_iff : (s : Bytes) → (is_crlf_crlf s ≡ true) ↔ (take 4 s ≡ crlf_crlf)
unfolding is_crlf_crlf
is_crlf_crlf_iff [] = ground arith
is_crlf_crlf_iff (a ∷ []) = ground arith
is_crlf_crlf_iff (a ∷ b ∷ []) = ground arith
is_crlf_crlf_iff (a ∷ b ∷ c ∷ []) = ground arith
is_crlf_crlf_iff (a ∷ b ∷ c ∷ d ∷ s) = ground arith

-- A search by a test that recognises `mark`, and what makes a result its first place.
module _ (test : Bytes → Bool) (mark : Bytes) (empty : test [] ≡ false) where
  Recognises : Type 0
  Recognises = (s : Bytes) → (test s ≡ true) ↔ (take (length mark) s ≡ mark)

  first_at-FirstAt : Recognises → (s : Bytes) (i : ℕ) → first_at test s ≡ some i → FirstAt mark s i
  unfolding Recognises
  first_at-FirstAt r s i e = (
    (r (drop i s)).0 (first_at_sound test s i e),
    λ j h a. cc ((r (drop j s)).1 a, first_at_first test s i j e h),
  )

  FirstAt-first_at : Recognises → (s : Bytes) (i : ℕ) → FirstAt mark s i → first_at test s ≡ some i
  unfolding Recognises
  FirstAt-first_at r s i (here, before) = elim (Option-cases (first_at test s)) [
    | inl e ↦ absurd (cc ((r (drop i s)).1 here, first_at-none test s i e empty))
    | inr (k, e) ↦
        e
        ∙ ap some (elim (dec_lt k i) [
          | yes lt ↦ absurd (before k lt ((r (drop k s)).0 (first_at_sound test s k e)))
          | no ge ↦ elim (dec_lt i k) [
            | yes lt ↦ absurd (cc ((r (drop i s)).1 here, first_at_first test s k i e lt))
            | no ge' ↦ omega arith
          ]
        ])
  ]

line_end_lem : (s : Bytes) → find_line_end s ≡ first_at is_crlf s
unfolding find_line_end first_at is_crlf
line_end_lem [] = ground arith
line_end_lem (a ∷ []) = ground arith
line_end_lem (a ∷ b ∷ s) = ground arith

headers_end_lem : (s : Bytes) → find_headers_end s ≡ first_at is_crlf_crlf s
unfolding find_headers_end first_at is_crlf_crlf
headers_end_lem [] = ground arith
headers_end_lem (a ∷ []) = ground arith
headers_end_lem (a ∷ b ∷ []) = ground arith
headers_end_lem (a ∷ b ∷ c ∷ []) = ground arith
headers_end_lem (a ∷ b ∷ c ∷ d ∷ s) = ground arith

-- `http_parser_find_line_end` returns `i` exactly when `i` is the first index at which the two
-- bytes CR LF stand.
pub find_line_end-FirstAt : (s : Bytes) (i : ℕ) → (find_line_end s ≡ some i) ↔ FirstAt crlf s i
unfolding Recognises is_crlf
find_line_end-FirstAt s i = (
  λ e. first_at-FirstAt is_crlf crlf (ground arith) is_crlf_iff s i (sym (line_end_lem s) ∙ e),
  λ f. line_end_lem s ∙ FirstAt-first_at is_crlf crlf (ground arith) is_crlf_iff s i f,
)

-- `http_parser_find_headers_end` returns `i` exactly when `i` is the first index at which the
-- four bytes CR LF CR LF stand.
pub find_headers_end-FirstAt :
    (s : Bytes) (i : ℕ) → (find_headers_end s ≡ some i) ↔ FirstAt crlf_crlf s i
unfolding Recognises is_crlf_crlf
find_headers_end-FirstAt s i = (
  λ e.
      first_at-FirstAt is_crlf_crlf crlf_crlf (ground arith) is_crlf_crlf_iff s i
        (sym (headers_end_lem s) ∙ e),
  λ f.
      headers_end_lem s
      ∙ FirstAt-first_at is_crlf_crlf crlf_crlf (ground arith) is_crlf_crlf_iff s i f,
)

not-At-of_Lacks :
    (p q : Bytes) (j : ℕ) → Lacks b'\r' p → j < length p → ¬ At crlf (p ++ b'\r' ∷ b'\n' ∷ q) j
not-At-of_Lacks [] q j h lt a = absurd (omega arith)
not-At-of_Lacks (c ∷ p) q zero h lt a = ground (arith, ap head_or_zero a)
  where
    head_or_zero : Bytes → ℕ
    head_or_zero [] = 0
    head_or_zero (c ∷ s) = c
not-At-of_Lacks (c ∷ p) q (suc j) h lt a = not-At-of_Lacks p q j h.1 (omega arith) a

-- A line without CR ends where its CR LF stands.
pub find_line_end-append :
    (p q : Bytes) → Lacks b'\r' p → find_line_end (p ++ b'\r' ∷ b'\n' ∷ q) ≡ some (length p)
find_line_end-append p q h =
    (find_line_end-FirstAt (p ++ b'\r' ∷ b'\n' ∷ q) (length p)).1
      (rw (drop-length-append p (b'\r' ∷ b'\n' ∷ q)), λ j lt. not-At-of_Lacks p q j h lt)

pub nil_has_no_line : (n : ℕ) → find_line_end [] ≢ some n
unfolding find_line_end
nil_has_no_line n = ground arith

pub find_headers_end-nil : find_headers_end [] ≡ none
unfolding find_headers_end
find_headers_end-nil = refl

pub drop_line : (p q : Bytes) → drop (length p + 2) (p ++ (b'\r' ∷ b'\n' ∷ q)) ≡ q
drop_line [] q = refl
drop_line (c ∷ p) q = rw (add_lem (length p)) (drop_line p q)
  where
    add_lem : (n : ℕ) → suc n + 2 ≡ suc (n + 2)
    add_lem n = omega arith
