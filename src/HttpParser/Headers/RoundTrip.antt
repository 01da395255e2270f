-- ===== src/HttpParser/Headers/RoundTrip.antt =====
-- Header blocks as a sender writes them, and what `http_parser_headers` makes of one.
use maestro_core.Base.{
  ℕ, zero, suc, ◌+◌, ◌*◌, ◌<◌, some, List, [], ◌∷◌, ◌++◌, ◌≡◌, ◌≢◌, refl, arith, Bytes, Lacks,
  length, length-append, take, drop, append_assoc, sym, ap, ◌∙◌, take-length-append, append-nil,
  Option, All, All-append,
}
use maestro_core.CString.{skip, trim_end}
use maestro_core.CString.Search.{c_str-Lacks, strchr-append}
use maestro_core.ErrorCode.{success}
use maestro_core.HttpParser.{HttpKeyValue}
use maestro_core.HttpParser.Headers.{
  HeadersOut, is_blank, is_line_space, header_of, headers_loop, headers,
}
use maestro_core.HttpParser.Scan.{find_line_end}
use maestro_core.HttpParser.Scan.First.{drop_line, crlf, nil_has_no_line, find_line_end-append}
use maestro_core.Memory.{Mem, attempt, Plentiful}

abbrev pub IsText : ℕ → Type 0
IsText c = (c ≢ b' ') × (c ≢ b'\t') × (c ≢ b'\r') × (c ≢ b'\n')

-- The last byte, if any, is no white space.
abbrev pub EndsInText : Bytes → Type 0
EndsInText [] = Unit
EndsInText (c ∷ []) = IsText c
EndsInText (c ∷ d ∷ s) = EndsInText (d ∷ s)

-- The first byte, if any, is neither a space nor a tab.
abbrev pub BeginsInText : Bytes → Type 0
BeginsInText [] = Unit
BeginsInText (c ∷ s) = (c ≢ b' ') × (c ≢ b'\t')

-- A header that can be written on one line.
pub record IsHeader (h : HttpKeyValue) : Type 0 where
  pub key_nul : Lacks 0 h.key
  pub key_colon : Lacks b':' h.key
  pub key_cr : Lacks b'\r' h.key
  pub key_end : EndsInText h.key
  pub value_nul : Lacks 0 h.value
  pub value_cr : Lacks b'\r' h.value
  pub value_begin : BeginsInText h.value
  pub value_end : EndsInText h.value

-- `key: value`
abbrev pub header_line : HttpKeyValue → Bytes
header_line h = h.key ++ (b':' ∷ b' ' ∷ h.value)

-- The lines, each ended by CR LF, and the empty line.
abbrev pub render : List HttpKeyValue → Bytes
render [] = crlf
render (h ∷ l) = header_line h ++ (b'\r' ∷ b'\n' ∷ render l)

trim_end-EndsInText : (s : Bytes) → EndsInText s → trim_end is_line_space s ≡ s
unfolding trim_end is_line_space
trim_end-EndsInText [] h = refl
trim_end-EndsInText (c ∷ []) h = ground arith
trim_end-EndsInText (c ∷ d ∷ s) h = rw (trim_end-EndsInText (d ∷ s) h, trim_end)

skip_space : (s : Bytes) → BeginsInText s → skip is_blank (b' ' ∷ s) ≡ s
unfolding skip is_blank
skip_space [] h = refl
skip_space (c ∷ s) h = ground arith

pub Lacks-header_line :
    (b : ℕ) (h : HttpKeyValue)
    → Lacks b h.key
    → Lacks b h.value
    → b ≢ b':'
    → b ≢ b' '
    → Lacks b (header_line h)
Lacks-header_line b h k v p q =
    All-append (λ c. c ≢ b) h.key (b':' ∷ b' ' ∷ h.value) k (ground arith, (ground arith, v))

header_of-header_line : (h : HttpKeyValue) → IsHeader h → header_of (header_line h) ≡ some h
unfolding header_of
header_of-header_line h i =
    rw
      (
        c_str-Lacks (header_line h)
            (Lacks-header_line 0 h i.key_nul i.value_nul (omega arith) (omega arith)),
        header_of,
      )
      (rw (strchr-append h.key (b' ' ∷ h.value) b':' i.key_colon, header_of)
        (rw (
          trim_end-EndsInText h.key i.key_end,
          skip_space h.value i.value_begin,
          trim_end-EndsInText h.value i.value_end,
        )))

abbrev stored : Mem → Mem
stored m = record m { asked = m.asked + 1 + 1 + 1 + 1 + 1; live = m.live + 4 }

loop_step :
    (f n : ℕ) (h : HttpKeyValue) (buf : Bytes) (l : List HttpKeyValue) (m : Mem)
    → find_line_end buf ≡ some n
    → n ≢ 0
    → header_of (take n buf) ≡ some h
    → Plentiful m
    → headers_loop (suc f) buf l m ≡ headers_loop f (drop (n + 2) buf) (l ++ h ∷ []) (stored m)
unfolding headers_loop
loop_step f n h [] l m e ne i p = absurd (nil_has_no_line n e)
loop_step f n h (c ∷ s) l m e ne i p = ground (
  arith,
  p m.asked,
  p (m.asked + 1),
  p (m.asked + 1 + 1),
  p (m.asked + 1 + 1 + 1),
  p (m.asked + 1 + 1 + 1 + 1),
)

length-header_line : (h : HttpKeyValue) → length (header_line h) ≢ 0
length-header_line h = omega (arith, length-append h.key (b':' ∷ b' ' ∷ h.value))

render_step :
    (f : ℕ) (h : HttpKeyValue) (rest : Bytes) (l : List HttpKeyValue) (m : Mem)
    → IsHeader h
    → Plentiful m
    → headers_loop (suc f) (header_line h ++ (b'\r' ∷ b'\n' ∷ rest)) l m
      ≡ headers_loop f rest (l ++ h ∷ []) (stored m)
render_step f h rest l m i p =
    let line = header_line h in
    let buf = line ++ (b'\r' ∷ b'\n' ∷ rest) in
    let no_cr = Lacks-header_line b'\r' h i.key_cr i.value_cr (omega arith) (omega arith) in
    loop_step f (length line) h buf l m (find_line_end-append line rest no_cr)
      (length-header_line h)
      (ap header_of (take-length-append line (b'\r' ∷ b'\n' ∷ rest)) ∙ header_of-header_line h i) p
    ∙ ap (λ s. headers_loop f s (l ++ h ∷ []) (stored m)) (drop_line line rest)

-- A run that succeeded with the list `l`, and `blocks` more live blocks than in `m`.
abbrev pub Succeeded : List HttpKeyValue → ℕ → Mem → Option HeadersOut → Type 0
Succeeded l blocks m r =
    (out : HeadersOut) × (r ≡ some out)
    × (out.code ≡ success)
    × (out.headers_out ≡ some l)
    × (out.mem.live ≡ m.live + blocks)
    × (out.mem.grants ≡ m.grants)

end_of_headers :
    (f : ℕ) (rest : Bytes) (l : List HttpKeyValue) (m : Mem)
    → headers_loop (suc f) (crlf ++ rest) l m
      ≡ some (record { code = success; headers_out = some l; mem = m })
unfolding headers_loop
end_of_headers f rest l m = ground (arith, find_line_end-append [] rest tt)

loop-render :
    (f : ℕ) (hs : List HttpKeyValue) (rest : Bytes) (l : List HttpKeyValue) (m : Mem)
    → All IsHeader hs
    → Plentiful m
    → length hs < f
    → Succeeded (l ++ hs) (4 * length hs) m (headers_loop f (render hs ++ rest) l m)
loop-render zero hs rest l m i p h = absurd (omega arith)
loop-render (suc f) [] rest l m i p h = (
  record { code = success; headers_out = some l; mem = m },
  end_of_headers f rest l m,
  refl,
  ap some (sym (append-nil l)),
  omega arith,
  refl,
)
loop-render (suc f) (x ∷ hs) rest l m (ix, i) p h =
    let (out, e, c, o, live, g) =
      loop-render f hs rest (l ++ x ∷ []) (stored m) i p (omega arith) in
    (
      out,
      ap (λ s. headers_loop (suc f) s l m)
            (append_assoc (header_line x) (b'\r' ∷ b'\n' ∷ render hs) rest)
          ∙ render_step f x (render hs ++ rest) l m ix p
          ∙ e,
      c,
      o ∙ ap some (append_assoc l (x ∷ []) hs),
      omega arith,
      g,
    )

length-render : (hs : List HttpKeyValue) (rest : Bytes) → length hs < length (render hs ++ rest)
length-render [] rest = omega arith
length-render (h ∷ hs) rest = omega (
  arith,
  length-append (render (h ∷ hs)) rest,
  length-append (header_line h) (b'\r' ∷ b'\n' ∷ render hs),
  length-append (render hs) rest,
  length-render hs rest,
)

-- `http_parser_headers` reads a block of header lines back: with memory granted it returns
-- exactly the headers written, in order, whatever stands behind the empty line, and holds one
-- block for the list and four for each header; what the allocator will grant is untouched.
pub headers-render :
    (hs : List HttpKeyValue) (rest : Bytes) (m : Mem)
    → All IsHeader hs
    → Plentiful m
    → Succeeded hs (1 + 4 * length hs) m (headers (render hs ++ rest) m)
unfolding headers
headers-render hs rest m i p =
    let (out, e, c, o, live, g) =
      loop-render (suc (length (render hs ++ rest))) hs rest [] (attempt m) i p
        (omega (arith, length-render hs rest)) in
    (out, ground (arith, p m.asked, e), c, o, ground (arith, p m.asked, live), g)
