-- ===== src/HttpParser/Headers/End.antt =====
-- Where `http_parser_find_headers_end` finds the end of a header block.
use maestro_core.Base.{
  ℕ, zero, suc, ◌+◌, ◌<◌, some, List, [], ◌∷◌, ◌++◌, ◌≡◌, ◌≢◌, arith, Bytes, Lacks, length, All,
  append_assoc, length-append, ap, sym, subst, refl,
}
use maestro_core.HttpParser.Headers.RoundTrip.{IsHeader, header_line, render, Lacks-header_line}
use maestro_core.HttpParser.Scan.{find_headers_end}
use maestro_core.HttpParser.Scan.First.{crlf_crlf, At, FirstAt, find_headers_end-FirstAt}
use maestro_core.HttpParser.{HttpKeyValue}

after_byte :
    (c : ℕ) (s : Bytes) (n : ℕ)
    → ¬ At crlf_crlf (c ∷ s) 0
    → FirstAt crlf_crlf s n
    → FirstAt crlf_crlf (c ∷ s) (suc n)
after_byte c s n ne (here, before) = (here, earlier)
  where
    earlier : (j : ℕ) → j < suc n → ¬ At crlf_crlf (c ∷ s) j
    earlier zero lt = ne
    earlier (suc j) lt = before j (omega arith)

abbrev nth : ℕ → Bytes → ℕ
nth k [] = 0
nth zero (c ∷ s) = c
nth (suc k) (c ∷ s) = nth k s

other_byte : (c : ℕ) (s : Bytes) → c ≢ b'\r' → ¬ At crlf_crlf (c ∷ s) 0
other_byte c s ne a = ne (ap (nth 0) a)

inner_line : (c : ℕ) (s : Bytes) → c ≢ b'\r' → ¬ At crlf_crlf (b'\r' ∷ b'\n' ∷ c ∷ s) 0
inner_line c [] ne a = ne (ap (nth 2) a)
inner_line c (d ∷ s) ne a = ne (ap (nth 2) a)

after_text :
    (p q : Bytes) (n : ℕ)
    → Lacks b'\r' p
    → FirstAt crlf_crlf q n
    → FirstAt crlf_crlf (p ++ q) (length p + n)
after_text [] q n h f = subst (FirstAt crlf_crlf q) (omega arith) f
after_text (c ∷ p) q n h f =
    subst (FirstAt crlf_crlf (c ∷ p ++ q)) (omega arith)
      (after_byte c (p ++ q) (length p + n) (other_byte c (p ++ q) h.0) (after_text p q n h.1 f))

after_inner_line :
    (key value q : Bytes) (n : ℕ)
    → Lacks b'\r' key
    → FirstAt crlf_crlf ((key ++ (b':' ∷ b' ' ∷ value)) ++ q) n
    → FirstAt crlf_crlf (b'\r' ∷ b'\n' ∷ ((key ++ (b':' ∷ b' ' ∷ value)) ++ q)) (suc (suc n))
after_inner_line [] value q n h f =
    let s = b' ' ∷ (value ++ q) in
    after_byte b'\r' (b'\n' ∷ b':' ∷ s) (suc n) (inner_line b':' s (omega arith))
      (after_byte b'\n' (b':' ∷ s) n (other_byte b'\n' (b':' ∷ s) (omega arith)) f)
after_inner_line (c ∷ key) value q n h f =
    let s = (key ++ (b':' ∷ b' ' ∷ value)) ++ q in
    after_byte b'\r' (b'\n' ∷ c ∷ s) (suc n) (inner_line c s h.0)
      (after_byte b'\n' (c ∷ s) n (other_byte b'\n' (c ∷ s) (omega arith)) f)

Lacks-line : (h : HttpKeyValue) → IsHeader h → Lacks b'\r' (header_line h)
Lacks-line h i = Lacks-header_line b'\r' h i.key_cr i.value_cr (omega arith) (omega arith)

block_end :
    (h : HttpKeyValue) (l : List HttpKeyValue) (rest : Bytes)
    → IsHeader h
    → All IsHeader l
    → (n : ℕ) × FirstAt crlf_crlf (render (h ∷ l) ++ rest) n × (n + 4 ≡ length (render (h ∷ l)))
block_end h [] rest i t =
    let line = header_line h in
    (
      length line + 0,
      subst (λ s. FirstAt crlf_crlf s (length line + 0)) (sym (append_assoc line crlf_crlf rest))
          (after_text line (crlf_crlf ++ rest) 0 (Lacks-line h i)
            (refl, λ j lt. absurd (omega arith))),
      omega (arith, length-append line crlf_crlf),
    )
block_end h (k ∷ l) rest i (ik, t) =
    let line = header_line h in
    let tail = b'\r' ∷ b'\n' ∷ render (k ∷ l) in
    let (n, f, e) = block_end k l rest ik t in
    let f' =
      subst (λ s. FirstAt crlf_crlf (b'\r' ∷ b'\n' ∷ s) (suc (suc n)))
        (sym (append_assoc (header_line k) (b'\r' ∷ b'\n' ∷ render l) rest))
        (after_inner_line k.key k.value ((b'\r' ∷ b'\n' ∷ render l) ++ rest) n ik.key_cr (
          subst (λ s. FirstAt crlf_crlf s n)
            (append_assoc (header_line k) (b'\r' ∷ b'\n' ∷ render l) rest) f)) in
    (
      length line + suc (suc n),
      subst (λ s. FirstAt crlf_crlf s (length line + suc (suc n)))
          (sym (append_assoc line tail rest))
          (after_text line (tail ++ rest) (suc (suc n)) (Lacks-line h i) f'),
      omega (arith, length-append line tail),
    )

-- `http_parser_find_headers_end` finds the end of a block of at least one header: the four bytes
-- that it finds end the block, whatever stands behind it.
pub find_headers_end-render :
    (h : HttpKeyValue) (l : List HttpKeyValue) (rest : Bytes)
    → All IsHeader (h ∷ l)
    → (n : ℕ) × (find_headers_end (render (h ∷ l) ++ rest) ≡ some n)
      × (n + 4 ≡ length (render (h ∷ l)))
find_headers_end-render h l rest (i, t) =
    let (n, f, e) = block_end h l rest i t in
    (n, (find_headers_end-FirstAt (render (h ∷ l) ++ rest) n).1 f, e)
