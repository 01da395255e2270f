-- ===== src/HttpParser/Headers/Leaks.antt =====
-- The heap blocks that `http_parser_headers` holds when it returns.
use maestro_core.Base.{
  ℕ, zero, suc, ◌+◌, ◌*◌, ◌<◌, List, [], ◌∷◌, ◌++◌, ◌≡◌, arith, Bytes, length, length-append, drop,
  take, inl, inr, Option-cases,
}
use maestro_core.HttpParser.{HttpKeyValue, list_blocks}
use maestro_core.HttpParser.Headers.{HeadersOut, header_of, headers_loop, headers}
use maestro_core.HttpParser.Headers.Sound.{Returns, drop_lt}
use maestro_core.HttpParser.Scan.{find_line_end}
use maestro_core.Memory.{Mem, release, attempt, Plentiful}

-- Only the list that is handed out is live beside the `base` blocks.
abbrev pub Balanced : ℕ → HeadersOut → Type 0
Balanced base out = out.mem.live ≡ base + list_blocks out.headers_out

loop-Balanced :
    (f base : ℕ) (buf : Bytes) (l : List HttpKeyValue) (m : Mem)
    → length buf < f
    → m.live ≡ base + 1 + 4 * length l
    → Plentiful m
    → Returns (Balanced base) (headers_loop f buf l m)
unfolding headers_loop
loop-Balanced zero base buf l m h k p = absurd (omega arith)
loop-Balanced (suc f) base [] l m h k p = omega arith
loop-Balanced (suc f) base (c ∷ s) l m h k p = elim (Option-cases (find_line_end (c ∷ s))) [
  | inl e ↦ rw (e, headers_loop) (omega arith)
  | inr (n, e) ↦ elim (Option-cases (header_of (take n (c ∷ s)))) [
    | inl bad ↦ ground (arith, p m.asked)
    | inr (x, good) ↦
        let m1 = attempt m in
        let m2 = attempt m1 in
        let m3 = attempt m2 in
        let m4 = attempt m3 in
        ground (
          arith,
          p m.asked,
          p m1.asked,
          p m2.asked,
          p m3.asked,
          p m4.asked,
          length-append l (x ∷ []),
          loop-Balanced f base (drop (n + 2) (c ∷ s)) (l ++ x ∷ []) (release 1 (attempt m4))
              (drop_lt n c s f h),
        )
  ]
]

-- With memory granted `http_parser_headers` leaks nothing: on success the blocks of the list
-- that it hands out are live beside those before the call, and on an error no other.
pub headers-Balanced :
    (buf : Bytes) (m : Mem) → Plentiful m → Returns (Balanced m.live) (headers buf m)
unfolding headers
headers-Balanced buf m p =
    ground
      (arith, p m.asked, loop-Balanced (suc (length buf)) m.live buf [] (attempt m) (omega arith))
