-- ===== src/HttpParser/Query/Total.antt =====
-- How the loop over the query string ends.
use maestro_core.Base.{
  ℕ, zero, suc, ◌+◌, ◌<◌, ◌≤◌, ◌⊎◌, inl, inr, some, none, Option, List, [], ◌∷◌, ◌≡◌, refl, arith,
  Bytes, length, length-append, ap, Option-cases,
}
use maestro_core.CString.{strchr}
use maestro_core.CString.Search.{strchr_sound}
use maestro_core.ErrorCode.{success, err_no_memory}
use maestro_core.HttpParser.{HttpKeyValue, HttpRequest}
use maestro_core.HttpParser.Query.{Parsed, item_add, split_value, query_loop}
use maestro_core.Memory.{Mem, attempt}

pub length-strchr :
    (s : Bytes) (b : ℕ) {p q : Bytes} → strchr s b ≡ some (p, q) → length q < length s
length-strchr s b {p} {q} e =
    omega (arith, ap (λ (t : Bytes). length t) (strchr_sound s b e).0, length-append p (b ∷ q))

length-split_value : (r : Bytes) → length (split_value r).1 ≤ length r
unfolding split_value
length-split_value r = elim (Option-cases (strchr r b'&')) [
  | inl e ↦ ground arith
  | inr ((v, rest), e) ↦ ground (arith, length-strchr r b'&' e)
]

-- A run that is over; what is left of the request if it went well.
abbrev pub Ends : Bytes → Option Parsed → Type 0
Ends path none = ⊥
Ends path (some out) =
    ((out.code ≡ success) × (out.req.path ≡ some path)) ⊎ (out.code ≡ err_no_memory)

pub loop-Ends :
    (f : ℕ) (s path : Bytes) (req : HttpRequest) (l : List HttpKeyValue) (m : Mem)
    → length s < f
    → req.path ≡ some path
    → Ends path (query_loop f s req l m)
unfolding query_loop
loop-Ends zero s path req l m h k = absurd (omega arith)
loop-Ends (suc f) [] path req l m h k = inl (refl, k)
loop-Ends (suc f) (c ∷ s) path req l m h k = elim (Option-cases (strchr (c ∷ s) b'=')) [
  | inl e ↦ rw (e, query_loop) (inl (refl, k))
  | inr ((key, r), e) ↦
      let m3 = attempt (attempt (attempt m)) in
      let bound : length (split_value r).1 < f =
        omega (arith, length-split_value r, length-strchr (c ∷ s) b'=' e) in
      ground (
        arith,
        loop-Ends f (split_value r).1 path (record req { params_count = req.params_count + 1 })
            (item_add l (record { key = key; value = (split_value r).0 }) m3) (attempt m3) bound k,
      )
]
