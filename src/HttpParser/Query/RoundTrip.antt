-- ===== src/HttpParser/Query/RoundTrip.antt =====
-- Query strings as a client writes them, and what the loop makes of one.
use maestro_core.Base.{
  ℕ, zero, suc, ◌+◌, ◌*◌, ◌<◌, some, List, [], ◌∷◌, ◌++◌, ◌≡◌, refl, arith, Bytes, Lacks, length,
  All, append_assoc, append-nil, ap, ◌∙◌, Option,
}
use maestro_core.CString.{strchr}
use maestro_core.CString.Search.{strchr-append, strchr-none}
use maestro_core.ErrorCode.{success}
use maestro_core.HttpParser.{HttpKeyValue, HttpRequest}
use maestro_core.HttpParser.Query.{Parsed, split_value, query_loop}
use maestro_core.Memory.{Mem, Plentiful}

-- A parameter that can be written: no `=` in its name, no `&` in its value.
abbrev pub IsParam : HttpKeyValue → Type 0
IsParam p = Lacks b'=' p.key × Lacks b'&' p.value

-- `key=value&key=value…`
abbrev pub render : List HttpKeyValue → Bytes
render [] = []
render (p ∷ []) = p.key ++ (b'=' ∷ p.value)
render (p ∷ q ∷ ps) = p.key ++ (b'=' ∷ (p.value ++ (b'&' ∷ render (q ∷ ps))))

-- One round of the loop, where memory is granted.
abbrev pub stored : Mem → Mem
stored m = record m { asked = m.asked + 1 + 1 + 1 + 1; live = m.live + 4 }

abbrev pub counted : HttpRequest → ℕ → HttpRequest
counted req n = record req { params_count = req.params_count + n }

round :
    (f : ℕ) (p : HttpKeyValue) (r buf : Bytes) (req : HttpRequest) (l : List HttpKeyValue) (m : Mem)
    → strchr buf b'=' ≡ some (p.key, r)
    → (split_value r).0 ≡ p.value
    → Plentiful m
    → query_loop (suc f) buf req l m
      ≡ query_loop f (split_value r).1 (counted req 1) (l ++ p ∷ []) (stored m)
unfolding query_loop
round f p r [] req l m e v g = absurd (unfold strchr in cc e)
round f p r (c ∷ s) req l m e v g =
    ground (arith, g m.asked, g (m.asked + 1), g (m.asked + 1 + 1), g (m.asked + 1 + 1 + 1))

split_value_last : (v : Bytes) → Lacks b'&' v → split_value v ≡ (v, [])
unfolding split_value
split_value_last v h = rw (strchr-none v b'&' h, split_value)

split_value_more : (v r : Bytes) → Lacks b'&' v → split_value (v ++ b'&' ∷ r) ≡ (v, r)
unfolding split_value
split_value_more v r h = rw (strchr-append v r b'&' h, split_value)

-- The loop ended without an error, with the parameters `l` and the count raised by `n`.
abbrev pub Collected : List HttpKeyValue → ℕ → HttpRequest → Mem → Option Parsed → Type 0
Collected l n req m r =
    (out : Parsed) × (r ≡ some out)
    × (out.code ≡ success)
    × (out.params_out ≡ some l)
    × (out.req ≡ counted req n)
    × (out.mem.live ≡ m.live + 4 * n)
    × Plentiful out.mem

Collected-none :
    (f : ℕ) (req : HttpRequest) (l : List HttpKeyValue) (m : Mem)
    → Plentiful m
    → Collected l 0 req m (query_loop (suc f) [] req l m)
unfolding query_loop
Collected-none f req l m g = (
  record { code = success; req = req; params_out = some l; mem = m },
  refl,
  refl,
  refl,
  ap (λ n. record req { params_count = n }) (omega arith),
  omega arith,
  g,
)

-- The outcome of the rounds behind the first is that of the whole.
Collected-more :
    (p : HttpKeyValue) (ps l : List HttpKeyValue) (req : HttpRequest) (m : Mem) (r : Option Parsed)
    → Collected ((l ++ p ∷ []) ++ ps) (length ps) (counted req 1) (stored m) r
    → Collected (l ++ p ∷ ps) (length (p ∷ ps)) req m r
Collected-more p ps l req m r (out, e, c, o, q, live, g) = (
  out,
  e,
  c,
  o ∙ ap some (append_assoc l (p ∷ []) ps),
  q ∙ ap (λ n. record req { params_count = n }) (omega arith),
  omega arith,
  g,
)

pub loop-render :
    (f : ℕ) (ps l : List HttpKeyValue) (req : HttpRequest) (m : Mem)
    → All IsParam ps
    → Plentiful m
    → length ps < f
    → Collected (l ++ ps) (length ps) req m (query_loop f (render ps) req l m)
loop-render zero ps l req m i g h = absurd (omega arith)
loop-render (suc f) [] l req m i g h = rw append-nil (Collected-none f req l m g)
loop-render (suc zero) (p ∷ []) l req m i g h = absurd (omega arith)
loop-render (suc (suc f)) (p ∷ []) l req m ((k, v), i) g h =
    let e =
      round (suc f) p p.value (render (p ∷ [])) req l m (strchr-append p.key p.value b'=' k)
        (ap (λ s. s.0) (split_value_last p.value v)) g
      ∙ ap (λ s. query_loop (suc f) s.1 (counted req 1) (l ++ p ∷ []) (stored m))
          (split_value_last p.value v) in
    rw e (
      Collected-more p [] l req m _
        (rw append-nil (Collected-none f (counted req 1) (l ++ p ∷ []) (stored m) g)))
loop-render (suc f) (p ∷ q ∷ ps) l req m ((k, v), i) g h =
    let tail = p.value ++ (b'&' ∷ render (q ∷ ps)) in
    let cut = split_value_more p.value (render (q ∷ ps)) v in
    let e =
      round f p tail (render (p ∷ q ∷ ps)) req l m (strchr-append p.key tail b'=' k)
        (ap (λ s. s.0) cut) g
      ∙ ap (λ s. query_loop f s.1 (counted req 1) (l ++ p ∷ []) (stored m)) cut in
    rw e (
      Collected-more p (q ∷ ps) l req m _
        (loop-render f (q ∷ ps) (l ++ p ∷ []) (counted req 1) (stored m) i g (omega arith)))
