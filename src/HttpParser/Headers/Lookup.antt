-- ===== src/HttpParser/Headers/Lookup.antt =====
-- The search of `http_parser_get_header_value` and the order of the headers.
use maestro_core.Base.{
  List, [], ◌∷◌, ◌++◌, ◌≡◌, ◌≢◌, ◌↔◌, Bytes, some, arith, All, Bool-cases, inl, inr, ap, ◌∙◌,
}
use maestro_core.CString.{equal}
use maestro_core.CString.Search.{equal_iff}
use maestro_core.HttpParser.{HttpKeyValue}
use maestro_core.HttpParser.Headers.{get_header_value}

-- `v` belongs to the first entry of that name: no entry before it has the name.
pub record IsFirst (l : List HttpKeyValue) (name v : Bytes) : Type 0 where
  pub before : List HttpKeyValue
  pub after : List HttpKeyValue
  pub splits : l ≡ before ++ record { key = name; value = v } ∷ after
  pub others : All (λ (h : HttpKeyValue). h.key ≢ name) before

found-IsFirst :
    (l : List HttpKeyValue) (name v : Bytes) → get_header_value l name ≡ some v → IsFirst l name v
unfolding get_header_value
found-IsFirst [] name v e = cc
found-IsFirst (h ∷ l) name v e = elim (Bool-cases (equal h.key name)) [
  | inl same ↦ record {
    before = [];
    after = l;
    splits = ground (arith, equal_iff h.key name);
    others = tt;
  }
  | inr other ↦
      let r = found-IsFirst l name v (ground arith) in
      record {
        before = h ∷ r.before;
        after = r.after;
        splits = ap (◌∷◌ h) r.splits;
        others = (λ q. cc ((equal_iff h.key name).1 q), r.others);
      }
]

skip_others :
    (before : List HttpKeyValue) (name v : Bytes) (after : List HttpKeyValue)
    → All (λ (h : HttpKeyValue). h.key ≢ name) before
    → get_header_value (before ++ record { key = name; value = v } ∷ after) name ≡ some v
unfolding get_header_value
skip_others [] name v after o = ground (arith, equal_iff name name)
skip_others (h ∷ before) name v after (ne, o) =
    ground (arith, equal_iff h.key name, skip_others before name v after o)

-- `http_parser_get_header_value` returns `v` exactly when the first header with that name, in
-- the same case, has the value `v`.
pub get_header_value-IsFirst :
    (l : List HttpKeyValue) (name v : Bytes) → (get_header_value l name ≡ some v) ↔ IsFirst l name v
get_header_value-IsFirst l name v = (
  found-IsFirst l name v,
  λ f. ap (λ k. get_header_value k name) f.splits ∙ skip_others f.before name v f.after f.others,
)
