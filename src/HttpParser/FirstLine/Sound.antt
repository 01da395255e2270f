-- ===== src/HttpParser/FirstLine/Sound.antt =====
-- How `http_parser_first_line` ends, for every line and whatever memory is refused.
use maestro_core.Base.{
  ℕ, suc, ◌-◌, true, none, some, Option, List, [], ◌∷◌, ◌++◌, ◌≡◌, ◌≢◌, inl, inr, refl, arith,
  Bytes, Lacks, length, ap, ◌∙◌, Option-cases, Bool-cases, ◌&&◌, sym, append-nil, subst,
}
use mathlib.Core.List.{cons-ne-nil}
use maestro_core.CString.{c_str, strchr}
use maestro_core.CString.Search.{strchr_sound}
use maestro_core.ErrorCode.{ErrorCode, success, err_invalid_arg, err_bad_format, err_no_memory}
use maestro_core.HttpParser.{HttpKeyValue, HttpRequest}
use maestro_core.HttpParser.FirstLine.{
  first_line, split_line, leave, target_with, finish, then_finish,
}
use maestro_core.HttpParser.Method.{string_to_enum}
use maestro_core.HttpParser.Query.{Parsed, query_loop}
use maestro_core.HttpParser.Query.Total.{Ends, loop-Ends}
use maestro_core.Memory.{Mem, granted, attempt}

-- The method, the path and the version of a line, as they stand in it; `rest` is the query with
-- its question mark, if there is one.
pub record Reads (line : Bytes) (req : HttpRequest) : Type 0 where
  pub method : Bytes
  pub path : Bytes
  pub rest : Bytes
  pub version : Bytes
  pub spells : line ≡ method ++ b' ' ∷ ((path ++ rest) ++ b' ' ∷ version)
  pub method_space : Lacks b' ' method
  pub version_ne_nil : version ≢ []
  pub method_str : req.method_str ≡ some method
  pub method_enum : req.method ≡ string_to_enum method
  pub path_is : req.path ≡ some path
  pub version_is : req.version ≡ some version

-- Success stores what the text spells; a bad format leaves the request and the heap alone, and so
-- does an empty line.
abbrev pub SoundResult : ErrorCode → Bytes → HttpRequest → ℕ → Parsed → Type 0
SoundResult success text req live out = Reads text out.req
SoundResult err_bad_format text req live out = (out.req ≡ req) × (out.mem.live ≡ live)
SoundResult err_invalid_arg text req live out =
    (text ≡ []) × (out.req ≡ req) × (out.mem.live ≡ live)
SoundResult err_no_memory text req live out = Unit
SoundResult _ text req live out = ⊥

abbrev pub Returns : Bytes → HttpRequest → ℕ → Option Parsed → Type 0
Returns text req live none = ⊥
Returns text req live (some out) = SoundResult out.code text req live out

-- A text that is cut at its two spaces.
module _ (text method target version : Bytes)
    (spells : text ≡ method ++ b' ' ∷ (target ++ b' ' ∷ version)) (method_space : Lacks b' ' method)
    (version_ne_nil : version ≢ []) where
  finish_sound :
      (path rest : Bytes) (req0 req : HttpRequest) (live : ℕ) (out : Option (List HttpKeyValue))
      (m : Mem)
      → target ≡ path ++ rest
      → req.path ≡ some path
      → Returns text req0 live (some (finish method version req out m))
  unfolding finish
  finish_sound path rest req0 req live out m e p =
      elim (Bool-cases (granted m && granted (attempt m))) [
        | inl both ↦ rw both (record {
          method = method;
          path = path;
          rest = rest;
          version = version;
          spells = spells ∙ ap (λ t. method ++ b' ' ∷ (t ++ b' ' ∷ version)) e;
          method_space = method_space;
          version_ne_nil = version_ne_nil;
          method_str = ground arith;
          method_enum = refl;
          path_is = p;
          version_is = ground arith;
        })
        | inr not_both ↦ rw not_both tt
      ]

  then_finish_sound :
      (path rest : Bytes) (req0 : HttpRequest) (live : ℕ) (q : Option Parsed)
      → target ≡ path ++ rest
      → Ends path q
      → Returns text req0 live (then_finish method version q)
  unfolding then_finish
  then_finish_sound path rest req0 live none e h = h
  then_finish_sound path rest req0 live (some p) e (inl (c, k)) =
      rw (c, then_finish) (finish_sound path rest req0 p.req live p.params_out p.mem e k)
  then_finish_sound path rest req0 live (some p) e (inr c) = ground arith

  target_sound :
      (split : Option (Bytes × Bytes)) (req : HttpRequest) (live : ℕ) (m : Mem)
      → strchr target b'?' ≡ split
      → Returns text req live (target_with method version target split req m)
  unfolding target_with
  target_sound none req live m e = ground (
    arith,
    finish_sound target [] req (record req { path = some target }) live none (attempt m)
        (sym (append-nil target)) refl,
  )
  target_sound (some (path, query)) req live m e =
      let req' = record req { path = some path } in
      let loop = query_loop (suc (length query)) query req' [] (attempt (attempt m)) in
      ground (
        arith,
        then_finish_sound path (b'?' ∷ query) req live loop (strchr_sound target b'?' e).0 (
            loop-Ends (suc (length query)) query path req' [] (attempt (attempt m)) (omega arith)
              refl),
      )

version_sound :
    (text method target version : Bytes) (req : HttpRequest) (m : Mem)
    → text ≡ method ++ b' ' ∷ (target ++ b' ' ∷ version)
    → Lacks b' ' method
    → Returns text req (m.live - 1) (elim version [
      | [] ↦ some (leave err_bad_format req none m)
      | c ∷ v ↦ target_with method (c ∷ v) target (strchr target b'?') req m
    ])
version_sound text method target [] req m e h = (refl, refl)
version_sound text method target (c ∷ v) req m e h =
    target_sound text method target (c ∷ v) e h (cons-ne-nil c v) (strchr target b'?') req
      (m.live - 1) m refl

split_sound :
    (text : Bytes) (req : HttpRequest) (m : Mem)
    → Returns text req (m.live - 1) (split_line text req m)
unfolding split_line
split_sound text req m = elim (Option-cases (strchr text b' ')) [
  | inl e ↦ rw (e, split_line) (refl, refl)
  | inr ((method, rest), e) ↦ elim (Option-cases (strchr rest b' ')) [
    | inl e2 ↦ rw (e, split_line) (rw (e2, split_line) (refl, refl))
    | inr ((target, version), e2) ↦
        rw (e, split_line)
          (rw (e2, split_line)
            (version_sound text method target version req m
              ((strchr_sound text b' ' e).0
                ∙ ap (λ (t : Bytes). method ++ b' ' ∷ t) (strchr_sound rest b' ' e2).0)
              (strchr_sound text b' ' e).1))
  ]
]

-- `http_parser_first_line` comes to an end on every line, whatever memory is refused. On success
-- the request holds the method, the path and the version that the line spells, up to its first
-- NUL, with the method's enumerator; on ERR_BAD_FORMAT the request is as before and no block is
-- kept; ERR_INVALID_ARG is for an empty line, which changes nothing; and the one other result
-- is ERR_NO_MEMORY.
pub first_line_sound :
    (line : Bytes) (req : HttpRequest) (params_out : Option (List HttpKeyValue)) (m : Mem)
    → Returns (c_str line) req m.live (first_line line req params_out m)
unfolding first_line
first_line_sound [] req po m = unfold c_str in (refl, refl, refl)
first_line_sound (c ∷ s) req po m = elim (Bool-cases (granted m)) [
  | inl g ↦ ground (
    arith,
    subst (λ k. Returns (c_str (c ∷ s)) req k (split_line (c_str (c ∷ s)) req (attempt m)))
        (live_back g) (split_sound (c_str (c ∷ s)) req (attempt m)),
  )
  | inr g ↦ ground arith
]
  where
    live_back : granted m ≡ true → (attempt m).live - 1 ≡ m.live
    live_back g = ground arith
