-- ===== src/HttpParser/FirstLine/RoundTrip.antt =====
-- Request lines as a client writes them, and what `http_parser_first_line` makes of one.
use maestro_core.Base.{
  suc, ◌+◌, ◌*◌, true, some, Option, List, [], ◌∷◌, ◌++◌, ◌≡◌, ◌≢◌, refl, arith, Bytes, Lacks,
  length, length-append, ◌<◌, All, ap, ◌∙◌,
}
use maestro_core.CString.{c_str, strchr}
use maestro_core.CString.Search.{c_str-Lacks, strchr-append}
use maestro_core.ErrorCode.{success}
use maestro_core.HttpParser.{HttpKeyValue, HttpRequest}
use maestro_core.HttpParser.FirstLine.{first_line, split_line, target_with, finish, then_finish}
use maestro_core.HttpParser.Method.{string_to_enum}
use maestro_core.HttpParser.Query.{Parsed, query_loop}
use maestro_core.HttpParser.Query.RoundTrip.{IsParam, render, Collected, loop-render}
use maestro_core.Memory.{Mem, granted, attempt, Plentiful}

pub record RequestLine : Type 0 where
  pub method : Bytes
  pub path : Bytes
  pub params : List HttpKeyValue
  pub version : Bytes

abbrev pub target_of : RequestLine → Bytes
target_of r = r.path ++ (b'?' ∷ render r.params)

-- `METHOD path?query version`
abbrev pub line_of : RequestLine → Bytes
line_of r = r.method ++ (b' ' ∷ (target_of r ++ (b' ' ∷ r.version)))

pub record IsRequestLine (r : RequestLine) : Type 0 where
  pub no_nul : Lacks 0 (line_of r)
  pub method_space : Lacks b' ' r.method
  pub target_space : Lacks b' ' (target_of r)
  pub path_question : Lacks b'?' r.path
  pub params_form : All IsParam r.params
  pub version_ne_nil : r.version ≢ []

-- The parts of the line are stored in the request and in `*_params_out`, and of the memory asked
-- for all but the copy of the line is kept.
pub record Stored (r : RequestLine) (req : HttpRequest) (m : Mem) (out : Parsed) : Type 0 where
  pub code : out.code ≡ success
  pub method_str : out.req.method_str ≡ some r.method
  pub method : out.req.method ≡ string_to_enum r.method
  pub path : out.req.path ≡ some r.path
  pub version : out.req.version ≡ some r.version
  pub params_out : out.params_out ≡ some r.params
  pub params_count : out.req.params_count ≡ req.params_count + length r.params
  pub live : out.mem.live ≡ m.live + (4 + 4 * length r.params)

pub split_lem :
    (method target version : Bytes) (req : HttpRequest) (m : Mem)
    → Lacks b' ' method
    → Lacks b' ' target
    → version ≢ []
    → split_line (method ++ (b' ' ∷ (target ++ (b' ' ∷ version)))) req m
      ≡ target_with method version target (strchr target b'?') req m
unfolding split_line target_with
split_lem method target [] req m hm ht ne = absurd (ne refl)
split_lem method target (c ∷ v) req m hm ht ne =
    rw (strchr-append method (target ++ (b' ' ∷ c ∷ v)) b' ' hm, split_line)
      (rw (strchr-append target (c ∷ v) b' ' ht, split_line))

-- The end of the function behind a loop that went well.
finished :
    (r : RequestLine) (req req' : HttpRequest) (m m' : Mem) (q : Option Parsed)
    → req'.params_count ≡ req.params_count
    → req'.path ≡ some r.path
    → m'.live ≡ m.live + 3
    → Collected r.params (length r.params) req' m' q
    → (out : Parsed) × (then_finish r.method r.version q ≡ some out) × Stored r req m out
finished r req req' m m' q k p live (out, e, c, o, rq, lv, g) = (
  finish r.method r.version out.req out.params_out out.mem,
  rw e (unfold then_finish in ground arith),
  unfold finish in
      ground (
        arith,
        g out.mem.asked,
        g (out.mem.asked + 1),
        ap (λ (x : HttpRequest). x.path) rq,
        ap (λ (x : HttpRequest). x.params_count) rq,
      ),
)

copy_c_str :
    (line : Bytes) (req : HttpRequest) (po : Option (List HttpKeyValue)) (m : Mem)
    → length line ≢ 0
    → granted m ≡ true
    → first_line line req po m ≡ split_line (c_str line) req (attempt m)
unfolding first_line
copy_c_str line req po m ne g = ground arith

pub copy_line :
    (line : Bytes) (req : HttpRequest) (po : Option (List HttpKeyValue)) (m : Mem)
    → Lacks 0 line
    → length line ≢ 0
    → granted m ≡ true
    → first_line line req po m ≡ split_line line req (attempt m)
copy_line line req po m h ne g =
    rw (copy_c_str line req po m ne g) (ap (λ s. split_line s req (attempt m)) (c_str-Lacks line h))

start :
    (r : RequestLine) (req : HttpRequest) (m : Mem)
    → Plentiful m
    → IsRequestLine r
    → target_with r.method r.version (target_of r) (some (r.path, render r.params)) req m
      ≡ then_finish r.method r.version (
          query_loop
            (suc (length (render r.params)))
            (render r.params)
            (record req { path = some r.path })
            []
            (attempt (attempt m)))
unfolding target_with
start r req m g i = ground (arith, g m.asked, g (m.asked + 1))

length-render : (ps : List HttpKeyValue) → length ps < suc (length (render ps))
length-render [] = omega arith
length-render (p ∷ []) = omega (arith, length-append p.key (b'=' ∷ p.value))
length-render (p ∷ q ∷ ps) = omega (
  arith,
  length-append p.key (b'=' ∷ (p.value ++ (b'&' ∷ render (q ∷ ps)))),
  length-append p.value (b'&' ∷ render (q ∷ ps)),
  length-render (q ∷ ps),
)

-- `http_parser_first_line` reads a request line back: with memory granted, a line
-- `METHOD path?k=v&k=v… version` whose parts do not hold the delimiters is taken apart into the
-- method with its enumerator, the path, every parameter in order with their number added to the
-- count, and the version, and all that stays live are the blocks of those parts.
pub first_line-line_of :
    (r : RequestLine) (req : HttpRequest) (params_out : Option (List HttpKeyValue)) (m : Mem)
    → IsRequestLine r
    → Plentiful m
    → (out : Parsed) × (first_line (line_of r) req params_out m ≡ some out) × Stored r req m out
first_line-line_of r req po m i g =
    let ps = r.params in
    let m3 = attempt (attempt (attempt m)) in
    let loop =
      loop-render (suc (length (render ps))) ps [] (record req { path = some r.path }) m3
        i.params_form g (length-render ps) in
    let (out, e, stored) =
      finished r req (record req { path = some r.path }) m m3 _ refl refl
        (ground (arith, g m.asked, g (m.asked + 1), g (m.asked + 1 + 1))) loop in
    (
      out,
      copy_line (line_of r) req po m i.no_nul
            (omega (arith, length-append r.method (b' ' ∷ (target_of r ++ (b' ' ∷ r.version)))))
            (g m.asked)
          ∙ split_lem r.method (target_of r) r.version req (attempt m) i.method_space i.target_space
              i.version_ne_nil
          ∙ ap (λ s. target_with r.method r.version (target_of r) s req (attempt m))
              (strchr-append r.path (render ps) b'?' i.path_question)
          ∙ start r req (attempt m) g i
          ∙ e,
      stored,
    )
