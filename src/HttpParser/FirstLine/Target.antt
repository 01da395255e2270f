-- ===== src/HttpParser/FirstLine/Target.antt =====
-- `http_parser_first_line` on request lines with and without a query string.
use maestro_core.Base.{
  ◌+◌, some, none, Option, List, [], ◌∷◌, ◌++◌, ◌≡◌, ◌≢◌, arith, Bytes, Lacks, length-append, All,
  ap, ◌∙◌,
}
use maestro_core.CString.Search.{strchr-none}
use maestro_core.ErrorCode.{success}
use maestro_core.HttpParser.{HttpKeyValue, HttpMethod, HttpRequest}
use maestro_core.HttpParser.FirstLine.{first_line, target_with, finish}
use maestro_core.HttpParser.FirstLine.RoundTrip.{
  RequestLine, copy_line, split_lem, first_line-line_of,
}
use maestro_core.HttpParser.Method.{string_to_enum}
use maestro_core.HttpParser.Query.{Parsed}
use maestro_core.HttpParser.Query.RoundTrip.{IsParam, render}
use maestro_core.Memory.{Mem, attempt, Plentiful}

-- A path, with a query string where there are parameters.
abbrev pub target_text : Bytes → Option (List HttpKeyValue) → Bytes
target_text path none = path
target_text path (some params) = path ++ (b'?' ∷ render params)

abbrev ParamsForm : Option (List HttpKeyValue) → Type 0
ParamsForm none = Unit
ParamsForm (some params) = All IsParam params

-- A target that can stand in a request line.
pub record IsTarget (path : Bytes) (params : Option (List HttpKeyValue)) : Type 0 where
  pub no_nul : Lacks 0 (target_text path params)
  pub no_space : Lacks b' ' (target_text path params)
  pub no_cr : Lacks b'\r' (target_text path params)
  pub no_question : Lacks b'?' path
  pub params_form : ParamsForm params

-- What the parser has read of a line.
pub record IsRead (method : HttpMethod) (path : Bytes) (params : Option (List HttpKeyValue))
    (version : Bytes) (out : Parsed) : Type 0 where
  pub code : out.code ≡ success
  pub method_is : out.req.method ≡ method
  pub path_is : out.req.path ≡ some path
  pub version_is : out.req.version ≡ some version
  pub params_is : out.params_out ≡ params

abbrev pub line_with : Bytes → Bytes → Option (List HttpKeyValue) → Bytes → Bytes
line_with method path params version =
    method ++ (b' ' ∷ (target_text path params ++ (b' ' ∷ version)))

-- With memory granted, a line of a method, a target and a version is read back.
pub first_line-line_with :
    (method path version : Bytes) (params : Option (List HttpKeyValue)) (req : HttpRequest)
    (before : Option (List HttpKeyValue)) (m : Mem)
    → Lacks 0 (line_with method path params version)
    → Lacks b' ' method
    → IsTarget path params
    → version ≢ []
    → Plentiful m
    → (out : Parsed) × (first_line (line_with method path params version) req before m ≡ some out)
      × IsRead (string_to_enum method) path params version out
unfolding target_with finish
first_line-line_with method path version none req before m nul space t ne g = (
  finish method version (record req { path = some path }) none (attempt (attempt m)),
  copy_line (line_with method path none version) req before m nul
        (omega (arith, length-append method (b' ' ∷ (path ++ (b' ' ∷ version))))) (g m.asked)
      ∙ split_lem method path version req (attempt m) space t.no_space ne
      ∙ ap (λ s. target_with method version path s req (attempt m))
          (strchr-none path b'?' t.no_question)
      ∙ ground (arith, g (m.asked + 1)),
  ground (arith, g (m.asked + 1 + 1), g (m.asked + 1 + 1 + 1)),
)
first_line-line_with method path version (some params) req before m nul space t ne g =
    let r : RequestLine = record {
      method = method;
      path = path;
      params = params;
      version = version;
    } in
    let (out, is, stored) =
      first_line-line_of r req before m
        (record {
          no_nul = nul;
          method_space = space;
          target_space = t.no_space;
          path_question = t.no_question;
          params_form = t.params_form;
          version_ne_nil = ne;
        })
        g in
    (
      out,
      is,
      record {
        code = stored.code;
        method_is = stored.method;
        path_is = stored.path;
        version_is = stored.version;
        params_is = stored.params_out;
      },
    )
