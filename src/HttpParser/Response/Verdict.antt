-- ===== src/HttpParser/Response/Verdict.antt =====
-- What `http_parser_response_firstline` makes of a status line, by its status code and phrase.
use maestro_core.Base.{
  ℕ, ◌+◌, pos, true, none, some, ◌∷◌, ◌++◌, ◌≡◌, ◌≢◌, inl, arith, Bytes, Lacks, length,
  length-append, ap, ◌∙◌,
}
use maestro_core.CString.{c_str}
use maestro_core.CString.Search.{c_str-Lacks, strchr-append, equal_iff}
use maestro_core.ErrorCode.{success, err_bad_format}
use maestro_core.HttpParser.{HttpResponse, response_blocks, dispose_response}
use maestro_core.HttpParser.Response.{
  returns, null_dereference, status_int, check_phrase, store, split_status, response_firstline,
}
use maestro_core.HttpStatus.{reason_phrase}
use maestro_core.HttpStatus.Classes.{reason_phrase_range}
use maestro_core.Memory.{Mem, granted, attempt, release, Plentiful}
use maestro_core.Numbers.{decimal}
use maestro_core.Numbers.Decimal.{decimal-IsDigit, Lacks-digits}
use maestro_core.StringUtils.{parse_string_to_int}
use maestro_core.StringUtils.Parse.{parse-decimal}

-- `HTTP-version SP status SP reason`
abbrev pub line_of : Bytes → Bytes → Bytes → Bytes
line_of version status reason = version ++ (b' ' ∷ (status ++ (b' ' ∷ reason)))

-- The strings of a line, stored in the response.
abbrev pub stored : Bytes → Bytes → Bytes → HttpResponse → HttpResponse
stored version status reason resp = record resp {
  version = some version;
  status_code_string = some status;
  reason_phrase = some reason;
}

-- The heap once the copy of the line and the three strings are there.
abbrev pub held : Mem → Mem
held m = record m { asked = m.asked + 1 + 1 + 1 + 1; live = m.live + 4 }

copied :
    (line : Bytes) (resp : HttpResponse) (m : Mem)
    → length line ≢ 0
    → granted m ≡ true
    → response_firstline line resp m ≡ split_status (c_str line) resp (attempt m)
unfolding response_firstline
copied line resp m ne g = ground arith

splits :
    (version status reason : Bytes) (resp : HttpResponse) (m : Mem)
    → Lacks b' ' version
    → Lacks b' ' status
    → split_status (line_of version status reason) resp m ≡ store version status reason resp m
unfolding split_status
splits version status reason resp m hv hs =
    rw (strchr-append version (status ++ (b' ' ∷ reason)) b' ' hv, split_status)
      (rw (strchr-append status reason b' ' hs, split_status))

stores :
    (version status reason : Bytes) (resp : HttpResponse) (m : Mem)
    → Plentiful m
    → store version status reason resp (attempt m)
      ≡ check_phrase status reason (stored version status reason resp) (held m)
unfolding store
stores version status reason resp m p =
    ground (arith, p m.asked, p (m.asked + 1), p (m.asked + 1 + 1), p (m.asked + 1 + 1 + 1))

module _ (version status reason : Bytes) (resp : HttpResponse) (m : Mem)
    (no_nul : Lacks 0 (line_of version status reason)) (version_space : Lacks b' ' version)
    (status_space : Lacks b' ' status) (plenty : Plentiful m) where
  reaches_check :
      response_firstline (line_of version status reason) resp m
      ≡ check_phrase status reason (stored version status reason resp) (held m)
  reaches_check =
      copied (line_of version status reason) resp m
        (omega (arith, length-append version (b' ' ∷ (status ++ (b' ' ∷ reason))))) (plenty m.asked)
      ∙ ap (λ s. split_status s resp (attempt m))
          (c_str-Lacks (line_of version status reason) no_nul)
      ∙ splits version status reason resp (attempt m) version_space status_space
      ∙ stores version status reason resp m plenty

  -- With memory granted, a line without NUL whose status is no known code (an unassigned code, or
  -- no number at all) makes `http_parser_response_firstline` compare the phrase with NULL: the
  -- behaviour is undefined.
  pub response_firstline_unknown :
      reason_phrase (status_int status) ≡ none
      → response_firstline (line_of version status reason) resp m ≡ null_dereference
  response_firstline_unknown e = reaches_check ∙ unfold check_phrase in rw (e, check_phrase)

  -- With memory granted, a line without NUL with a known code and any phrase but the standard one
  -- is refused as ERR_BAD_FORMAT; the strings of the response are disposed of, and its blocks are
  -- freed with the copy of the line.
  pub response_firstline_other_phrase :
      (phrase : Bytes)
      → reason_phrase (status_int status) ≡ some phrase
      → reason ≢ phrase
      → response_firstline (line_of version status reason) resp m
        ≡ returns err_bad_format
            (dispose_response resp)
            (release (1 + response_blocks (stored version status reason resp)) (held m))
  response_firstline_other_phrase phrase e ne =
      reaches_check ∙ unfold check_phrase in ground (arith, equal_iff reason phrase)

-- With memory granted, the status line of every known code with its standard phrase is accepted,
-- whatever the version (it holds no space and the line no NUL), and its three strings are stored
-- and are all that stays live.
pub response_firstline_known :
    (version phrase : Bytes) (n : ℕ) (resp : HttpResponse) (m : Mem)
    → reason_phrase (pos n) ≡ some phrase
    → Lacks 0 (line_of version (decimal n) phrase)
    → Lacks b' ' version
    → Plentiful m
    → response_firstline (line_of version (decimal n) phrase) resp m
      ≡ returns success
          (stored version (decimal n) phrase resp)
          (record m { asked = m.asked + 1 + 1 + 1 + 1; live = m.live + 3 })
response_firstline_known version phrase n resp m e nul space plenty =
    reaches_check version (decimal n) phrase resp m nul space
      (Lacks-digits b' ' (decimal n) (decimal-IsDigit n) (inl (omega arith))) plenty
    ∙ accepted
  where
    known : parse_string_to_int (decimal n) ≡ some (pos n)
    known = parse-decimal n (omega (arith, reason_phrase_range n e))

    accepted :
        check_phrase (decimal n) phrase (stored version (decimal n) phrase resp) (held m)
        ≡ returns success
            (stored version (decimal n) phrase resp)
            (record m { asked = m.asked + 1 + 1 + 1 + 1; live = m.live + 3 })
    accepted = unfold check_phrase in ground (arith, known, equal_iff phrase phrase)
