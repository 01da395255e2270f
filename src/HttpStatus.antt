-- ===== src/HttpStatus.antt =====
-- utils/src/HTTPStatusCodes.c: the classes of status codes and their reason phrases.
pub mod Classes
use Prim.Native.String.{String}
use maestro_core.Base.{
  ℕ, ℤ, pos, negsuc, Bool, false, ◌&&◌, Option, none, some, List, [], ◌∷◌, Bytes, codes, ltb, leb,
  ◌==◌, ltb_ℤ, not, if◌then◌else◌,
}

-- `lo <= code && code < hi`
abbrev between : ℕ → ℕ → ℤ → Bool
between lo hi (pos n) = leb lo n && ltb n hi
between lo hi (negsuc n) = false

unfoldable pub is_informational : ℤ → Bool
is_informational = between 100 200

unfoldable pub is_successful : ℤ → Bool
is_successful = between 200 300

unfoldable pub is_redirection : ℤ → Bool
is_redirection = between 300 400

unfoldable pub is_client_error : ℤ → Bool
is_client_error = between 400 500

unfoldable pub is_server_error : ℤ → Bool
is_server_error = between 500 600

unfoldable pub is_error : ℤ → Bool
is_error code = not (ltb_ℤ code (pos 400))

-- The cases of the switch in `HttpStatus_reasonPhrase`, in the source's order.
abbrev pub phrases : List (ℕ × String)
phrases =
    (100, "Continue")
    ∷ (101, "Switching Protocols")
    ∷ (102, "Processing")
    ∷ (103, "Early Hints")
    ∷ (200, "OK")
    ∷ (201, "Created")
    ∷ (202, "Accepted")
    ∷ (203, "Non-Authoritative Information")
    ∷ (204, "No Content")
    ∷ (205, "Reset Content")
    ∷ (206, "Partial Content")
    ∷ (207, "Multi-Status")
    ∷ (208, "Already Reported")
    ∷ (226, "IM Used")
    ∷ (300, "Multiple Choices")
    ∷ (301, "Moved Permanently")
    ∷ (302, "Found")
    ∷ (303, "See Other")
    ∷ (304, "Not Modified")
    ∷ (305, "Use Proxy")
    ∷ (307, "Temporary Redirect")
    ∷ (308, "Permanent Redirect")
    ∷ (400, "Bad Request")
    ∷ (401, "Unauthorized")
    ∷ (402, "Payment Required")
    ∷ (403, "Forbidden")
    ∷ (404, "Not Found")
    ∷ (405, "Method Not Allowed")
    ∷ (406, "Not Acceptable")
    ∷ (407, "Proxy Authentication Required")
    ∷ (408, "Request Timeout")
    ∷ (409, "Conflict")
    ∷ (410, "Gone")
    ∷ (411, "Length Required")
    ∷ (412, "Precondition Failed")
    ∷ (413, "Content Too Large")
    ∷ (414, "URI Too Long")
    ∷ (415, "Unsupported Media Type")
    ∷ (416, "Range Not Satisfiable")
    ∷ (417, "Expectation Failed")
    ∷ (418, "I'm a teapot")
    ∷ (421, "Misdirected Request")
    ∷ (422, "Unprocessable Content")
    ∷ (423, "Locked")
    ∷ (424, "Failed Dependency")
    ∷ (425, "Too Early")
    ∷ (426, "Upgrade Required")
    ∷ (428, "Precondition Required")
    ∷ (429, "Too Many Requests")
    ∷ (431, "Request Header Fields Too Large")
    ∷ (451, "Unavailable For Legal Reasons")
    ∷ (500, "Internal Server Error")
    ∷ (501, "Not Implemented")
    ∷ (502, "Bad Gateway")
    ∷ (503, "Service Unavailable")
    ∷ (504, "Gateway Timeout")
    ∷ (505, "HTTP Version Not Supported")
    ∷ (506, "Variant Also Negotiates")
    ∷ (507, "Insufficient Storage")
    ∷ (508, "Loop Detected")
    ∷ (510, "Not Extended")
    ∷ (511, "Network Authentication Required")
    ∷ []

pub find_phrase : List (ℕ × String) → ℕ → Option Bytes
find_phrase [] n = none
find_phrase ((k, s) ∷ table) n = if k == n then some (codes s) else find_phrase table n

-- `none` is the NULL of the default case.
unfoldable pub reason_phrase : ℤ → Option Bytes
unfolding find_phrase
reason_phrase (pos n) = find_phrase phrases n
reason_phrase (negsuc n) = none
