-- ===== src/HttpParser/Method.antt =====
-- `http_method_string_to_enum` and `http_method_enum_to_string`.
use maestro_core.Base.{◌≡◌, refl, Bytes, codes, if◌then◌else◌}
use maestro_core.CString.{equal}
use maestro_core.HttpParser.{
  HttpMethod, http_options, http_get, http_post, http_put, http_delete, http_download, http_invalid,
}

unfoldable pub string_to_enum : Bytes → HttpMethod
unfolding equal
string_to_enum s =
    if equal s (codes "GET")
    then http_get
    else if equal s (codes "OPTIONS")
    then http_options
    else if equal s (codes "POST")
    then http_post
    else if equal s (codes "PUT")
    then http_put
    else if equal s (codes "DELETE")
    then http_delete
    else if equal s (codes "DOWNLOAD")
    then http_download
    else http_invalid

unfoldable pub enum_to_string : HttpMethod → Bytes
enum_to_string http_options = codes "OPTIONS"
enum_to_string http_get = codes "GET"
enum_to_string http_post = codes "POST"
enum_to_string http_put = codes "PUT"
enum_to_string http_delete = codes "DELETE"
enum_to_string http_download = codes "DOWNLOAD"
enum_to_string http_invalid = codes "INVALID"

-- `http_method_string_to_enum` reads back every name that `http_method_enum_to_string` gives.
pub string_to_enum-enum_to_string : (m : HttpMethod) → string_to_enum (enum_to_string m) ≡ m
unfolding string_to_enum enum_to_string
string_to_enum-enum_to_string http_options = refl
string_to_enum-enum_to_string http_get = refl
string_to_enum-enum_to_string http_post = refl
string_to_enum-enum_to_string http_put = refl
string_to_enum-enum_to_string http_delete = refl
string_to_enum-enum_to_string http_download = refl
string_to_enum-enum_to_string http_invalid = refl
