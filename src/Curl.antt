-- ===== src/Curl.antt =====
-- modules/src/curl.c. What `curl_easy_init` and `curl_easy_perform` do is an argument: whether
-- there is a handle, the chunks for which the callback is called, and whether all went well.
pub mod Response
use maestro_core.Base.{
  ℕ, zero, suc, ◌+◌, ◌-◌, ℤ, pos, negsuc, Bool, true, false, ◌&&◌, Option, none, some, List, [],
  ◌∷◌, ◌++◌, Bytes, length, take, ◌==◌, if◌then◌else◌,
}
use maestro_core.Memory.{Mem, granted, attempt, release}
use maestro_core.StringUtils.{contents, reallocated}

-- The block behind `addr`, of which the first `size` bytes count; NULL is `none`.
pub record CurlData : Type 0 where
  pub addr : Option Bytes
  pub size : ℕ

unfoldable pub curl_init : Mem → ℤ × CurlData × Mem
curl_init m =
    if granted m
    then (pos 0, record { addr = some []; size = 0 }, attempt m)
    else (negsuc 0, record { addr = none; size = 0 }, attempt m)

-- `curl_callback` with `_size * _nmemb` bytes: the number of bytes that it took.
unfoldable pub curl_callback : Bytes → CurlData → Mem → ℕ × CurlData × Mem
unfolding contents reallocated
curl_callback chunk d m =
    if granted m
    then (
      length chunk,
      record { addr = some (take d.size (contents d.addr) ++ chunk); size = d.size + length chunk },
      reallocated d.addr m,
    )
    else (0, d, reallocated d.addr m)

-- The calls of the callback for some chunks, and whether each took all that it was given.
unfoldable pub curl_callbacks : List Bytes → CurlData → Mem → Bool × CurlData × Mem
unfolding curl_callback
curl_callbacks [] d m = (true, d, m)
curl_callbacks (chunk ∷ l) d m =
    let r = curl_callback chunk d m in
    let rest = curl_callbacks l r.1 r.2 in (r.0 == length chunk && rest.0, rest.1, rest.2)

-- What the library does for one call.
pub record Transfer : Type 0 where
  pub has_handle : Bool
  pub chunks : List Bytes
  pub performed : Bool

-- The result, the data, the allocator, and the number of handles that are not cleaned up.
pub record Fetched : Type 0 where
  pub result : ℤ
  pub data_of : CurlData
  pub mem : Mem
  pub handles : ℕ

unfoldable pub curl_get_response : Transfer → CurlData → Mem → Fetched
unfolding curl_callbacks
curl_get_response t d m =
    let emptied : CurlData = record d { size = 0 } in
    let r = curl_callbacks t.chunks emptied m in
    if t.has_handle
    then record {
      result = if t.performed then pos 0 else negsuc 0;
      data_of = r.1;
      mem = r.2;
      handles = if t.performed then 0 else 1;
    }
    else record { result = negsuc 0; data_of = emptied; mem = m; handles = 0 }

unfoldable pub curl_dispose : CurlData → Mem → CurlData × Mem
curl_dispose d m = elim d.addr [ none ↦ (d, m) | some _ ↦ (record d { addr = none }, release 1 m) ]
