-- ===== src/Tests/Curl.antt =====
-- A run of modules/src/curl.c.
use maestro_core.Base.{pos, negsuc, ◌⊎◌, true, some, [], ◌∷◌, codes, ◌≡◌, refl}
use maestro_core.Memory.{Mem}
use maestro_core.StringUtils.{contents, reallocated}
use maestro_core.Curl.{CurlData, Transfer, curl_callback, curl_callbacks, curl_get_response}
use maestro_core.Curl.Response.{IsText, concat, curl_get_response-IsText}

abbrev memory : Mem
memory = record { grants = λ _. true; asked = 0; live = 1 }

-- The block still holds an older answer.
abbrev used_before : CurlData
used_before = record { addr = some (codes "old"); size = 3 }

abbrev two_chunks : Transfer
two_chunks = record { has_handle = true; chunks = codes "ab" ∷ codes "c" ∷ []; performed = true }

fetched :
    (curl_get_response two_chunks used_before memory).data_of
    ≡ record { addr = some (codes "abc"); size = 3 }
unfolding curl_get_response curl_callbacks curl_callback contents reallocated
fetched = refl

curl_get_response-IsText_example :
    (let r = curl_get_response two_chunks used_before memory in
      ((r.result ≡ pos 0) × IsText (codes "abc") r.data_of × (r.handles ≡ 0))
      ⊎ ((r.result ≡ negsuc 0) × (r.handles ≡ 1)))
unfolding concat curl_callbacks curl_callback
curl_get_response-IsText_example =
    curl_get_response-IsText two_chunks used_before memory refl (λ _. refl)
