-- ===== src/Curl/Response.antt =====
-- What `curl_get_response` of modules/src/curl.c gives back.
use maestro_core.Base.{
  ℕ, ◌+◌, pos, negsuc, ◌⊎◌, true, List, [], ◌∷◌, ◌++◌, append_assoc, append-nil, Bytes, length,
  length-append, take, ◌≡◌, refl, sym, ap, subst, ◌∙◌, arith, Bool-cases, inl, inr,
}
use maestro_core.Memory.{Mem, granted}
use maestro_core.StringUtils.{contents}
use maestro_core.Curl.{CurlData, curl_callback, curl_callbacks, Transfer, curl_get_response}

unfoldable pub concat : List Bytes → Bytes
concat [] = []
concat (chunk ∷ l) = chunk ++ concat l

-- The bytes of the block that count are `s`.
pub record IsText (s : Bytes) (d : CurlData) : Type 0 where
  pub stored : take d.size (contents d.addr) ≡ s
  pub measured : d.size ≡ length s

take-all : (s : Bytes) → take (length s) s ≡ s
take-all [] = refl
take-all (x ∷ s) = ap (λ (t : Bytes). x ∷ t) (take-all s)

nothing : (chunk : Bytes) → length chunk ≡ 0 → chunk ≡ []
nothing [] h = refl
nothing (x ∷ l) h = absurd (omega (arith, h))

size : (chunk s : Bytes) (d : CurlData) → IsText s d → d.size + length chunk ≡ length (s ++ chunk)
size chunk s d h = omega (arith, h.measured, length-append s chunk)

callback-IsText :
    (chunk s : Bytes) (d : CurlData) (m : Mem)
    → IsText s d
    → (curl_callback chunk d m).0 ≡ length chunk
    → IsText (s ++ chunk) (curl_callback chunk d m).1
unfolding curl_callback contents
callback-IsText chunk s d m h took = elim (Bool-cases (granted m)) [
  | inl yes' ↦ rw yes' (record {
    stored =
        ap (λ (t : Bytes). take (d.size + length chunk) (t ++ chunk)) h.stored
        ∙ ap (λ (n : ℕ). take n (s ++ chunk)) (size chunk s d h)
        ∙ take-all (s ++ chunk);
    measured = size chunk s d h;
  })
  | inr no' ↦
      let e : chunk ≡ [] = nothing chunk (ground (arith, took, no')) in
      rw no' (
        subst (λ (t : Bytes). IsText t d) (sym (append-nil s) ∙ ap (λ (t : Bytes). s ++ t) (sym e))
          h)
]

callbacks-IsText :
    (l : List Bytes) (s : Bytes) (d : CurlData) (m : Mem)
    → IsText s d
    → (curl_callbacks l d m).0 ≡ true
    → IsText (s ++ concat l) (curl_callbacks l d m).1
unfolding curl_callbacks concat
callbacks-IsText [] s d m h all = subst (λ (t : Bytes). IsText t d) (sym (append-nil s)) h
callbacks-IsText (chunk ∷ l) s d m h all =
    let r = curl_callback chunk d m in
    let took : r.0 ≡ length chunk = ground (arith, all) in
    let rest : (curl_callbacks l r.1 r.2).0 ≡ true = ground (arith, all) in
    subst (λ (t : Bytes). IsText t (curl_callbacks l r.1 r.2).1) (append_assoc s chunk (concat l))
      (callbacks-IsText l (s ++ chunk) r.1 r.2 (callback-IsText chunk s d m h took) rest)

-- Where the library has a handle, and reports success only if the callback took every chunk:
-- when `curl_get_response` gives 0, the data is the chunks one behind the other, whatever was in
-- the block before, and no handle is left; otherwise it gives -1 and the handle is left behind.
pub curl_get_response-IsText :
    (t : Transfer) (d : CurlData) (m : Mem)
    → t.has_handle ≡ true
    → (t.performed ≡ true → (curl_callbacks t.chunks (record d { size = 0 }) m).0 ≡ true)
    → (let r = curl_get_response t d m in
        ((r.result ≡ pos 0) × IsText (concat t.chunks) r.data_of × (r.handles ≡ 0))
        ⊎ ((r.result ≡ negsuc 0) × (r.handles ≡ 1)))
unfolding curl_get_response
curl_get_response-IsText t d m has documented = elim (Bool-cases t.performed) [
  | inl ok ↦
      rw (has, ok)
        (inl (
          refl,
          callbacks-IsText t.chunks [] (record d { size = 0 }) m
              (record { stored = refl; measured = refl }) (documented ok),
          refl,
        ))
  | inr bad ↦ rw (has, bad) (inr (refl, refl))
]
