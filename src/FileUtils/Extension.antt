-- ===== src/FileUtils/Extension.antt =====
-- What the tests on names in utils/src/file_utils.c decide.
use maestro_core.Base.{
  ℕ, zero, suc, ◌+◌, ◌-◌, ◌≤◌, ◌<◌, true, false, not, ◌&&◌, [], ◌∷◌, ◌++◌, Bytes, length, drop,
  take, take-append-drop, drop-length-append, length-append, leb, dec_lt, if◌then◌else◌, ◌≡◌, ◌↔◌,
  refl, sym, ap, ◌∙◌, arith,
}
use maestro_core.CString.{equal}
use maestro_core.CString.Search.{equal_iff}
use maestro_core.FileUtils.{begins_dot, has_extension, ends_with}

-- The tail of `n` bytes of a text that ends in `n` bytes.
drop-tail : (s t : Bytes) → drop (length (s ++ t) - length t) (s ++ t) ≡ t
drop-tail s t =
    ap (λ (n : ℕ). drop n (s ++ t)) (omega (arith, length-append s t)) ∙ drop-length-append s t

-- `name` ends with `ext` exactly if it is a text with `ext` behind it.
pub ends_with_iff :
    (name ext : Bytes) → (ends_with name ext ≡ true) ↔ ((stem : Bytes) × (name ≡ stem ++ ext))
unfolding ends_with
ends_with_iff name ext = (from, to)
  where
    k : ℕ
    k = length name - length ext

    from :
        (leb (length ext) (length name) && equal (drop k name) ext) ≡ true
        → (stem : Bytes) × (name ≡ stem ++ ext)
    from h =
        let e : drop k name ≡ ext = (equal_iff (drop k name) ext).0 (ground (arith, h)) in
        (take k name, sym (take-append-drop k name) ∙ ap (λ (t : Bytes). take k name ++ t) e)

    to :
        ((stem : Bytes) × (name ≡ stem ++ ext))
        → (leb (length ext) (length name) && equal (drop k name) ext) ≡ true
    to (stem, is) =
        let e : drop k name ≡ ext = rw is (drop-tail stem ext) in
        let same : equal (drop k name) ext ≡ true = (equal_iff (drop k name) ext).1 e in
        let fits : length ext ≤ length name =
          omega (arith, ap (λ (t : Bytes). length t) is, length-append stem ext) in
        ground (arith, same, fits)

drop-suc : (k : ℕ) (s : Bytes) → k < length s → (c : ℕ) × (drop k s ≡ c ∷ drop (suc k) s)
drop-suc k [] h = absurd (omega (arith, h))
drop-suc zero (c ∷ s) h = (c, refl)
drop-suc (suc k) (c ∷ s) h = drop-suc k s (omega (arith, h))

dotted :
    (c : ℕ) (s ext : Bytes)
    → (if not (begins_dot (c ∷ s)) then false else equal s ext) ≡ equal (c ∷ s) (b'.' ∷ ext)
unfolding begins_dot equal
dotted c s ext = ground arith

at_dot :
    (name ext : Bytes) (c k m j : ℕ)
    → m ≡ suc k
    → j ≡ k
    → drop k name ≡ c ∷ drop (suc k) name
    → (if not (begins_dot (drop k name)) then false else equal (drop m name) ext)
      ≡ equal (drop j name) (b'.' ∷ ext)
at_dot name ext c k m j e f d = rw (e, f, d) (dotted c (drop (suc k) name) ext)

-- `has_extension` asks for the name to end with a dot and the extension.
pub has_extension-ends_with :
    (name ext : Bytes) → has_extension name ext ≡ ends_with name (b'.' ∷ ext)
unfolding has_extension ends_with
has_extension-ends_with name ext = elim (dec_lt (length name) (length ext + 1)) [
  | yes short ↦ ground (arith, short)
  | no long ↦
      let d = drop-suc (length name - length ext - 1) name (omega (arith, long)) in
      let same =
        at_dot name ext d.0 (length name - length ext - 1) (length name - length ext)
          (length name - length (b'.' ∷ ext)) (omega (arith, long)) (omega arith) d.1 in
      ground (arith, long, same)
]

-- `has_extension` accepts exactly the names that are a text, a dot and the extension.
pub has_extension_iff :
    (name ext : Bytes)
    → (has_extension name ext ≡ true) ↔ ((stem : Bytes) × (name ≡ stem ++ b'.' ∷ ext))
has_extension_iff name ext = rw (has_extension-ends_with name ext) (ends_with_iff name (b'.' ∷ ext))
