-- ===== src/HttpStatus/Classes.antt =====
-- The codes that have a reason phrase, and the classes they belong to.
use Prim.Native.String.{String}
use maestro_core.Base.{
  ℕ, ◌+◌, ℤ, pos, negsuc, Bool, true, false, ◌&&◌, ◌||◌, some, List, [], ◌∷◌, ◌≡◌, refl, arith,
  Bytes, codes, ltb, leb, ◌==◌, if◌then◌else◌, ap, ◌≤◌, ◌<◌,
}
use maestro_core.CString.{equal}
use maestro_core.CString.Search.{equal_iff}
use maestro_core.HttpStatus.{
  is_informational, is_successful, is_redirection, is_client_error, is_server_error, is_error,
  phrases, find_phrase, reason_phrase,
}

-- How many of the five classes a code is in.
abbrev one_if : Bool → ℕ
one_if b = if b then 1 else 0

abbrev pub classes : ℤ → ℕ
classes c =
    one_if (is_informational c)
    + one_if (is_successful c)
    + one_if (is_redirection c)
    + one_if (is_client_error c)
    + one_if (is_server_error c)

-- A test that every entry of a table passes, as a pair of the code and its phrase.
every : (ℕ → Bytes → Bool) → List (ℕ × String) → Bool
every test [] = true
every test ((k, s) ∷ table) = test k (codes s) && every test table

every_sound :
    (test : ℕ → Bytes → Bool) (table : List (ℕ × String)) (n : ℕ) (p : Bytes)
    → every test table ≡ true
    → find_phrase table n ≡ some p
    → test n p ≡ true
unfolding every find_phrase
every_sound test [] n p h e = cc
every_sound test ((k, s) ∷ table) n p h e = ground (arith, every_sound test table n p)

in_range : every (λ n p. leb 100 n && ltb n 600) phrases ≡ true
unfolding every
in_range = refl

abbrev not_equal : Bytes → Bytes → Bool
not_equal p q = if equal p q then false else true

-- no two entries of the table have the same phrase
pairwise : every (λ n p. every (λ k q. n == k || not_equal p q) phrases) phrases ≡ true
unfolding every equal
pairwise = refl

range_of : (n : ℕ) → (leb 100 n && ltb n 600) ≡ true → (100 ≤ n) × (n < 600)
range_of n h = ground arith

pub reason_phrase_range :
    (n : ℕ) {phrase : Bytes} → reason_phrase (pos n) ≡ some phrase → (100 ≤ n) × (n < 600)
unfolding reason_phrase
reason_phrase_range n {phrase} e =
    range_of n (every_sound (λ n p. leb 100 n && ltb n 600) phrases n phrase in_range e)

classes_of_range :
    (n : ℕ)
    → 100 ≤ n
    → n < 600
    → (classes (pos n) ≡ 1)
      × (is_error (pos n) ≡ (is_client_error (pos n) || is_server_error (pos n)))
unfolding is_informational is_successful is_redirection is_client_error is_server_error is_error
classes_of_range n lo hi = (ground arith, ground arith)

eq_of_cell : (a b : ℕ) (p : Bytes) → (a == b || not_equal p p) ≡ true → a ≡ b
eq_of_cell a b p h = ground (arith, equal_iff p p)

-- A code with a reason phrase lies from 100 to 599, so it is in exactly one of the five classes,
-- and it is an error code exactly if it is a client or a server error.
pub reason_phrase-classes :
    (code : ℤ) {phrase : Bytes}
    → reason_phrase code ≡ some phrase
    → (classes code ≡ 1) × (is_error code ≡ (is_client_error code || is_server_error code))
reason_phrase-classes (negsuc n) e = absurd (unfold reason_phrase in cc e)
reason_phrase-classes (pos n) e = let r = reason_phrase_range n e in classes_of_range n r.0 r.1

-- Different codes have different phrases: the phrase alone determines the code.
pub reason_phrase_injective :
    (a b : ℤ) {phrase : Bytes}
    → reason_phrase a ≡ some phrase
    → reason_phrase b ≡ some phrase
    → a ≡ b
unfolding reason_phrase
reason_phrase_injective (negsuc a) b e f = absurd (cc e)
reason_phrase_injective (pos a) (negsuc b) e f = absurd (cc f)
reason_phrase_injective (pos a) (pos b) {phrase} e f =
    let row =
      every_sound (λ n p. every (λ k q. n == k || not_equal p q) phrases) phrases a phrase pairwise
        e in
    let cell = every_sound (λ k q. a == k || not_equal phrase q) phrases b phrase row f in
    ap pos (eq_of_cell a b phrase cell)
