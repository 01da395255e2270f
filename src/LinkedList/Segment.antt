-- ===== src/LinkedList/Segment.antt =====
-- Parts of a chain, and the change of one link.
use maestro_core.Base.{
  ℕ, Option, some, [], ◌∷◌, ◌++◌, ◌≡◌, ◌≢◌, refl, All, ap, ◌∙◌, sym, All-append, subst,
}
use maestro_core.LinkedList.Chain.{
  Cells, first_of, last_of, Without, Distinct, Chain, set-other, set-same, Chain-set, last-Without,
}
use maestro_core.LinkedList.{LinkedItem, Items, set, set_next, set_prev}

abbrev pub first_or : Option ℕ → Cells → Option ℕ
first_or o [] = o
first_or o (c ∷ l) = some c.0

-- A chain whose last item points to `o`.
abbrev pub Segment : Items → Option ℕ → Cells → Option ℕ → Type 0
Segment h p [] o = Unit
Segment h p (c ∷ l) o =
    (h c.0 ≡ some (record { prev = p; next = first_or o l; item = c.1 })) × Segment h (some c.0) l o

first_of-append : (l r : Cells) → first_of (l ++ r) ≡ first_or (first_of r) l
first_of-append [] r = refl
first_of-append (c ∷ l) r = refl

pub cut :
    (h : Items) (p : Option ℕ) (l r : Cells)
    → Chain h p (l ++ r)
    → Segment h p l (first_of r) × Chain h (last_of p l) r
cut h p [] r c = (tt, c)
cut h p (x ∷ l) r (here, c) =
    let (s, t) = cut h (some x.0) l r c in
    (
      (here ∙ ap (λ o. some (record { prev = p; next = o; item = x.1 })) (first_of-append l r), s),
      t,
    )

pub joined :
    (h : Items) (p : Option ℕ) (l r : Cells)
    → Segment h p l (first_of r)
    → Chain h (last_of p l) r
    → Chain h p (l ++ r)
joined h p [] r s c = c
joined h p (x ∷ l) r (here, s) c = (
  here ∙ ap (λ o. some (record { prev = p; next = o; item = x.1 })) (sym (first_of-append l r)),
  joined h (some x.0) l r s c,
)

pub Segment-set :
    (a : ℕ) (v : Option LinkedItem) (h : Items) (p : Option ℕ) (l : Cells) (o : Option ℕ)
    → Without a l
    → Segment h p l o
    → Segment (set a v h) p l o
Segment-set a v h p [] o w c = tt
Segment-set a v h p (x ∷ l) o (ne, w) (here, c) =
    (set-other a x.0 v h ne ∙ here, Segment-set a v h (some x.0) l o w c)

-- The first item behind the removed one
pub repoint_prev :
    (h : Items) (p q : Option ℕ) (c : ℕ × ℕ) (l : Cells)
    → Distinct (c ∷ l)
    → Chain h p (c ∷ l)
    → (h' : Items) × (set_prev c.0 q h ≡ some h')
      × Chain h' q (c ∷ l)
      × ((b : ℕ) → b ≢ c.0 → h' b ≡ h b)
unfolding set_prev
repoint_prev h p q c l (w, d) (here, chain) =
    let n : LinkedItem = record { prev = q; next = first_of l; item = c.1 } in
    (
      set c.0 (some n) h,
      rw (here, set_prev) refl,
      (set-same c.0 (some n) h, Chain-set c.0 (some n) h (some c.0) l w chain),
      λ b ne. set-other c.0 b (some n) h (λ e. ne (sym e)),
    )

-- The last item before it
pub repoint_next :
    (h : Items) (p o u : Option ℕ) (c : ℕ × ℕ) (l : Cells)
    → Distinct (c ∷ l)
    → Segment h p (c ∷ l) o
    → (t : ℕ) × (h' : Items) × (last_of p (c ∷ l) ≡ some t)
      × (set_next t u h ≡ some h')
      × Segment h' p (c ∷ l) u
      × ((b : ℕ) → b ≢ t → h' b ≡ h b)
unfolding set_next
repoint_next h p o u c [] d (here, s) =
    let n : LinkedItem = record { prev = p; next = u; item = c.1 } in
    (
      c.0,
      set c.0 (some n) h,
      refl,
      rw (here, set_next) refl,
      (set-same c.0 (some n) h, tt),
      λ b ne. set-other c.0 b (some n) h (λ e. ne (sym e)),
    )
repoint_next h p o u c (x ∷ l) (w, d) (here, s) =
    let (t, h', last, e, s', frame) = repoint_next h (some c.0) o u x l d s in
    (
      t,
      h',
      last,
      e,
      (frame c.0 (λ q. last-Without c.0 x l (some c.0) t w last (sym q)) ∙ here, s'),
      frame,
    )

Without-parts : (k : ℕ) (l r : Cells) → Without k (l ++ r) → Without k l × Without k r
Without-parts k [] r w = (tt, w)
Without-parts k (c ∷ l) r (ne, w) = let (x, y) = Without-parts k l r w in ((ne, x), y)

-- What is known of different addresses around `a`.
pub record Apart (a : ℕ) (before after : Cells) : Type 0 where
  pub distinct_before : Distinct before
  pub distinct_after : Distinct after
  pub a_before : Without a before
  pub a_after : Without a after
  pub across : All (λ c. Without c.0 after) before
  pub distinct : Distinct (before ++ after)

pub apart :
    (a x : ℕ) (before after : Cells) → Distinct (before ++ (a, x) ∷ after) → Apart a before after
apart a x [] after (w, d) = record {
  distinct_before = tt;
  distinct_after = d;
  a_before = tt;
  a_after = w;
  across = tt;
  distinct = d;
}
apart a x (b ∷ before) after (w, d) =
    let r = apart a x before after d in
    let (wb, (ne, wa)) = Without-parts b.0 before ((a, x) ∷ after) w in
    record {
      distinct_before = (wb, r.distinct_before);
      distinct_after = r.distinct_after;
      a_before = ((λ e. ne (sym e)), r.a_before);
      a_after = r.a_after;
      across = (wa, r.across);
      distinct = (All-append (λ c. b.0 ≢ c.0) before after wb wa, r.distinct);
    }

pub last_across :
    (b : ℕ × ℕ) (l r : Cells) (p : Option ℕ) (t : ℕ)
    → All (λ c. Without c.0 r) (b ∷ l)
    → last_of p (b ∷ l) ≡ some t
    → Without t r
last_across b [] r p t (w, all) e = subst (λ k. Without k r) (get e) w
  where
    get : some b.0 ≡ some t → b.0 ≡ t
    get q = cc q
last_across b (c ∷ l) r p t (w, all) e = last_across c l r (some b.0) t all e

-- Heaps that differ at most at one address outside of the chain
pub Chain-frame :
    (t : ℕ) (h h' : Items) (p : Option ℕ) (l : Cells)
    → ((b : ℕ) → b ≢ t → h' b ≡ h b)
    → Without t l
    → Chain h p l
    → Chain h' p l
Chain-frame t h h' p [] f w c = tt
Chain-frame t h h' p (x ∷ l) f (ne, w) (here, c) =
    (f x.0 (λ e. ne (sym e)) ∙ here, Chain-frame t h h' (some x.0) l f w c)

pub Segment-frame :
    (t : ℕ) (h h' : Items) (p : Option ℕ) (l : Cells) (o : Option ℕ)
    → ((b : ℕ) → b ≢ t → h' b ≡ h b)
    → Without t l
    → Segment h p l o
    → Segment h' p l o
Segment-frame t h h' p [] o f w c = tt
Segment-frame t h h' p (x ∷ l) o f (ne, w) (here, c) =
    (f x.0 (λ e. ne (sym e)) ∙ here, Segment-frame t h h' (some x.0) l o f w c)

pub first_across :
    (l : Cells) (c : ℕ × ℕ) (r : Cells) → All (λ d. Without d.0 (c ∷ r)) l → Without c.0 l
first_across [] c r all = tt
first_across (d ∷ l) c r ((ne, w), all) = ((λ e. ne (sym e)), first_across l c r all)
