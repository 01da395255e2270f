-- ===== src/LinkedList/Chain.antt =====
-- The list that a chain of items stands for.
use maestro_core.Base.{
  ℕ, ◌+◌, ◌%◌, ◌^◌, Option, none, some, List, [], ◌∷◌, ◌++◌, ◌≡◌, ◌≢◌, refl, arith, All, length, ap,
  ◌∙◌, sym, length-append,
}
use maestro_core.LinkedList.{
  LinkedItem, LinkedList, Items, set, done, set_next, finished, link, item_add,
}

-- Addresses with what their items hold.
abbrev pub Cells : Type 0
Cells = List (ℕ × ℕ)

abbrev pub first_of : Cells → Option ℕ
first_of [] = none
first_of (c ∷ l) = some c.0

abbrev pub last_of : Option ℕ → Cells → Option ℕ
last_of p [] = p
last_of p (c ∷ l) = last_of (some c.0) l

abbrev pub Without : ℕ → Cells → Type 0
Without a = All (λ c. a ≢ c.0)

-- The addresses are different.
abbrev pub Distinct : Cells → Type 0
Distinct [] = Unit
Distinct (c ∷ l) = Without c.0 l × Distinct l

-- From the first cell on, with `p` before it, the items are linked both ways.
abbrev pub Chain : Items → Option ℕ → Cells → Type 0
Chain h p [] = Unit
Chain h p (c ∷ l) =
    (h c.0 ≡ some (record { prev = p; next = first_of l; item = c.1 })) × Chain h (some c.0) l

pub record Holds (l : LinkedList) (h : Items) (cells : Cells) : Type 0 where
  pub head : l.head ≡ first_of cells
  pub tail : l.tail ≡ last_of none cells
  pub count : l.count ≡ length cells % 2 ^ 32
  pub distinct : Distinct cells
  pub chain : Chain h none cells

pub set-other : (a b : ℕ) (v : Option LinkedItem) (h : Items) → a ≢ b → set a v h b ≡ h b
unfolding set
set-other a b v h ne = ground arith

pub set-same : (a : ℕ) (v : Option LinkedItem) (h : Items) → set a v h a ≡ v
unfolding set
set-same a v h = ground arith

-- A change outside of a chain
pub Chain-set :
    (a : ℕ) (v : Option LinkedItem) (h : Items) (p : Option ℕ) (l : Cells)
    → Without a l
    → Chain h p l
    → Chain (set a v h) p l
Chain-set a v h p [] w c = tt
Chain-set a v h p (x ∷ l) (ne, w) (here, c) =
    (set-other a x.0 v h ne ∙ here, Chain-set a v h (some x.0) l w c)

Distinct-snoc : (a x : ℕ) (l : Cells) → Distinct l → Without a l → Distinct (l ++ (a, x) ∷ [])
Distinct-snoc a x [] d w = (tt, tt)
Distinct-snoc a x (c ∷ l) (dc, d) (ne, w) = (snoc l dc, Distinct-snoc a x l d w)
  where
    snoc : (l : Cells) → Without c.0 l → Without c.0 (l ++ (a, x) ∷ [])
    snoc [] wl = ((λ e. ne (sym e)), tt)
    snoc (b ∷ l) (nb, wl) = (nb, snoc l wl)

last-snoc : (p : Option ℕ) (l : Cells) (a x : ℕ) → last_of p (l ++ (a, x) ∷ []) ≡ some a
last-snoc p [] a x = refl
last-snoc p (c ∷ l) a x = last-snoc (some c.0) l a x

pub last-Without :
    (k : ℕ) (b : ℕ × ℕ) (l : Cells) (p : Option ℕ) (t : ℕ)
    → Without k (b ∷ l)
    → last_of p (b ∷ l) ≡ some t
    → t ≢ k
last-Without k b [] p t (ne, w) e = ground arith
last-Without k b (c ∷ l) p t (ne, w) e = last-Without k c l (some b.0) t w e

-- The chain `c ∷ l` with a last cell `t`: its item, and the chain once `a` is linked behind it.
module _ (h : Items) (a x : ℕ) where
  Linked : Option ℕ → Cells → Type 0
  Linked p l =
      (t : ℕ) × (n : LinkedItem) × (last_of p l ≡ some t)
      × (h t ≡ some n)
      × Chain
          (set t (some (record n { next = some a }))
            (set a (some (record { prev = some t; next = none; item = x })) h))
          p (l ++ (a, x) ∷ [])

  link_last :
      (c : ℕ × ℕ) (l : Cells) (p : Option ℕ)
      → Distinct (c ∷ l)
      → Without a (c ∷ l)
      → Chain h p (c ∷ l)
      → Linked p (c ∷ l)
  unfolding Linked
  link_last c [] p d (ne, w) (here, tt) = (
    c.0,
    record { prev = p; next = none; item = c.1 },
    refl,
    here,
    (set-same c.0 _ _, (set-other c.0 a _ _ (λ e. ne (sym e)) ∙ set-same a _ h, tt)),
  )
  link_last c (b ∷ l) p (dc, d) (ne, w) (here, chain) =
      let (t, n, last, at, new) = link_last b l (some c.0) d w chain in
      (
        t,
        n,
        last,
        at,
        (
          set-other t c.0 _ _ (last-Without c.0 b l (some c.0) t dc last)
              ∙ set-other a c.0 _ h ne
              ∙ here,
          new,
        ),
      )

-- `linked_list_item_add` appends: on a list that holds `cells`, with `malloc` giving an address
-- where none of them stands, it succeeds, and the list then holds the new item behind them, linked
-- in both directions, with the count one higher, modulo 2^32.
pub item_add-Holds :
    (a x : ℕ) (l : LinkedList) (h : Items) (cells : Cells)
    → Holds l h cells
    → Without a cells
    → (l' : LinkedList) × (h' : Items) × (item_add (some a) x l h ≡ done l' h')
      × Holds l' h' (cells ++ (a, x) ∷ [])
unfolding item_add Linked set_next finished
item_add-Holds a x l h [] i w = (
  record { head = some a; tail = some a; count = (l.count + 1) % 2 ^ 32 },
  set a (some (record { prev = none; next = none; item = x })) h,
  ap (λ t. link a x t l h) i.tail,
  record {
    head = refl;
    tail = refl;
    count = omega (arith, i.count);
    distinct = (tt, tt);
    chain = (set-same a _ h, tt);
  },
)
item_add-Holds a x l h (c ∷ cells) i w =
    let (t, n, last, at, chain) = link_last h a x c cells none i.distinct w i.chain in
    let new = some (record { prev = some t; next = none; item = x }) in
    let found = set-other a t new h (λ e. last-Without a c cells none t w last (sym e)) ∙ at in
    (
      record l { tail = some a; count = (l.count + 1) % 2 ^ 32 },
      set t (some (record n { next = some a })) (set a new h),
      ap (λ t. link a x t l h) (i.tail ∙ last) ∙ rw (found, link, set_next) refl,
      record {
        head = i.head;
        tail = sym (last-snoc none (c ∷ cells) a x);
        count = omega (arith, i.count, length-append (c ∷ cells) ((a, x) ∷ []));
        distinct = Distinct-snoc a x (c ∷ cells) i.distinct w;
        chain = chain;
      },
    )
