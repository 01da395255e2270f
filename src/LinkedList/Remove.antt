-- ===== src/LinkedList/Remove.antt =====
-- What `linked_list_item_remove` does to the chain.
use maestro_core.Base.{
  ℕ, zero, suc, ◌+◌, ◌-◌, ◌%◌, ◌^◌, ◌<◌, Option, none, some, [], ◌∷◌, ◌++◌, ◌≡◌, refl, arith,
  length, ap, ◌∙◌, sym, length-append, subst, append-nil,
}
use maestro_core.LinkedList.Chain.{Cells, last_of, Chain, Holds, Chain-set}
use maestro_core.LinkedList.{
  LinkedList, Items, set, done, freed, unlink, item_remove, items_dispose, gone, destroy,
}
use maestro_core.Memory.{Mem, release}
use maestro_core.LinkedList.Segment.{
  cut, joined, Segment-set, repoint_prev, repoint_next, apart, last_across, Chain-frame,
  Segment-frame, first_across,
}

count_lem :
    (before after : Cells) (a x count : ℕ)
    → count ≡ length (before ++ (a, x) ∷ after) % 2 ^ 32
    → (count + 2 ^ 32 - 1) % 2 ^ 32 ≡ length (before ++ after) % 2 ^ 32
count_lem before after a x count e =
    omega (arith, e, length-append before ((a, x) ∷ after), length-append before after)

-- A list without the item at `a`.
abbrev pub Removed : ℕ → LinkedList → Items → Cells → Type 0
Removed a l h cells =
    (l' : LinkedList) × (h' : Items) × (item_remove a l h ≡ done l' h') × Holds l' h' cells

Removed-alone : (a x : ℕ) (l : LinkedList) (h : Items) → Holds l h ((a, x) ∷ []) → Removed a l h []
unfolding item_remove unlink freed
Removed-alone a x l h i = (
  record { head = none; tail = none; count = (l.count + 2 ^ 32 - 1) % 2 ^ 32 },
  set a none h,
  rw (i.chain.0, item_remove) refl,
  record {
    head = refl;
    tail = refl;
    count = count_lem [] [] a x l.count i.count;
    distinct = tt;
    chain = tt;
  },
)

Removed-first :
    (a x : ℕ) (c : ℕ × ℕ) (r : Cells) (l : LinkedList) (h : Items)
    → Holds l h ((a, x) ∷ c ∷ r)
    → Removed a l h (c ∷ r)
unfolding item_remove unlink freed
Removed-first a x c r l h i =
    let k = apart a x [] (c ∷ r) i.distinct in
    let (h', e, chain, frame) = repoint_prev h (some a) none c r k.distinct_after i.chain.1 in
    (
      record { head = some c.0; tail = l.tail; count = (l.count + 2 ^ 32 - 1) % 2 ^ 32 },
      set a none h',
      rw (i.chain.0, e, item_remove) refl,
      record {
        head = refl;
        tail = i.tail;
        count = count_lem [] (c ∷ r) a x l.count i.count;
        distinct = k.distinct;
        chain = Chain-set a none h' none (c ∷ r) k.a_after chain;
      },
    )

Removed-last :
    (b : ℕ × ℕ) (s : Cells) (a x : ℕ) (l : LinkedList) (h : Items)
    → Holds l h (b ∷ s ++ (a, x) ∷ [])
    → Removed a l h (b ∷ s ++ [])
unfolding item_remove unlink freed
Removed-last b s a x l h i =
    let k = apart a x (b ∷ s) [] i.distinct in
    let (seg, (here, tt)) = cut h none (b ∷ s) ((a, x) ∷ []) i.chain in
    let (t, h', last, e, seg', frame) =
      repoint_next h none (some a) none b s k.distinct_before seg in
    (
      record { head = l.head; tail = some t; count = (l.count + 2 ^ 32 - 1) % 2 ^ 32 },
      set a none h',
      rw (here, last, e, item_remove) refl,
      record {
        head = i.head;
        tail = sym last ∙ ap (last_of none) (sym (append-nil (b ∷ s)));
        count = count_lem (b ∷ s) [] a x l.count i.count;
        distinct = k.distinct;
        chain =
            joined (set a none h') none (b ∷ s) []
              (Segment-set a none h' none (b ∷ s) none k.a_before seg') tt;
      },
    )

last_of-append :
    (p : Option ℕ) (l : Cells) (c : ℕ × ℕ) (r : Cells)
    → last_of p (l ++ c ∷ r) ≡ last_of (some c.0) r
last_of-append p [] c r = refl
last_of-append p (b ∷ l) c r = last_of-append (some b.0) l c r

Removed-inner :
    (b : ℕ × ℕ) (s : Cells) (a x : ℕ) (c : ℕ × ℕ) (r : Cells) (l : LinkedList) (h : Items)
    → Holds l h (b ∷ s ++ (a, x) ∷ c ∷ r)
    → Removed a l h (b ∷ s ++ c ∷ r)
unfolding item_remove unlink freed
Removed-inner b s a x c r l h i =
    let k = apart a x (b ∷ s) (c ∷ r) i.distinct in
    let (seg, (here, behind)) = cut h none (b ∷ s) ((a, x) ∷ c ∷ r) i.chain in
    let (t, h1, last, e1, seg1, frame1) =
      repoint_next h none (some a) (some c.0) b s k.distinct_before seg in
    let behind1 =
      Chain-frame t h h1 (some a) (c ∷ r) frame1 (last_across b s (c ∷ r) none t k.across last)
        behind in
    let (h2, e2, chain2, frame2) = repoint_prev h1 (some a) (some t) c r k.distinct_after behind1 in
    (
      record { head = l.head; tail = l.tail; count = (l.count + 2 ^ 32 - 1) % 2 ^ 32 },
      set a none h2,
      rw (here, last, e1, e2, unlink, item_remove) refl,
      record {
        head = i.head;
        tail =
            i.tail
            ∙ last_of-append none (b ∷ s) (a, x) (c ∷ r)
            ∙ sym (last_of-append none (b ∷ s) c r);
        count = count_lem (b ∷ s) (c ∷ r) a x l.count i.count;
        distinct = k.distinct;
        chain =
            joined (set a none h2) none (b ∷ s) (c ∷ r)
              (Segment-set a none h2 none (b ∷ s) (some c.0) k.a_before (
                Segment-frame c.0 h1 h2 none (b ∷ s) (some c.0) frame2
                  (first_across (b ∷ s) c r k.across) seg1))
              (Chain-set a none h2 (last_of none (b ∷ s)) (c ∷ r) k.a_after
                (subst (λ q. Chain h2 q (c ∷ r)) (sym last) chain2));
      },
    )

-- `linked_list_item_remove` removes: on a list that holds an item at the address `a`, wherever it
-- stands, it reaches no address where nothing is live, and the list then holds the items before
-- and behind it, linked in both directions, with the count one lower, modulo 2^32.
pub item_remove-Holds :
    (a x : ℕ) (before after : Cells) (l : LinkedList) (h : Items)
    → Holds l h (before ++ (a, x) ∷ after)
    → Removed a l h (before ++ after)
item_remove-Holds a x [] [] l h i = Removed-alone a x l h i
item_remove-Holds a x [] (c ∷ r) l h i = Removed-first a x c r l h i
item_remove-Holds a x (b ∷ s) [] l h i = Removed-last b s a x l h i
item_remove-Holds a x (b ∷ s) (c ∷ r) l h i = Removed-inner b s a x c r l h i

-- `linked_list_items_dispose` comes to an end with an empty list: a list that holds `cells` needs
-- one round for each of them and one to see that it is empty.
pub items_dispose-Holds :
    (f : ℕ) (cells : Cells) (l : LinkedList) (h : Items)
    → Holds l h cells
    → length cells < f
    → (l' : LinkedList) × (h' : Items) × (items_dispose f l h ≡ some (done l' h')) × Holds l' h' []
unfolding items_dispose
items_dispose-Holds zero cells l h i lt = absurd (omega arith)
items_dispose-Holds (suc f) [] l h i lt = (l, h, ground (arith, i.head), i)
items_dispose-Holds (suc f) ((a, x) ∷ r) l h i lt =
    let (l', h', e, i') = item_remove-Holds a x [] r l h i in
    let (l2, h2, e2, i2) = items_dispose-Holds f r l' h' i' (omega arith) in
    (l2, h2, rw (i.head, e, items_dispose) e2, i2)

-- `linked_list_destroy` of a well-linked list comes to an end as well, follows no dead address and
-- releases the block of the list.
pub destroy-gone :
    (f : ℕ) (cells : Cells) (l : LinkedList) (h : Items) (m : Mem)
    → Holds l h cells
    → length cells < f
    → (h' : Items) × (destroy f (some l) h m ≡ gone h' (release 1 m))
unfolding destroy
destroy-gone f cells l h m i lt =
    let (l', h', e, i') = items_dispose-Holds f cells l h i lt in (h', rw (e, destroy) refl)
