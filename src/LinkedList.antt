-- ===== src/LinkedList.antt =====
-- modules/src/linked_list.c and modules/include/maestromodules/linked_list.h: the doubly linked
-- list on a heap of items. An address is a number, NULL is `none`.
pub mod Chain
pub mod Segment
pub mod Remove
use maestro_core.Base.{
  ℕ, suc, ◌+◌, ◌-◌, ◌%◌, ◌^◌, Bool, true, false, Option, none, some, ◌==◌, if◌then◌else◌, zero,
}
use maestro_core.Memory.{Mem, granted, attempt, release}

pub record LinkedItem : Type 0 where
  pub prev : Option ℕ
  pub next : Option ℕ
  pub item : ℕ

pub record LinkedList : Type 0 where
  pub head : Option ℕ
  pub tail : Option ℕ
  pub count : ℕ

-- The items by their addresses; `none` where no item is live.
abbrev pub Items : Type 0
Items = ℕ → Option LinkedItem

unfoldable pub set : ℕ → Option LinkedItem → Items → Items
set a v h b = if a == b then v else h b

-- An operation ends, or the allocator refuses, or it follows an address where nothing is live.
pub data ListStep : Type 0 where
  done : LinkedList → Items → ListStep
  refused : ListStep
  dangling : ListStep

-- `p->next = v` and `p->prev = v`.
unfoldable pub set_next : ℕ → Option ℕ → Items → Option Items
set_next p v h = elim (h p) [ none ↦ none | some n ↦ some (set p (some (record n { next = v })) h) ]

unfoldable pub set_prev : ℕ → Option ℕ → Items → Option Items
set_prev p v h = elim (h p) [ none ↦ none | some n ↦ some (set p (some (record n { prev = v })) h) ]

unfoldable pub finished : LinkedList → Option Items → ListStep
finished l none = dangling
finished l (some h) = done l h

unfoldable pub link : ℕ → ℕ → Option ℕ → LinkedList → Items → ListStep
unfolding finished
link a x none l h =
    done (record { head = some a; tail = some a; count = (l.count + 1) % 2 ^ 32 })
      (set a (some (record { prev = none; next = none; item = x })) h)
link a x (some t) l h =
    finished (record l { tail = some a; count = (l.count + 1) % 2 ^ 32 })
      (set_next t (some a) (set a (some (record { prev = some t; next = none; item = x })) h))

-- `malloc` answers with the address `a`, or `none`.
unfoldable pub item_add : Option ℕ → ℕ → LinkedList → Items → ListStep
unfolding link finished set_next set
item_add none x l h = refused
item_add (some a) x l h = link a x l.tail l h

-- `free` of the item at `a`, where its neighbours have been linked.
unfoldable pub freed : ℕ → LinkedList → Option Items → ListStep
freed a l none = dangling
freed a l (some h) = done (record l { count = (l.count + 2 ^ 32 - 1) % 2 ^ 32 }) (set a none h)

-- The four cases: alone, first, last, in the middle.
unfoldable pub unlink : Option ℕ → Option ℕ → ℕ → LinkedList → Items → ListStep
unlink none none a l h = freed a (record l { head = none; tail = none }) (some h)
unlink none (some n) a l h = freed a (record l { head = some n }) (set_prev n none h)
unlink (some p) none a l h = freed a (record l { tail = some p }) (set_next p none h)
unlink (some p) (some n) a l h = elim (set_next p (some n) h) [
  | none ↦ dangling
  | some h' ↦ freed a l (set_prev n (some p) h')
]

unfoldable pub item_remove : ℕ → LinkedList → Items → ListStep
item_remove a l h = elim (h a) [ none ↦ dangling | some n ↦ unlink n.prev n.next a l h ]

-- The loop `while (_List->head != NULL)`; `none` means that the fuel ran out.
unfoldable pub items_dispose : ℕ → LinkedList → Items → Option ListStep
items_dispose zero l h = none
items_dispose (suc f) l h = elim l.head [
  | none ↦ some (done l h)
  | some a ↦ elim (item_remove a l h) [
    | done l' h' ↦ items_dispose f l' h'
    | refused ↦ some refused
    | dangling ↦ some dangling
  ]
]

-- `linked_list_create`: `calloc` of a list without items; `none` where it is refused.
unfoldable pub create : Mem → Option LinkedList × Mem
create m =
    (if granted m then some (record { head = none; tail = none; count = 0 }) else none, attempt m)

-- What `linked_list_destroy` comes to: the pointer is NULL, an address was followed at which
-- nothing is live, or the fuel ran out.
pub data Destroyed : Type 0 where
  gone : Items → Mem → Destroyed
  followed_dangling : Destroyed
  running : Destroyed

unfoldable pub destroy : ℕ → Option LinkedList → Items → Mem → Destroyed
unfolding items_dispose
destroy f none h m = gone h m
destroy f (some l) h m = elim (items_dispose f l h) [
  | none ↦ running
  | some r ↦ elim r [
    | done _ h' ↦ gone h' (release 1 m)
    | refused ↦ followed_dangling
    | dangling ↦ followed_dangling
  ]
]
