-- ===== src/Memory.antt =====
-- The allocator that every component calls. Addresses play no part: what is tracked is which
-- requests are granted and how many blocks are live, so that leaks and double frees are visible.
use maestro_core.Base.{ℕ, ◌+◌, ◌-◌, Bool, ◌≡◌, true, if◌then◌else◌}

-- `grants n` tells whether the n-th request of the run succeeds: the environment's choice.
pub record Mem : Type 0 where
  pub grants : ℕ → Bool
  pub asked : ℕ
  pub live : ℕ

-- Whether the next `malloc`, `calloc` or `strdup` returns a block.
abbrev pub granted : Mem → Bool
granted m = m.grants m.asked

-- The allocator after the next request.
abbrev pub attempt : Mem → Mem
attempt m = record m { asked = m.asked + 1; live = if m.grants m.asked then m.live + 1 else m.live }

-- `free` of `n` blocks.
abbrev pub release : ℕ → Mem → Mem
release n m = record m { live = m.live - n }

-- No request is refused.
abbrev pub Plentiful : Mem → Type 0
Plentiful m = (n : ℕ) → m.grants n ≡ true
