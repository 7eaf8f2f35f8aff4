-- ===== src/Context/Stack.antt =====
-- src/EContext.cpp: the stack and the ucontext of a fiber, from the constructor to the destructor.
-- malloc is the system's and ES_ALIGN_DEFAULT the base library's: the addresses of the two blocks and
-- the alignment are arguments.
use cxx_fiber.Prelude.{
  ℕ, zero, if◌then◌else◌, suc, ◌+◌, ◌-◌, ◌≤◌, ◌<◌, ◌≡◌, refl, Option, none, some, List, [], ◌∷◌,
  ◌++◌, arith, ◌==◌,
}
use cxx_fiber.Fiber.{stack_size}

-- The blocks of a context, and what has been freed, the latest last.
pub record Blocks : Type 0 where
  pub context : Option ℕ
  pub stack_addr : ℕ
  pub ss_sp : ℕ
  pub ss_size : ℕ
  pub freed : List ℕ

module _ (align : ℕ → ℕ) where
  -- The constructor, for a fiber that was made with `size`.
  unfoldable pub create : ℕ → ℕ → ℕ → Blocks
  create ucontext addr size = record {
    context = some ucontext;
    stack_addr = addr;
    ss_sp = align addr;
    ss_size = stack_size size - (align addr - addr);
    freed = [];
  }

unfoldable pub free : ℕ → Blocks → Blocks
free a b = record b { freed = b.freed ++ a ∷ [] }

-- The beginning of `fiber_worker`, which runs once the fiber has been switched to.
unfoldable pub begin : Blocks → Blocks
unfolding free
begin b = elim b.context [ none ↦ b | some a ↦ record (free a b) { context = none } ]

free_context : Option ℕ → Blocks → Blocks
unfolding free
free_context none b = b
free_context (some a) b = free a b

-- The destructor; malloc has not returned NULL.
unfoldable pub destroy : Blocks → Blocks
unfolding free free_context
destroy b = free_context b.context (free b.stack_addr b)

-- The worker runs, or the fiber is destroyed before it was ever switched to.
unfoldable pub live : ℕ → Blocks → Blocks
unfolding begin
live zero b = b
live (suc n) b = live n (begin b)

-- ES_ALIGN_DEFAULT goes up to the next multiple of eight.
pub record Aligns (align : ℕ → ℕ) : Type 0 where
  pub above : (a : ℕ) → a ≤ align a
  pub near : (a : ℕ) → align a < a + 8

-- The stack that a fiber gets ends where the block ends, begins in the block, and has all but seven
-- bytes of the smallest stack at least, whatever size was asked for.
pub create-stack :
    (align : ℕ → ℕ) (ok : Aligns align) (ucontext addr size : ℕ)
    → let b = create align ucontext addr size in
      (addr ≤ b.ss_sp) × (b.ss_sp + b.ss_size ≡ addr + stack_size size) × (8185 ≤ b.ss_size)
unfolding create stack_size
create-stack align ok ucontext addr size = ground (arith, ok.above addr, ok.near addr)

live_over : (n : ℕ) (b : Blocks) → b.context ≡ none → live n b ≡ b
unfolding live begin
live_over zero b e = refl
live_over (suc n) b e = ground (arith, live_over n b, e)

-- Each of the two blocks of a context is freed, once: a fiber that is destroyed before it was
-- switched to has its stack freed and then its ucontext, and one that has run has its ucontext freed
-- at the beginning of its worker and its stack by the destructor.
pub destroy-frees :
    (align : ℕ → ℕ) (ucontext addr size n : ℕ)
    → (destroy (live n (create align ucontext addr size))).freed
      ≡ (if n == 0 then addr ∷ ucontext ∷ [] else ucontext ∷ addr ∷ [])
unfolding create destroy free_context free live begin
destroy-frees align ucontext addr size zero = refl
destroy-frees align ucontext addr size (suc n) =
    let b = begin (create align ucontext addr size) in ground (arith, live_over n b)
