-- ===== src/Context/Examples.antt =====
-- Two fibers of a thread take turns, on the switches of src/EContext.cpp.
use cxx_fiber.Prelude.{ℕ, ◌+◌, ◌/◌, ◌*◌, ◌≤◌, ◌≡◌, refl, some, none, [], ◌∷◌, arith}
use cxx_fiber.Context.{
  Registers, Code, Contexts, visits, visit, swap_in, swap_out, start, target, setjmp, longjmp,
  get_orign_context,
}
use cxx_fiber.Context.Stack
use cxx_fiber.Context.Stack.{Aligns, create-stack}
use cxx_fiber.Fiber.{stack_size}
use cxx_fiber.Context.Switching.{entry, visits-resume}

abbrev registers : ℕ → Registers
registers n = record {
  rbx = n;
  rbp = 0;
  r12 = 0;
  rsp = n;
  r13 = 0;
  r14 = 0;
  r15 = 0;
  rip = n;
  rdi = 0;
  rsi = 0;
}

-- The code goes on one word further, and leaves the errno `e`.
abbrev advance : ℕ → Code
advance e (r, errno) = (record r { rip = r.rip + 1 }, e)

abbrev contexts : Contexts
contexts = (
  (λ f. record { context = some (registers (f + 100)); env = []; errno_ = 0 }),
  record { registers = registers 1; errno = 5; orign = none },
)

two_turns :
    (visits [] ((0, advance 11) ∷ (1, advance 4) ∷ (0, advance 2) ∷ []) contexts).1.errno ≡ 2
unfolding visits visit swap_in swap_out start target setjmp longjmp get_orign_context
two_turns = refl

visits-resume_example :
    (entry 0 (visits [] ((0, advance 11) ∷ (1, advance 4) ∷ []) contexts)
      ≡ advance 11 (registers 100, 0))
    × ((visits [] ((0, advance 11) ∷ (1, advance 4) ∷ []) contexts).1.registers ≡ registers 1)
unfolding target
visits-resume_example =
    visits-resume [] 0 (advance 11) ((1, advance 4) ∷ []) contexts (omega arith, tt)

-- Round up to the next multiple of eight.
align : ℕ → ℕ
align a = (a + 7) / 8 * 8

align-Aligns : Aligns align
unfolding align
align-Aligns = record { above = λ a. omega arith; near = λ a. omega arith }

create-stack_example :
    let b = Stack.create align 9 21 100 in
    (21 ≤ b.ss_sp) × (b.ss_sp + b.ss_size ≡ 21 + stack_size 100) × (8185 ≤ b.ss_size)
create-stack_example = create-stack align align-Aligns 9 21 100
