-- ===== src/Context.antt =====
-- src/EContext.cpp, src/EContext.hh: how a thread switches to a fiber and back, on x86-64. The
-- registers are those that SETJMP keeps. `setcontext` and `makecontext` are the system's: of them
-- the model has the registers with which a new fiber starts.
pub mod Switching
pub mod Stack
mod Examples
use cxx_fiber.Prelude.{ℕ, zero, suc, Option, none, some, List, [], ◌∷◌, update}

pub record Registers : Type 0 where
  pub rbx : ℕ
  pub rbp : ℕ
  pub r12 : ℕ
  pub rsp : ℕ
  pub r13 : ℕ
  pub r14 : ℕ
  pub r15 : ℕ
  pub rip : ℕ  -- the label LJMPRET, where the code goes on
  pub rdi : ℕ
  pub rsi : ℕ

-- The ten words of an `env`, by index; the code has offsets in bytes.
abbrev pub Env : Type 0
Env = List ℕ

abbrev pub word : Env → ℕ → ℕ
word [] i = 0
word (w ∷ ws) zero = w
word (w ∷ ws) (suc i) = word ws i

unfoldable pub setjmp : Registers → Env
setjmp r = r.rbx ∷ r.rbp ∷ r.r12 ∷ r.rsp ∷ r.r13 ∷ r.r14 ∷ r.r15 ∷ r.rip ∷ r.rdi ∷ r.rsi ∷ []

unfoldable pub longjmp : Env → Registers
longjmp e = record {
  rbx = word e 0;
  rbp = word e 1;
  r12 = word e 2;
  r13 = word e 4;
  r14 = word e 5;
  rsp = word e 3;
  r15 = word e 6;
  rip = word e 7;
  rdi = word e 8;
  rsi = word e 9;
}

-- `EContext`, with the fiber's stack left out. The constructor leaves `errno_` and `env` as the memory
-- happens to be.
pub record Context : Type 0 where
  pub context : Option Registers  -- the ucontext, until the fiber has started
  pub env : Env
  pub errno_ : ℕ

-- A thread: its registers, its errno and its original context.
pub record Machine : Type 0 where
  pub registers : Registers
  pub errno : ℕ
  pub orign : Option Env

-- `getOrignContext`, whose memory is fresh when the thread has none yet.
unfoldable pub get_orign_context : Env → Machine → Env
get_orign_context fresh m = elim m.orign [ none ↦ fresh | some e ↦ e ]

unfoldable pub clean_orign_context : Machine → Machine
clean_orign_context m = record m { orign = none }

-- What `swapIn` jumps to.
unfoldable pub target : Context → Registers
unfolding longjmp
target c = elim c.context [ none ↦ longjmp c.env | some r ↦ r ]

-- `swapIn` up to its jump.
unfoldable pub swap_in : Context → Machine → Machine
unfolding target setjmp
swap_in c m = record { registers = target c; errno = c.errno_; orign = some (setjmp m.registers) }

-- What `fiber_worker` does first: the context is used once.
unfoldable pub start : Context → Context
start c = record c { context = none }

-- `swapOut` up to its jump, after which the thread goes on behind its SETJMP.
unfoldable pub swap_out : Env → Context → Machine → Context × Machine
unfolding setjmp longjmp get_orign_context
swap_out fresh c m = (
  record c { env = setjmp m.registers; errno_ = m.errno },
  record m {
    registers = longjmp (get_orign_context fresh m);
    orign = some (get_orign_context fresh m);
  },
)

-- A fiber's code between two switches.
abbrev pub Code : Type 0
Code = Registers × ℕ → Registers × ℕ

-- The contexts of all fibers, and the thread.
abbrev pub Contexts : Type 0
Contexts = (ℕ → Context) × Machine

-- The thread switches to the fiber `f`, which runs `code` and switches back.
unfoldable pub visit : Env → ℕ → Code → Contexts → Contexts
unfolding swap_in start swap_out
visit fresh f code (cs, m) =
    let m1 = swap_in (cs f) m in
    let (r, e) = code (m1.registers, m1.errno) in
    let (c, m2) = swap_out fresh (start (cs f)) (record m1 { registers = r; errno = e }) in
    (update cs f c, m2)

unfoldable pub visits : Env → List (ℕ × Code) → Contexts → Contexts
unfolding visit
visits fresh [] w = w
visits fresh ((f, code) ∷ vs) w = visits fresh vs (visit fresh f code w)
