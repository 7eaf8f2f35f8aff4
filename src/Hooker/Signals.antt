-- ===== src/Hooker/Signals.antt =====
-- src/EHooker.cpp: signal, and the handler through which the program's handlers are called.
use cxx_fiber.Prelude.Int.{ℤ, pos, negsuc, ◌-ℤ◌}
use cxx_fiber.Prelude.{
  ℕ, ◌<◌, ◌≡◌, refl, ap, ◌∙◌, Bool, true, false, ltb, ◌==◌, Option, none, some, update, update_self,
  if◌then◌else◌, arith,
}

abbrev sig_rt_max : ℕ
sig_rt_max = 64

-- What the kernel is given: `sigfunc`, or the argument itself.
pub data Handler : Type 0 where
  own : Handler
  given : ℕ → Handler

-- `sigfunc_map` by signal with zero for null, the flag and the time that other code reads, and the
-- kernel. `corrupted` says that memory next to the map was written.
pub record Signals (S : Type 0) : Type 0 where
  pub table : ℕ → ℕ
  pub signaled : Bool  -- process_signaled
  pub escaped_time : ℤ  -- interrupt_escaped_time
  pub corrupted : Bool
  pub kernel : S

module _ {S : Type 0} (signal_f : ℤ → Handler → S → S) where
  -- `sigfunc_map[sig] = func`.
  unfoldable pub write_table : ℤ → ℕ → Signals S → Signals S
  write_table (negsuc n) func m = record m { corrupted = true }
  write_table (pos n) func m = record m { table = update m.table n func }

  -- Values up to 512 are special ones like SIG_DFL.
  unfoldable pub install : ℤ → ℕ → Signals S → Signals S
  unfolding write_table
  install sig func m =
      if ltb 512 func
      then (let m' = write_table sig func m in record m' { kernel = signal_f sig own m'.kernel })
      else record m { kernel = signal_f sig (given func) m.kernel }

  abbrev is_below : ℤ → Bool
  is_below (pos n) = ltb n sig_rt_max
  is_below (negsuc n) = true

  -- A signal from 64 on is refused with NULL.
  unfoldable pub signal : ℤ → ℕ → Signals S → Signals S × Option ℕ
  unfolding install
  signal sig func m = if is_below sig then (install sig func m, some func) else (m, none)

-- `sigfunc`. A handler `runs`, and may be interrupted by another signal itself; `clock` is the time
-- in milliseconds at its start and at its end.
module _ {S : Type 0} (runs : ℕ → ℕ → Signals S → Signals S) (clock : Signals S → ℕ) where
  unfoldable pub dispatch : ℕ → Signals S → Signals S
  dispatch sig m =
      if ltb sig sig_rt_max then if m.table sig == 0 then m else runs (m.table sig) sig m else m

  unfoldable pub sigfunc : ℕ → Signals S → Signals S
  unfolding dispatch
  sigfunc sig m =
      let m1 = record m { signaled = true } in
      let m2 = dispatch sig m1 in
      record m2 { escaped_time = pos (clock m2) -ℤ pos (clock m1); signaled = false }

  dispatch_lem :
      (sig func : ℕ) (m : Signals S)
      → sig < 64
      → 512 < func
      → m.table sig ≡ func
      → dispatch sig m ≡ runs func sig m
  unfolding dispatch
  dispatch_lem sig func m fits special here =
      let some_func : (m.table sig == 0) ≡ false = ground (arith, here) in
      let below : ltb sig 64 ≡ true = ground arith in
      rw (below, some_func) (ap (λ g. runs g sig m) here)

module _ {S : Type 0} (signal_f : ℤ → Handler → S → S) where
  signal_lem :
      (sig func : ℕ) (m : Signals S)
      → sig < 64
      → 512 < func
      → ((signal signal_f (pos sig) func m).0.table sig ≡ func)
        × ((signal signal_f (pos sig) func m).1 ≡ some func)
  unfolding signal install write_table
  signal_lem sig func m fits special =
      let below : ltb sig 64 ≡ true = ground arith in
      let large : ltb 512 func ≡ true = ground arith in
      rw (below, large) (update_self m.table sig func, refl)

module _ {S : Type 0} (signal_f : ℤ → Handler → S → S) (runs : ℕ → ℕ → Signals S → Signals S)
    (clock : Signals S → ℕ) where
  -- A handler that `signal` accepts is the one that runs when the signal comes, in any later state
  -- whose map has not been written at this signal again; while it runs the flag is set, and
  -- afterwards it is not, even where the signal has interrupted another handler.
  signal-sigfunc :
      (sig func : ℕ) (m later : Signals S)
      → sig < 64
      → 512 < func
      → later.table sig ≡ (signal signal_f (pos sig) func m).0.table sig
      → let v = runs func sig (record later { signaled = true }) in
        ((signal signal_f (pos sig) func m).1 ≡ some func)
        × (sigfunc runs clock sig later ≡ record v {
          escaped_time = pos (clock v) -ℤ pos (clock (record later { signaled = true }));
          signaled = false;
        })
  unfolding sigfunc
  signal-sigfunc sig func m later fits special same =
      let (here, answer) = signal_lem signal_f sig func m fits special in
      let before = record later { signaled = true } in
      (
        answer,
        ap
            (λ (d : Signals S). record d {
              escaped_time = pos (clock d) -ℤ pos (clock before);
              signaled = false;
            })
            (dispatch_lem runs clock sig func before fits special (same ∙ here)),
      )
