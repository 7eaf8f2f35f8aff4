-- ===== src/Hooker/Select.antt =====
-- src/EHooker.cpp: select.
pub mod Registered
mod Examples
use cxx_fiber.Prelude.Int.{ℤ, pos, negsuc}
use cxx_fiber.Prelude.{
  ℕ, zero, suc, ◌+◌, ◌-◌, ◌*◌, ◌/◌, ◌^◌, Bool, true, false, not, ◌&&◌, ◌||◌, ◌==◌, ltb, Option,
  none, some, List, [], ◌∷◌, if◌then◌else◌, update,
}
use cxx_fiber.Fiber
use cxx_fiber.FileContext.{Timeval}
use cxx_fiber.IoWaiter.{
  EventLoop, IoWaiter, readable, writable, all_events, set_file_event, del_file_event,
  get_file_event,
}
use cxx_fiber.Hooker
use cxx_fiber.Hooker.{
  Host, Original, M, ◌>>=◌, ◌>>◌, return, return_with, original, skips, with_io, pause, nap,
}
use cxx_fiber.Hooker.Poll.{is_zero, arm, disarm}

-- The three sets, each absent for a null pointer.
pub record FdSets : Type 0 where
  pub read_fds : Option (ℕ → Bool)
  pub write_fds : Option (ℕ → Bool)
  pub except_fds : Option (ℕ → Bool)

-- FD_ISSET, where the set is there.
abbrev pub is_set : ℕ → Option (ℕ → Bool) → Bool
is_set fd none = false
is_set fd (some s) = s fd

-- FD_ZERO and FD_SET.
abbrev pub zeroed : Option (ℕ → Bool) → Option (ℕ → Bool)
zeroed none = none
zeroed (some s) = some (λ fd. false)

abbrev pub put : ℕ → Option (ℕ → Bool) → Option (ℕ → Bool)
put fd none = none
put fd (some s) = some (update s fd true)

abbrev pub cleared : FdSets → FdSets
cleared s = record {
  read_fds = zeroed s.read_fds;
  write_fds = zeroed s.write_fds;
  except_fds = zeroed s.except_fds;
}

abbrev pub is_absent : Option (ℕ → Bool) → Bool
is_absent none = true
is_absent (some s) = false

abbrev pub no_sets : FdSets → Bool
no_sets s = is_absent s.read_fds && is_absent s.write_fds && is_absent s.except_fds

-- The timeout; `ELLong::MAX_VALUE` for a null pointer.
abbrev pub select_millis : Option Timeval → ℕ
select_millis none = 2 ^ 63 - 1
select_millis (some t) = t.tv_sec * 1000 + t.tv_usec / 1000

abbrev pub zero_tv : Timeval
zero_tv = record { tv_sec = 0; tv_usec = 0 }

-- `ES_MIN(nfds, FD_SETSIZE)`, and how many descriptors the loop goes over.
abbrev pub capped : ℤ → ℤ
capped (pos n) = if ltb n 1024 then pos n else pos 1024
capped (negsuc n) = negsuc n

abbrev pub rounds : ℤ → ℕ
rounds (pos n) = n
rounds (negsuc n) = 0

-- `events` for the descriptor; it keeps its value from the one before.
abbrev pub events_of : ℕ → FdSets → ℕ → ℕ
events_of fd s events =
    if is_set fd s.write_fds then writable else if is_set fd s.read_fds then readable else events

module _ {P : Type 0} (L : EventLoop P) where
  -- The loop that registers, for so many descriptors from one on, with the list `pfds`.
  pub enroll : ℕ → ℕ → ℕ → FdSets → IoWaiter P → IoWaiter P × List ℕ
  unfolding set_file_event
  enroll zero fd events s w = (w, [])
  enroll (suc n) fd events s w =
      let now = events_of fd s events in
      let w1 = if now == 0 then w else set_file_event L fd now w in
      let (w2, fds) = enroll n (suc fd) now s w1 in (w2, if now == 0 then fds else fd ∷ fds)

  -- The loop after a timeout.
  pub drop_all : List ℕ → IoWaiter P → IoWaiter P
  unfolding del_file_event
  drop_all [] w = w
  drop_all (fd ∷ fds) w = drop_all fds (del_file_event L (pos fd) all_events w)

  -- The loop after an event.
  pub gather : List ℕ → FdSets → ℕ → IoWaiter P → IoWaiter P × FdSets × ℕ
  unfolding get_file_event del_file_event
  gather [] s n w = (w, s, n)
  gather (fd ∷ fds) s n w =
      let (w1, e) = get_file_event L (pos fd) w in
      let s1 = record s {
        read_fds = if e == 1 || e == 3 then put fd s.read_fds else s.read_fds;
        write_fds = if e == 2 || e == 3 then put fd s.write_fds else s.write_fds;
      } in
      gather fds s1 (if e == 0 then n else n + 1) (del_file_event L (pos fd) all_events w1)

module _ {P S : Type 0} (L : EventLoop P) (others : Host P S → Host P S)
    (select_f : ℤ → FdSets → Option Timeval → Original S (ℤ × FdSets)) where
  -- The pause, with its timer.
  pub rest : ℕ → Host P S → Host P S
  unfolding arm disarm pause
  rest millis h =
      let (w, id) = arm L (pos millis) h.io in
      let h1 = pause L others (with_io w h) in with_io (disarm L id h1.io) h1

  pub harvest : List ℕ → FdSets → M P S (ℤ × FdSets)
  unfolding Fiber.is_wait_timeout drop_all gather
  harvest fds s h =
      let (f, late) = Fiber.is_wait_timeout h.fiber in
      let w = record (h.io) { fiber = f } in
      if late
      then (with_io (drop_all L fds w) h, Hooker.returned (pos 0, s))
      else let (w1, s1, n) = gather L fds s 0 w in return_with 0 (pos n, s1) (with_io w1 h)

  -- From the registration on.
  pub await : ℤ → ℕ → FdSets → M P S (ℤ × FdSets)
  unfolding enroll rest harvest
  await nfds millis s h =
      let (w, fds) = enroll L (rounds nfds) 0 0 s h.io in
      harvest fds (cleared s) (rest millis (with_io w h))

  pub select_once : ℤ → ℕ → FdSets → M P S (ℤ × FdSets)
  unfolding await
  select_once nfds millis sets = do
    (r, s) ← original (select_f nfds sets (some zero_tv))
    if is_zero r then await nfds millis s else return (r, s)

  pub select : ℤ → FdSets → Option Timeval → M P S (ℤ × FdSets)
  unfolding select_once nap
  select nfds sets timeout h =
      let millis = select_millis timeout in
      if skips h || millis == 0
      then original (select_f nfds sets timeout) h
      else if is_zero nfds || no_sets sets
      then (nap L others (pos millis) >> return (pos 0, sets)) h
      else select_once (capped nfds) millis sets h
