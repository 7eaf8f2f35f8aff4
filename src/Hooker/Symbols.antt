-- ===== src/Hooker/Symbols.antt =====
-- src/EHooker.cpp: the functions that are looked up behind the hooks, the table of the symbols that
-- are replaced, and the `dlopen` of Linux, which replaces them in what it opens. The system's dlopen
-- and `rebind_symbols_image` of src/elf_hook.c are arguments.
mod Examples
use Prim.Native.String.{String}
use text.Mathlib.Text.{◌==◌}
use text.Mathlib.TextEquality.{eq_iff}
use cxx_fiber.Prelude.{
  ℕ, ◌≡◌, refl, Bool, true, false, ◌||◌, ◌&&◌, not, Option, none, some, List, [], ◌∷◌, ◌++◌, arith,
  ◌⊎◌, inl, inr, Bool-cases, if◌then◌else◌,
}

pub data Platform : Type 0 where
  linux apple : Platform

-- The names that the static initializer looks up, in its order.
unfoldable pub resolved : Platform → List String
resolved p =
    ("signal" ∷ "sleep" ∷ "usleep" ∷ "nanosleep" ∷ "close" ∷ "fcntl" ∷ "ioctl" ∷ "setsockopt"
      ∷ "dup2" ∷ "poll" ∷ "select" ∷ "connect" ∷ "accept" ∷ "read" ∷ "readv" ∷ "recv" ∷ "recvfrom"
      ∷ "recvmsg" ∷ "write" ∷ "writev" ∷ "send" ∷ "sendto" ∷ "sendmsg" ∷ "fread" ∷ "fwrite"
      ∷ "pread" ∷ "pwrite" ∷ "sendfile" ∷ "dlopen" ∷ [])
    ++ elim p [
      | linux ↦ "dup3" ∷ "gethostbyname" ∷ "__res_state" ∷ "__poll" ∷ "epoll_wait" ∷ []
      | apple ↦ "kevent" ∷ "kevent64" ∷ []
    ]

-- `__rebinding`: each name has the hook of that name.
unfoldable pub rebinding : Platform → List String
rebinding p =
    ("signal" ∷ "sleep" ∷ "usleep" ∷ "nanosleep" ∷ "close" ∷ "fcntl" ∷ "setsockopt" ∷ "dup2"
      ∷ "poll" ∷ "select" ∷ "connect" ∷ "accept" ∷ "read" ∷ "readv" ∷ "recvfrom" ∷ "recvmsg"
      ∷ "write" ∷ "writev" ∷ "send" ∷ "sendto" ∷ "sendmsg" ∷ "fread" ∷ "fwrite" ∷ "pread" ∷ "pwrite"
      ∷ "sendfile" ∷ "dlopen" ∷ [])
    ++ elim p [
      | linux ↦ "dup3" ∷ "gethostbyname" ∷ "__res_state" ∷ "__poll" ∷ "epoll_wait" ∷ []
      | apple ↦ "kevent" ∷ "kevent64" ∷ []
    ]

abbrev pub has : String → List String → Bool
has x [] = false
has x (y ∷ ys) = x == y || has x ys

-- What a symbol of an image stands for.
pub data Target : Type 0 where
  original hook : Target

-- The images that are loaded, by handle.
abbrev pub Images : Type 0
Images = ℕ → String → Target

-- The system's dlopen of a path, none being NULL, with a mode, and `rebind_symbols_image`, which says
-- whether it has failed: it does for NULL and for a path that it cannot open.
pub record Loader : Type 0 where
  pub dlopen_f : Option String → ℕ → Images → Images × Option ℕ
  pub rebind_symbols_image : Option String → ℕ → List String → Images → Images × Bool

-- `dlopen` of Linux. The result of the patching is not looked at.
unfoldable pub dlopen : Loader → Option String → ℕ → Images → Images × Option ℕ
dlopen L path mode w =
    let (w1, handle) = L.dlopen_f path mode w in
    elim handle [
      | none ↦ (w1, none)
      | some h ↦ ((L.rebind_symbols_image path h (rebinding linux) w1).0, some h)
    ]

-- What holds of every name of a list holds of the names that it has.
abbrev every : (String → Bool) → List String → Bool
every p [] = true
every p (x ∷ xs) = p x && every p xs

every-has :
    (p : String → Bool) (xs : List String) (x : String)
    → every p xs ≡ true
    → has x xs ≡ true
    → p x ≡ true
every-has p [] x e h = absurd cc
every-has p (y ∷ ys) x e h = ground (arith, every-has p ys x, eq_iff x y)

abbrev pub is_missed : String → Bool
is_missed x = x == "ioctl" || x == "recv"

resolved_lem : (p : Platform) → every (λ x. has x (rebinding p) || is_missed x) (resolved p) ≡ true
unfolding resolved rebinding
resolved_lem linux = refl
resolved_lem apple = refl

rebinding-resolved : (p : Platform) → every (λ x. has x (resolved p)) (rebinding p) ≡ true
unfolding resolved rebinding
rebinding-resolved linux = refl
rebinding-resolved apple = refl

rebinding_misses : every (λ x. not (is_missed x)) (rebinding linux) ≡ true
unfolding rebinding
rebinding_misses = refl

-- The table has every name that is looked up, but two.
has-rebinding :
    (x : String) → has x (rebinding linux) ≡ (has x (resolved linux) && not (is_missed x))
has-rebinding x = ground (
  arith,
  every-has (λ y. has y (rebinding linux) || is_missed y) (resolved linux) x (resolved_lem linux),
  every-has (λ y. has y (resolved linux)) (rebinding linux) x (rebinding-resolved linux),
  every-has (λ y. not (is_missed y)) (rebinding linux) x rebinding_misses,
)
