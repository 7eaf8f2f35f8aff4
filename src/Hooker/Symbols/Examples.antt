-- ===== src/Hooker/Symbols/Examples.antt =====
-- Images that src/EHooker.cpp opens with `dlopen`.
use cxx_fiber.Prelude.{◌≡◌, refl, true, false, none, some, ◌&&◌, ◌==◌, if◌then◌else◌}
use cxx_fiber.Hooker.Symbols.{original, hook, Images, Loader, has, rebinding, dlopen}

-- The patching fails for NULL, as that of src/elf_hook.c does.
abbrev loader : Loader
loader = record {
  dlopen_f = λ path mode w. (w, some 3);
  rebind_symbols_image = λ path h names w. elim path [
    | none ↦ (w, false)
    | some p ↦ ((λ i x. if h == i && has x names then hook else w i x), true)
  ];
}

abbrev images : Images
images = λ i x. original

opened : (dlopen loader (some "libdb.so") 1 images).0 3 "recvfrom" ≡ hook
unfolding dlopen rebinding
opened = refl

-- The handle is returned all the same, and the symbols stay as they are.
not_patched : dlopen loader none 1 images ≡ (images, some 3)
unfolding dlopen rebinding
not_patched = refl
