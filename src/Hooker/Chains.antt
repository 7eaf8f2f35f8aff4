-- ===== src/Hooker/Chains.antt =====
-- Chains of the calls of src/EHooker.cpp: what holds of the end of each part holds of the whole.
use cxx_fiber.Prelude.{◌≡◌, refl, ap}
use cxx_fiber.Hooker
use cxx_fiber.Hooker.{Host, M, Outcome, returned, failed, ◌>>=◌}

module _ {P S A B : Type 0} where
  bound_after :
      (Q : Host P S × Outcome B → Type 0) (f : A → M P S B) (x : Host P S × Outcome A)
      → ((a : A) (h : Host P S) → x ≡ (h, returned a) → Q (f a h))
      → ((e : Hooker.Failure) (h : Host P S) → x ≡ (h, failed e) → Q (h, failed e))
      → Q (((λ _. x) >>= f) x.0)
  bound_after Q f (h, returned a) k l = k a h refl
  bound_after Q f (h, failed e) k l = l e h refl

  -- A chain ends in `Q` if its second part does, and its first part where that fails.
  pub >>=-after :
      (Q : Host P S × Outcome B → Type 0) (m : M P S A) (f : A → M P S B) (h : Host P S)
      → ((a : A) (h' : Host P S) → m h ≡ (h', returned a) → Q (f a h'))
      → ((e : Hooker.Failure) (h' : Host P S) → m h ≡ (h', failed e) → Q (h', failed e))
      → Q ((m >>= f) h)
  >>=-after Q m f h k l = bound_after Q f (m h) k l

  bound_cong :
      (f g : A → M P S B) (x : Host P S × Outcome A)
      → ((a : A) (h : Host P S) → x ≡ (h, returned a) → f a h ≡ g a h)
      → ((λ _. x) >>= f) x.0 ≡ ((λ _. x) >>= g) x.0
  bound_cong f g (h, returned a) k = k a h refl
  bound_cong f g (h, failed e) k = refl

  -- Two chains with the same first part are equal where their second parts are.
  pub >>=-cong :
      (m : M P S A) (f g : A → M P S B) (h : Host P S)
      → ((a : A) (h' : Host P S) → m h ≡ (h', returned a) → f a h' ≡ g a h')
      → (m >>= f) h ≡ (m >>= g) h
  >>=-cong m f g h k = bound_cong f g (m h) k

  -- Two chains with the same second part are equal where their first parts are.
  pub >>=-head :
      (m n : M P S A) (f : A → M P S B) (h : Host P S) → m h ≡ n h → (m >>= f) h ≡ (n >>= f) h
  >>=-head m n f h e = ap (λ x. ((λ _. x) >>= f) x.0) e

  -- A chain whose first part is known goes on with the second.
  pub >>=-step :
      (m : M P S A) (f : A → M P S B) (h h' : Host P S) (a : A)
      → m h ≡ (h', returned a)
      → (m >>= f) h ≡ f a h'
  >>=-step m f h h' a e = ap (λ x. ((λ _. x) >>= f) x.0) e

module _ {P S A B C : Type 0} where
  bound_assoc :
      (f : A → M P S B) (g : B → M P S C) (x : Host P S × Outcome A)
      → ((((λ _. x) >>= f) >>= g) x.0) ≡ ((λ _. x) >>= λ a. f a >>= g) x.0
  bound_assoc f g (h, returned a) = refl
  bound_assoc f g (h, failed e) = refl

  pub >>=-assoc :
      (m : M P S A) (f : A → M P S B) (g : B → M P S C) (h : Host P S)
      → ((m >>= f) >>= g) h ≡ (m >>= λ a. f a >>= g) h
  >>=-assoc m f g h = bound_assoc f g (m h)
