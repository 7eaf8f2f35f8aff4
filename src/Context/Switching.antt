-- ===== src/Context/Switching.antt =====
-- src/EContext.cpp: what a fiber and its thread find after a switch.
use cxx_fiber.Prelude.{ℕ, ◌≡◌, ◌≢◌, ◌∙◌, refl, ap, none, List, [], ◌∷◌, update_self, update_ne}
use cxx_fiber.Context.{
  Registers, Env, setjmp, longjmp, Context, get_orign_context, target, swap_in, start, swap_out,
  Code, Contexts, visit, visits,
}

-- SETJMP and LONGJMP agree on where each register stands.
longjmp-setjmp : (r : Registers) → longjmp (setjmp r) ≡ r
unfolding longjmp setjmp
longjmp-setjmp r = refl

-- What the code of the fiber `f` finds when it is switched to.
abbrev pub entry : ℕ → Contexts → Registers × ℕ
entry f (cs, m) = (target (cs f), (cs f).errno_)

abbrev pub AreOthers : ℕ → List (ℕ × Code) → Type 0
AreOthers f [] = Unit
AreOthers f ((g, code) ∷ vs) = (g ≢ f) × AreOthers f vs

module _ (fresh : Env) where
  visit_other : (f g : ℕ) (code : Code) (w : Contexts) → g ≢ f → (visit fresh g code w).0 f ≡ w.0 f
  unfolding visit
  visit_other f g code (cs, m) ne = update_ne cs g f _ ne

  visits_others :
      (f : ℕ) (vs : List (ℕ × Code)) (w : Contexts)
      → AreOthers f vs
      → (visits fresh vs w).0 f ≡ w.0 f
  unfolding visits
  visits_others f [] w h = refl
  visits_others f ((g, code) ∷ vs) w h =
      visits_others f vs (visit fresh g code w) h.1 ∙ visit_other f g code w h.0

  visit-entry :
      (f : ℕ) (code : Code) (w : Contexts) → entry f (visit fresh f code w) ≡ code (entry f w)
  unfolding visit swap_in swap_out start target
  visit-entry f code (cs, m) =
      let r = code (entry f (cs, m)) in
      let c : Context = record { context = none; env = setjmp r.0; errno_ = r.1 } in
      ap (λ (d : Context). (target d, d.errno_)) (update_self cs f c)

  visit-registers :
      (f : ℕ) (code : Code) (w : Contexts) → (visit fresh f code w).1.registers ≡ w.1.registers
  unfolding visit swap_in swap_out get_orign_context
  visit-registers f code (cs, m) = longjmp-setjmp m.registers

  visits-registers :
      (vs : List (ℕ × Code)) (w : Contexts) → (visits fresh vs w).1.registers ≡ w.1.registers
  unfolding visits
  visits-registers [] w = refl
  visits-registers ((g, code) ∷ vs) w =
      visits-registers vs (visit fresh g code w) ∙ visit-registers g code w

  -- A fiber goes on with the registers and the errno with which its code last left, however often the
  -- thread has switched to other fibers in between, and the thread goes on with its own registers.
  pub visits-resume :
      (f : ℕ) (code : Code) (vs : List (ℕ × Code)) (w : Contexts)
      → AreOthers f vs
      → (entry f (visits fresh ((f, code) ∷ vs) w) ≡ code (entry f w))
        × ((visits fresh ((f, code) ∷ vs) w).1.registers ≡ w.1.registers)
  unfolding visits
  visits-resume f code vs w h = (
    ap (λ c. (target c, c.errno_)) (visits_others f vs (visit fresh f code w) h)
        ∙ visit-entry f code w,
    visits-registers ((f, code) ∷ vs) w,
  )
