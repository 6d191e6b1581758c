-- ===== src/Prelude/Keys.antt =====
-- Equality of texts, of optional values and of pairs.
use mathlib.Core.Path.{◌≡◌}
use mathlib.Core.Logic.{◌↔◌}
use mathlib.Core.Bool.{Bool, true, false, ◌&&◌}
use mathlib.Core.List.{[], ◌∷◌}
use mathlib.Core.Option.{Option, none, some}
use native.Mathlib.Omega.{arith}
use nullnet.Prelude.Tests.{Eq, ◌==◌, ==_iff, eqb, nat_eq}
use nullnet.Prelude.Texts.{Text}

abbrev pub beq_text : Text → Text → Bool
beq_text [] [] = true
beq_text (c ∷ s) (d ∷ t) = eqb c d && beq_text s t
beq_text _ _ = false

pub beq_text_iff : (s t : Text) → (beq_text s t ≡ true) ↔ (s ≡ t)
beq_text_iff [] [] = ground arith
beq_text_iff (c ∷ s) (d ∷ t) = ground (arith, beq_text_iff s t)
beq_text_iff [] (d ∷ t) = ground arith
beq_text_iff (c ∷ s) [] = ground arith

instance abbrev pub text_eq : Eq Text
text_eq = record { beq = beq_text; beq_iff = beq_text_iff }

module _ {ℓ} {A : Type ℓ} ⦃e : Eq A⦄ where
  abbrev pub beq_option : Option A → Option A → Bool
  beq_option none none = true
  beq_option (some a) (some b) = a == b
  beq_option _ _ = false

  pub beq_option_iff : (s t : Option A) → (beq_option s t ≡ true) ↔ (s ≡ t)
  beq_option_iff none none = ground arith
  beq_option_iff (some a) (some b) = ground (arith, ==_iff a b)
  beq_option_iff none (some b) = ground arith
  beq_option_iff (some a) none = ground arith

  instance abbrev pub option_eq : Eq (Option A)
  option_eq = record { beq = beq_option; beq_iff = beq_option_iff }

abbrev pub beq_pair {ℓ} : {A B : Type ℓ} ⦃d : Eq A⦄ ⦃e : Eq B⦄ → A × B → A × B → Bool
beq_pair (a, b) (c, d) = a == c && b == d

pub beq_pair_iff {ℓ} :
    {A B : Type ℓ} ⦃d : Eq A⦄ ⦃e : Eq B⦄ (x y : A × B) → (beq_pair x y ≡ true) ↔ (x ≡ y)
beq_pair_iff (a, b) (c, d) = ground (arith, ==_iff a c, ==_iff b d)

instance abbrev pub pair_eq {ℓ} : {A B : Type ℓ} ⦃d : Eq A⦄ ⦃e : Eq B⦄ → Eq (A × B)
pair_eq = record { beq = beq_pair; beq_iff = beq_pair_iff }
