-- ===== src/Prelude/Texts.antt =====
-- Texts as lists of code points, and `Display` of an unsigned integer.
use Prim.Native.Nat.{ℕ, zero, suc, ◌+◌, ◌-◌, ◌*◌, ◌/◌, ◌%◌, ◌<◌}
use Prim.Native.Char.{code}
use Prim.Native.String.{String}
use mathlib.Core.Path.{◌≡◌, refl, ap, ◌∙◌}
use mathlib.Core.Bool.{Bool, false, ◌&&◌}
use mathlib.Core.Logic.{inl, inr}
use mathlib.Core.List.{List, [], ◌∷◌, ◌++◌}
use native.Mathlib.Omega.{arith}
use nullnet.Prelude.Tests.{if◌then◌else◌, leb, eqb, Bool-cases}

abbrev pub Text : Type 0
Text = List ℕ

abbrev pub codes : String → Text
codes String.[] = []
codes (String.◌∷◌ c s) = code c ∷ codes s

-- The digits of `n` before `acc`; one unit of fuel for a digit.
unfoldable pub show_from : ℕ → ℕ → Text → Text
show_from zero n acc = acc
show_from (suc f) n acc =
    let longer = (48 + n % 10) ∷ acc in
    let rest = show_from f (n / 10) longer in if eqb (n / 10) 0 then longer else rest

-- `u32::to_string`.
unfoldable pub show : ℕ → Text
unfolding show_from
show n = show_from (suc n) n []

abbrev pub is_digit : ℕ → Bool
is_digit c = leb 48 c && leb c 57

-- The number at the head of a text, and what follows it.
unfoldable pub read : ℕ → Text → ℕ × Text
read v [] = (v, [])
read v (c ∷ s) = if is_digit c then read (v * 10 + (c - 48)) s else (v, c ∷ s)

read-digit : (v d : ℕ) (s : Text) → d < 10 → read v ((48 + d) ∷ s) ≡ read (v * 10 + d) s
unfolding read
read-digit v d s h = ground arith

-- Reading a printed number in front of a text gives the number.
pub read-show_from : (f n : ℕ) (acc : Text) → n < f → read 0 (show_from f n acc) ≡ read n acc
unfolding show_from
read-show_from zero n acc h = elim h [ ]
read-show_from (suc f) n acc h = elim (Bool-cases (eqb (n / 10) 0)) [
  | inl last ↦
      rw last (read-digit 0 (n % 10) acc (omega arith) ∙ ap (λ v. read v acc) (ground arith))
  | inr more ↦ rw more (
      read-show_from f (n / 10) ((48 + n % 10) ∷ acc) (ground arith)
      ∙ read-digit (n / 10) (n % 10) acc (omega arith)
      ∙ ap (λ v. read v acc) (omega arith))
]

show_from-append : (f n : ℕ) (acc s : Text) → show_from f n acc ++ s ≡ show_from f n (acc ++ s)
unfolding show_from
show_from-append zero n acc s = refl
show_from-append (suc f) n acc s =
    ground (arith, show_from-append f (n / 10) ((48 + n % 10) ∷ acc) s)

pub read-show-append : (n : ℕ) (s : Text) → read 0 (show n ++ s) ≡ read n s
unfolding show
read-show-append n s =
    ap (read 0) (show_from-append (suc n) n [] s) ∙ read-show_from (suc n) n s (omega arith)

-- Two numbers printed in front of texts that begin with no digit.
pub show-append-injective :
    (m n c d : ℕ) (s t : Text)
    → is_digit c ≡ false
    → is_digit d ≡ false
    → show m ++ c ∷ s ≡ show n ++ d ∷ t
    → (m ≡ n) × (c ∷ s ≡ d ∷ t)
unfolding read
show-append-injective m n c d s t hc hd e =
    ground (arith, read-show-append m (c ∷ s), read-show-append n (d ∷ t), ap (read 0) e)
