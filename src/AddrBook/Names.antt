-- ===== src/AddrBook/Names.antt =====
-- Names for the tests: no two numbers have the same one.
use dwcs.Base.{ℕ, zero, suc, String, ◌≡◌, refl, ap, ◌∙◌, sym}
use Prim.Native.Char.{char}
use Prim.Native.String.{[] as no_text, ◌∷◌ as then_text}

abbrev pub name : ℕ → String
name zero = no_text
name (suc n) = then_text (char 97 tt) (name n)

abbrev number : String → ℕ
number no_text = zero
number (then_text c s) = suc (number s)

number-name : (n : ℕ) → number (name n) ≡ n
number-name zero = refl
number-name (suc n) = ap suc (number-name n)

pub name_distinct : (m n : ℕ) → name m ≡ name n → m ≡ n
name_distinct m n e = sym (number-name m) ∙ ap number e ∙ number-name n
