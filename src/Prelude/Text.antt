-- ===== src/Prelude/Text.antt =====
-- Go's `string` and `[]byte`: a list of byte values. `len`, slices and `+` act on bytes.
use Prim.Native.Nat.{ℕ}
use Prim.Native.Char.{code}
use Prim.Native.String.{String}
use mathlib.Core.Path.{◌≡◌, refl, ap}
use mathlib.Core.Logic.{◌≢◌, ◌↔◌}
use mathlib.Core.Bool.{Bool, true, false, ◌&&◌}
use mathlib.Core.List.{List, [], ◌∷◌, ◌++◌, append_cancel_left, append_cancel_right}
use native.Mathlib.Omega.{arith}
use go_achat_node.Prelude.Tests.{◌==◌}

abbrev pub Bytes : Type 0
Bytes = List ℕ

-- The bytes of an ASCII literal.
abbrev pub codes : String → Bytes
codes String.[] = []
codes (String.◌∷◌ c s) = code c ∷ codes s

-- `a == b` on strings, `bytes.Equal`
unfoldable pub beq : Bytes → Bytes → Bool
beq [] [] = true
beq [] (y ∷ ys) = false
beq (x ∷ xs) [] = false
beq (x ∷ xs) (y ∷ ys) = x == y && beq xs ys

pub beq→eq : (a b : Bytes) → beq a b ≡ true → a ≡ b
unfolding beq
beq→eq [] [] h = refl
beq→eq [] (y ∷ ys) h = cc
beq→eq (x ∷ xs) [] h = cc
beq→eq (x ∷ xs) (y ∷ ys) h = ground (arith, beq→eq xs ys)

pub beq_refl : (a : Bytes) → beq a a ≡ true
unfolding beq
beq_refl [] = refl
beq_refl (x ∷ xs) = ground (arith, beq_refl xs)

pub eq→beq : (a b : Bytes) → a ≡ b → beq a b ≡ true
eq→beq a b e = rw e (beq_refl b)

pub beq_iff : (a b : Bytes) → (beq a b ≡ true) ↔ (a ≡ b)
beq_iff a b = (beq→eq a b, eq→beq a b)

pub beq_ne : (a b : Bytes) → a ≢ b → beq a b ≡ false
beq_ne a b h = ground (arith, beq_iff a b)

pub ne_of_beq : (a b : Bytes) → beq a b ≡ false → a ≢ b
ne_of_beq a b h e = ground (arith, beq_iff a b)

-- Two tests agree when their equations do.
pub beq_congr : (a b c d : Bytes) → (a ≡ b → c ≡ d) → (c ≡ d → a ≡ b) → beq a b ≡ beq c d
beq_congr a b c d f g = ground (arith, beq_iff a b, beq_iff c d, f, g)

pub beq-append_left : (p a b : Bytes) → beq (p ++ a) (p ++ b) ≡ beq a b
beq-append_left p a b =
    beq_congr (p ++ a) (p ++ b) a b (append_cancel_left p a b) (ap (λ (x : Bytes). p ++ x))

pub beq-append_right : (a b s : Bytes) → beq (a ++ s) (b ++ s) ≡ beq a b
beq-append_right a b s =
    beq_congr (a ++ s) (b ++ s) a b (append_cancel_right a b s) (ap (λ (x : Bytes). x ++ s))

-- The last byte, 0 of an empty string.
unfoldable pub last_byte : Bytes → ℕ
last_byte [] = 0
last_byte (x ∷ []) = x
last_byte (x ∷ y ∷ ys) = last_byte (y ∷ ys)

pub last_byte-append :
    (a : Bytes) (y : ℕ) (ys : Bytes) → last_byte (a ++ y ∷ ys) ≡ last_byte (y ∷ ys)
unfolding last_byte
last_byte-append [] y ys = refl
last_byte-append (x ∷ []) y ys = refl
last_byte-append (x ∷ x' ∷ xs) y ys = last_byte-append (x' ∷ xs) y ys

-- Texts that end in different bytes are different.
pub beq_of_last_byte_ne : (a b : Bytes) → last_byte a ≢ last_byte b → beq a b ≡ false
beq_of_last_byte_ne a b h = beq_ne a b (λ e. h (ap last_byte e))
