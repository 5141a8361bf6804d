-- ===== src/Prelude/Results.antt =====
-- What a Go function gives back: a value, a returned error with its text, or a panic. Methods
-- that mutate an object keep what they wrote before they failed, so the state comes back beside
-- every outcome.
use mathlib.Core.Option.{Option}
use mathlib.Core.Path.{◌≡◌}
use go_achat_node.Prelude.Text.{Bytes}

pub data Outcome {ℓ} (A : Type ℓ) : Type ℓ where
  ok : A → Outcome A
  err : Bytes → Outcome A
  panic : Outcome A

-- `error`: nil is `none`
abbrev pub Error : Type 0
Error = Option Bytes

abbrev pub Exec {ℓ} : Type ℓ → Type ℓ → Type ℓ
Exec S A = S → Outcome A × S

module _ {ℓ} {S A : Type ℓ} where
  abbrev pub pure : A → Exec S A
  pure a s = (ok a, s)

  -- `return ..., errors.New(text)`
  abbrev pub fail : Bytes → Exec S A
  fail e s = (err e, s)

  abbrev pub lift : Outcome A → Exec S A
  lift r s = (r, s)

  abbrev pub attempt_from : Outcome A × S → Outcome (Outcome A) × S
  attempt_from (ok a, s) = (ok (ok a), s)
  attempt_from (err e, s) = (ok (err e), s)
  attempt_from (panic, s) = (panic, s)

  -- `x, err := f()`: the caller looks at the error itself; a panic still unwinds it.
  abbrev pub attempt : Exec S A → Exec S (Outcome A)
  attempt m s = attempt_from (m s)

module _ {ℓ} {S A B : Type ℓ} where
  abbrev pub bind_from : (A → Exec S B) → Outcome A × S → Outcome B × S
  bind_from f (ok a, s) = f a s
  bind_from f (err e, s) = (err e, s)
  bind_from f (panic, s) = (panic, s)

  infixl 10 ◌>>=◌ ◌>>◌
  -- `if err != nil { return err }` between two steps
  abbrev pub ◌>>=◌ : Exec S A → (A → Exec S B) → Exec S B
  ◌>>=◌ m f s = bind_from f (m s)

  abbrev pub ◌>>◌ : Exec S A → Exec S B → Exec S B
  m >> n = m >>= λ _. n

pub ok_inj : {A : Type 0} (a b : A) → ok a ≡ ok b → a ≡ b
ok_inj a b h = cc
