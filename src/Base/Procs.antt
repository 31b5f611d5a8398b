-- ===== src/Base/Procs.antt =====
-- Procedures over a state `S` that return `(T, error)`. What was written before an error stays
-- written; `transact` undoes the part that a database transaction covers.
use mathlib.Core.Bool.{Bool}
use vpn_subscription_managem.Base.Tests.{if◌then◌else◌}
use vpn_subscription_managem.Base.Results.{Result, ok, err}

abbrev pub Proc {ℓ} : Type 0 → Type 0 → Type ℓ → Type ℓ
Proc S E A = S → Result E A × S

module _ {ℓ κ} {S E : Type 0} {A : Type ℓ} {B : Type κ} where
  -- `if err != nil { return err }`, and the rest of the function
  abbrev pub continue : Result E A → (A → Proc S E B) → Proc S E B
  continue (ok a) f s = f a s
  continue (err e) f s = (err e, s)

  infixl 5 ◌>>=◌
  abbrev pub ◌>>=◌ : Proc S E A → (A → Proc S E B) → Proc S E B
  ◌>>=◌ m f s = let (r, s') = m s in continue r f s'

module _ {κ} {S E : Type 0} {B : Type κ} where
  infixl 5 ◌>>◌
  abbrev pub ◌>>◌ : Proc S E (Unit {0}) → Proc S E B → Proc S E B
  m >> k = m >>= λ _. k

module _ {ℓ} {S E : Type 0} {A : Type ℓ} where
  abbrev pub pure : A → Proc S E A
  pure a s = (ok a, s)

  abbrev pub raise : E → Proc S E A
  raise e s = (err e, s)

  abbrev pub gets : (S → A) → Proc S E A
  gets f s = (ok (f s), s)

  -- `Store.TxImmediate`: a function that returns an error, or a commit that fails, is rolled back.
  abbrev pub close : (S → S → S) → Bool → E → S → Result E A → S → Result E A × S
  close rollback lost e s (ok a) s' = if lost then (err e, rollback s s') else (ok a, s')
  close rollback lost e s (err e') s' = (err e', rollback s s')

  unfoldable pub transact : (S → S → S) → Bool → E → Proc S E A → Proc S E A
  transact rollback lost e body s = let (r, s') = body s in close rollback lost e s r s'

module _ {S E : Type 0} where
  abbrev pub modify : (S → S) → Proc S E (Unit {0})
  modify f s = (ok tt, f s)
