-- ===== src/Base/Exec.antt =====
-- Actions on a mutable state that may throw. What was written before a throw stays written, so an
-- action returns the state beside the exception too.
use zidanedb.Base.Results.{Exception, Result, ok, throws, diverges, stops_at}

abbrev pub Exec : Type 0 → Type 0 → Type 0
Exec S A = S → Result A × S

module _ {S A : Type 0} where
  abbrev pub pure : A → Exec S A
  pure a s = (ok a, s)

  abbrev pub raise : Exception → Exec S A
  raise e s = (throws e, s)

  -- a computation that reads the state and changes nothing
  abbrev pub reads : (S → Result A) → Exec S A
  reads f s = (f s, s)

abbrev pub puts : {S : Type 0} → (S → S) → Exec S (Unit {0})
puts f s = (ok tt, f s)

module _ {S A B : Type 0} where
  abbrev pub continue : Result A → (A → Exec S B) → Exec S B
  continue (ok a) f s = f a s
  continue (throws e) f s = (throws e, s)
  continue diverges f s = (diverges, s)
  continue (stops_at name) f s = (stops_at name, s)

  infixl 5 ◌>>=◌ ◌>>◌
  abbrev pub ◌>>=◌ : Exec S A → (A → Exec S B) → Exec S B
  ◌>>=◌ m f s = let r = m s in continue r.0 f r.1

  abbrev pub ◌>>◌ : Exec S A → Exec S B → Exec S B
  m >> n = m >>= λ _. n

-- An action on a part of the state.
module _ {S T A : Type 0} (get : S → T) (put : T → S → S) where
  abbrev pub zoom : Exec T A → Exec S A
  zoom m s = let r = m (get s) in (r.0, put r.1 s)
