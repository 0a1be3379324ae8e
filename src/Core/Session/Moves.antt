-- ===== src/Core/Session/Moves.antt =====
-- What code does to a state, as a relation between the states before and after it.
use hass_tplink_easy_smart.Python.{Result, ok, err, Error}
use hass_tplink_easy_smart.Core.Session.Monad.{Stateful, catch, ◌>>=◌}

-- From whatever state, `m` goes to a state that `R` relates to it.
pub record Moves {S A : Type 0} (R : S → S → Type 0) (m : Stateful S A) : Type 0 where
  pub at : (s : S) → R s (m s).1

module _ {S : Type 0} (R : S → S → Type 0) (R-trans : (s t u : S) → R s t → R t u → R s u)
    {A B : Type 0} where
  next :
      (f : A → Stateful S B) (r : Result A) (s t : S)
      → R s t
      → ((a : A) → Moves R (f a))
      → let out : Result B × S = elim r [ ok a ↦ f a t | err e ↦ (err e, t) ] in R s out.1
  next f (ok a) s t x k = R-trans s t (f a t).1 x ((k a).at t)
  next f (err e) s t x k = x

  pub Moves-bind :
      (m : Stateful S A) (f : A → Stateful S B)
      → Moves R m
      → ((a : A) → Moves R (f a))
      → Moves R (m >>= f)
  unfolding ◌>>=◌
  Moves-bind m f km kf = record { at = λ s. let (r, t) = m s in next f r s t (km.at s) kf }

module _ {S A : Type 0} (R : S → S → Type 0) (R-trans : (s t u : S) → R s t → R t u → R s u) where
  next_handler :
      (handler : Error → Stateful S A) (r : Result A) (s t : S)
      → R s t
      → ((e : Error) → Moves R (handler e))
      → let out : Result A × S = elim r [ ok a ↦ (ok a, t) | err e ↦ handler e t ] in R s out.1
  next_handler handler (ok a) s t x k = x
  next_handler handler (err e) s t x k = R-trans s t (handler e t).1 x ((k e).at t)

  pub Moves-catch :
      (m : Stateful S A) (handler : Error → Stateful S A)
      → Moves R m
      → ((e : Error) → Moves R (handler e))
      → Moves R (catch m handler)
  Moves-catch m handler km kh = record {
    at = λ s. let (r, t) = m s in next_handler handler r s t (km.at s) kh;
  }
