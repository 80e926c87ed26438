-- ===== src/Async.antt =====
-- An `async` method as a tree of its steps. Between two waits a method runs alone; at an `await`
-- the other tasks of the program run, and may change the state, before the reply comes.
-- `S` is the state of the object, `E` what it may throw, `C` the calls it makes of code that is
-- not its own, and `R` the type of the reply to each call.

pub mod Rules
pub mod Keeps
pub mod Told
use sttork.Base.{ℕ, suc, ◌≡◌, Bool, true, false, List, [], ◌∷◌}
use sttork.Base.Outcome.{Outcome, ok, err}

pub data Proc (S E C : Type 0) (R : C → Type 0) (A : Type 0) : Type 0 where
  ret : A → Proc S E C R A
  throw : E → Proc S E C R A
  get : (S → Proc S E C R A) → Proc S E C R A
  put : S → Proc S E C R A → Proc S E C R A
  -- a callback, which answers at once
  ask : (c : C) → (R c → Proc S E C R A) → Proc S E C R A
  -- `await` of a call
  await : (c : C) → (R c → Proc S E C R A) → Proc S E C R A

module _ {S E C : Type 0} {R : C → Type 0} where
  infixl 5 ◌>>=◌ ◌>>◌
  unfoldable pub ◌>>=◌ : {A B : Type 0} → Proc S E C R A → (A → Proc S E C R B) → Proc S E C R B
  ret a >>= f = f a
  throw e >>= f = throw e
  get k >>= f = get (λ s. k s >>= f)
  put s p >>= f = put s (p >>= f)
  ask c k >>= f = ask c (λ r. k r >>= f)
  await c k >>= f = await c (λ r. k r >>= f)

  abbrev pub ◌>>◌ : {A B : Type 0} → Proc S E C R A → Proc S E C R B → Proc S E C R B
  p >> q = p >>= λ _. q

  -- `try { p } catch (e) { handler(e) }`
  unfoldable pub catch : {A : Type 0} → Proc S E C R A → (E → Proc S E C R A) → Proc S E C R A
  catch (ret a) h = ret a
  catch (throw e) h = h e
  catch (get k) h = get (λ s. catch (k s) h)
  catch (put s p) h = put s (catch p h)
  catch (ask c k) h = ask c (λ r. catch (k r) h)
  catch (await c k) h = await c (λ r. catch (k r) h)

  -- `try { p } finally { cleanup }`
  unfoldable pub finally : {A : Type 0} → Proc S E C R A → Proc S E C R (Unit {0}) → Proc S E C R A
  unfolding ◌>>=◌
  finally (ret a) c = c >>= λ _. ret a
  finally (throw e) c = c >>= λ _. throw e
  finally (get k) c = get (λ s. finally (k s) c)
  finally (put s p) c = put s (finally p c)
  finally (ask d k) c = ask d (λ r. finally (k r) c)
  finally (await d k) c = await d (λ r. finally (k r) c)

  -- A value, or what it throws.
  abbrev pub lift : {A : Type 0} → Outcome E A → Proc S E C R A
  lift (ok a) = ret a
  lift (err e) = throw e

  abbrev pub state : Proc S E C R S
  state = get ret

  abbrev pub modify : (S → S) → Proc S E C R (Unit {0})
  modify f = get (λ s. put (f s) (ret tt))

-- What a method does in one world: the replies that the calls get, in order, and what the other
-- tasks make of the state while the method waits.
pub record World (S C : Type 0) (R : C → Type 0) : Type 0 where
  pub reply : ℕ → (c : C) → R c
  pub meanwhile : ℕ → S → S

-- How a method ended, the state it left, and the calls it made, first to last.
pub record Run (S E C A : Type 0) : Type 0 where
  pub outcome : Outcome E A
  pub final : S
  pub calls : List C

module _ {S E C : Type 0} {R : C → Type 0} (w : World S C R) where
  abbrev called : {A : Type 0} → C → Run S E C A → Run S E C A
  called c r = record r { calls = c ∷ r.calls }

  -- `n` counts the calls made so far.
  unfoldable pub run : {A : Type 0} → ℕ → S → Proc S E C R A → Run S E C A
  run n s (ret a) = record { outcome = ok a; final = s; calls = [] }
  run n s (throw e) = record { outcome = err e; final = s; calls = [] }
  run n s (get k) = run n s (k s)
  run n s (put s' p) = run n s' p
  run n s (ask c k) = called c (run (suc n) s (k (w.reply n c)))
  run n s (await c k) = called c (run (suc n) (w.meanwhile n s) (k (w.reply n c)))
