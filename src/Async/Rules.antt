-- ===== src/Async/Rules.antt =====
-- What every run of a method guarantees, and the rules that prove it step by step.
use sttork.Base.{Bool, true, false, if◌then◌else◌, ℕ, suc, ◌≡◌, refl}
use sttork.Base.Outcome.{Outcome, ok, err}
use sttork.Async.{Proc, ret, throw, get, put, ask, await, ◌>>=◌, catch, finally, lift, World, run}

-- `may c s`: the method may make the call `c` in the state `s`. `others s s'`: while it waits, the
-- other tasks may take `s` to `s'`.
module _ {S E C : Type 0} {R : C → Type 0} (may : C → S → Type 0) (others : S → S → Type 0) where
  -- From the state `s`, whatever the replies and whatever the others do, each call is one that may
  -- be made, and `Q` holds of how the method ends and the state it leaves.
  unfoldable pub Ensures : {A : Type 0} → (Outcome E A → S → Type 0) → Proc S E C R A → S → Type 0
  Ensures Q (ret a) s = Q (ok a) s
  Ensures Q (throw e) s = Q (err e) s
  Ensures Q (get k) s = Ensures Q (k s) s
  Ensures Q (put s' p) s = Ensures Q p s'
  Ensures Q (ask c k) s = may c s × ((r : R c) → Ensures Q (k r) s)
  Ensures Q (await c k) s = may c s × ((r : R c) (s' : S) → others s s' → Ensures Q (k r) s')

  module _ {A : Type 0} (Q : Outcome E A → S → Type 0) where
    pub Ensures-get : (k : S → Proc S E C R A) (s : S) → Ensures Q (k s) s → Ensures Q (get k) s
    unfolding Ensures
    Ensures-get k s h = h

    pub Ensures-put :
        (s' : S) (p : Proc S E C R A) (s : S) → Ensures Q p s' → Ensures Q (put s' p) s
    unfolding Ensures
    Ensures-put s' p s h = h

    pub Ensures-ask :
        (c : C) (k : R c → Proc S E C R A) (s : S)
        → may c s
        → ((r : R c) → Ensures Q (k r) s)
        → Ensures Q (ask c k) s
    unfolding Ensures
    Ensures-ask c k s m h = (m, h)

    pub Ensures-await :
        (c : C) (k : R c → Proc S E C R A) (s : S)
        → may c s
        → ((r : R c) (s' : S) → others s s' → Ensures Q (k r) s')
        → Ensures Q (await c k) s
    unfolding Ensures
    Ensures-await c k s m h = (m, h)

    pub Ensures-if :
        (b : Bool) (p q : Proc S E C R A) (s : S)
        → (b ≡ true → Ensures Q p s)
        → (b ≡ false → Ensures Q q s)
        → Ensures Q (if b then p else q) s
    Ensures-if true p q s yes' no' = yes' refl
    Ensures-if false p q s yes' no' = no' refl

    pub Ensures-state :
        (k : S → Proc S E C R A) (s : S) → Ensures Q (k s) s → Ensures Q (get ret >>= k) s
    unfolding Ensures ◌>>=◌
    Ensures-state k s h = h

  -- The rest of a block after a part that ended so.
  abbrev pub Next :
      {A B : Type 0} → (Outcome E B → S → Type 0) → (A → Proc S E C R B) → Outcome E A → S → Type 0
  Next Q f (ok a) s = Ensures Q (f a) s
  Next Q f (err e) s = Q (err e) s

  pub Ensures-bind :
      {A B : Type 0} (Q : Outcome E B → S → Type 0) (p : Proc S E C R A) (f : A → Proc S E C R B)
      (s : S)
      → Ensures (Next Q f) p s
      → Ensures Q (p >>= f) s
  unfolding Ensures ◌>>=◌
  Ensures-bind Q (ret a) f s h = h
  Ensures-bind Q (throw e) f s h = h
  Ensures-bind Q (get k) f s h = Ensures-bind Q (k s) f s h
  Ensures-bind Q (put s' p) f s h = Ensures-bind Q p f s' h
  Ensures-bind Q (ask c k) f s (m, h) = (m, λ r. Ensures-bind Q (k r) f s (h r))
  Ensures-bind Q (await c k) f s (m, h) = (m, λ r s' o. Ensures-bind Q (k r) f s' (h r s' o))

  pub Ensures-lift :
      {A B : Type 0} (Q : Outcome E B → S → Type 0) (o : Outcome E A) (f : A → Proc S E C R B)
      (s : S)
      → ((a : A) → o ≡ ok a → Ensures Q (f a) s)
      → ((e : E) → o ≡ err e → Q (err e) s)
      → Ensures Q (lift o >>= f) s
  unfolding Ensures ◌>>=◌
  Ensures-lift Q (ok a) f s good bad = good a refl
  Ensures-lift Q (err e) f s good bad = bad e refl

  -- The handler's part when the guarded block throws.
  abbrev pub Handled :
      {A : Type 0} → (Outcome E A → S → Type 0) → (E → Proc S E C R A) → Outcome E A → S → Type 0
  Handled Q h (ok a) s = Q (ok a) s
  Handled Q h (err e) s = Ensures Q (h e) s

  pub Ensures-catch :
      {A : Type 0} (Q : Outcome E A → S → Type 0) (p : Proc S E C R A) (h : E → Proc S E C R A)
      (s : S)
      → Ensures (Handled Q h) p s
      → Ensures Q (catch p h) s
  unfolding Ensures catch
  Ensures-catch Q (ret a) h s e = e
  Ensures-catch Q (throw x) h s e = e
  Ensures-catch Q (get k) h s e = Ensures-catch Q (k s) h s e
  Ensures-catch Q (put s' p) h s e = Ensures-catch Q p h s' e
  Ensures-catch Q (ask c k) h s (m, e) = (m, λ r. Ensures-catch Q (k r) h s (e r))
  Ensures-catch Q (await c k) h s (m, e) = (m, λ r s' o. Ensures-catch Q (k r) h s' (e r s' o))

  -- The end of a `finally` block hands the outcome on.
  abbrev pub Rethrow : {A : Type 0} → Outcome E A → Proc S E C R A
  Rethrow (ok a) = ret a
  Rethrow (err e) = throw e

  pub Ensures-finally :
      {A : Type 0} (Q : Outcome E A → S → Type 0) (p : Proc S E C R A) (c : Proc S E C R (Unit {0}))
      (s : S)
      → Ensures (λ o s'. Ensures Q (c >>= λ _. Rethrow o) s') p s
      → Ensures Q (finally p c) s
  unfolding Ensures finally
  Ensures-finally Q (ret a) c s e = e
  Ensures-finally Q (throw x) c s e = e
  Ensures-finally Q (get k) c s e = Ensures-finally Q (k s) c s e
  Ensures-finally Q (put s' p) c s e = Ensures-finally Q p c s' e
  Ensures-finally Q (ask d k) c s (m, e) = (m, λ r. Ensures-finally Q (k r) c s (e r))
  Ensures-finally Q (await d k) c s (m, e) = (m, λ r s' o. Ensures-finally Q (k r) c s' (e r s' o))

  pub Ensures-mono :
      {A : Type 0} (P Q : Outcome E A → S → Type 0)
      → ((o : Outcome E A) (s : S) → P o s → Q o s)
      → (p : Proc S E C R A) (s : S) → Ensures P p s
      → Ensures Q p s
  unfolding Ensures
  Ensures-mono P Q h (ret a) s e = h (ok a) s e
  Ensures-mono P Q h (throw x) s e = h (err x) s e
  Ensures-mono P Q h (get k) s e = Ensures-mono P Q h (k s) s e
  Ensures-mono P Q h (put s' p) s e = Ensures-mono P Q h p s' e
  Ensures-mono P Q h (ask c k) s (m, e) = (m, λ r. Ensures-mono P Q h (k r) s (e r))
  Ensures-mono P Q h (await c k) s (m, e) = (m, λ r s' o. Ensures-mono P Q h (k r) s' (e r s' o))

  -- Where every call may be made, and a postcondition that always holds.
  pub Ensures-any :
      {A : Type 0} (Q : Outcome E A → S → Type 0)
      → ((c : C) (s : S) → may c s)
      → ((o : Outcome E A) (s : S) → Q o s)
      → (p : Proc S E C R A) (s : S) → Ensures Q p s
  unfolding Ensures
  Ensures-any Q m q (ret a) s = q (ok a) s
  Ensures-any Q m q (throw e) s = q (err e) s
  Ensures-any Q m q (get k) s = Ensures-any Q m q (k s) s
  Ensures-any Q m q (put s' p) s = Ensures-any Q m q p s'
  Ensures-any Q m q (ask c k) s = (m c s, λ r. Ensures-any Q m q (k r) s)
  Ensures-any Q m q (await c k) s = (m c s, λ r s' o. Ensures-any Q m q (k r) s')

  -- A block whose first part does not matter.
  pub Ensures-after :
      {A B : Type 0} (Q : Outcome E B → S → Type 0)
      → ((c : C) (s : S) → may c s)
      → ((e : E) (s : S) → Q (err e) s)
      → (p : Proc S E C R A) (f : A → Proc S E C R B) (s : S)
      → ((a : A) (s' : S) → Ensures Q (f a) s')
      → Ensures Q (p >>= f) s
  Ensures-after {A} Q m q p f s h = Ensures-bind Q p f s (Ensures-any (Next Q f) m either p s)
    where
      either : (o : Outcome E A) (s' : S) → Next Q f o s'
      either (ok a) s' = h a s'
      either (err e) s' = q e s'

  -- In each world where the other tasks keep to `others`, a run ends as the method ensures.
  pub Ensures-run :
      (w : World S C R)
      → ((n : ℕ) (s : S) → others s (w.meanwhile n s))
      → {A : Type 0} (Q : Outcome E A → S → Type 0) (p : Proc S E C R A) (n : ℕ) (s : S)
      → Ensures Q p s
      → Q (run w n s p).outcome (run w n s p).final
  unfolding Ensures run
  Ensures-run w o Q (ret a) n s e = e
  Ensures-run w o Q (throw x) n s e = e
  Ensures-run w o Q (get k) n s e = Ensures-run w o Q (k s) n s e
  Ensures-run w o Q (put s' p) n s e = Ensures-run w o Q p n s' e
  Ensures-run w o Q (ask c k) n s (m, e) =
      Ensures-run w o Q (k (w.reply n c)) (suc n) s (e (w.reply n c))
  Ensures-run w o Q (await c k) n s (m, e) =
      Ensures-run w o Q (k (w.reply n c)) (suc n) (w.meanwhile n s)
        (e (w.reply n c) (w.meanwhile n s) (o n s))

module _ {S E C : Type 0} (R : C → Type 0) (may : C → S → Type 0) (others : S → S → Type 0)
    {A : Type 0} (Q : Outcome E A → S → Type 0) where
  pub Ensures-ret : (a : A) (s : S) → Q (ok a) s → Ensures {R = R} may others Q (ret a) s
  unfolding Ensures
  Ensures-ret a s h = h

  pub Ensures-throw : (e : E) (s : S) → Q (err e) s → Ensures {R = R} may others Q (throw e) s
  unfolding Ensures
  Ensures-throw e s h = h

  pub Ensures-lift_last :
      (o : Outcome E A) (s : S)
      → ((a : A) → o ≡ ok a → Q (ok a) s)
      → ((e : E) → o ≡ err e → Q (err e) s)
      → Ensures {R = R} may others Q (lift o) s
  unfolding Ensures
  Ensures-lift_last (ok a) s good bad = good a refl
  Ensures-lift_last (err e) s good bad = bad e refl
