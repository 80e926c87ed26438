-- ===== src/Async/Told.antt =====
-- What a method ensures when the replies to its calls are known to be of some kind.
use sttork.Base.{Bool, true, false, if◌then◌else◌, ℕ, suc, ◌≡◌, refl}
use sttork.Base.Outcome.{Outcome, ok, err}
use sttork.Async.{Proc, ret, throw, get, put, ask, await, ◌>>=◌, catch, lift, World, run}
use sttork.Async.Rules.{Ensures}

module _ {S E C : Type 0} {R : C → Type 0} (says : (c : C) → R c → Type 0)
    (others : S → S → Type 0) where
  -- As `Ensures`, but for replies of which `says` holds only.
  unfoldable pub Told : {A : Type 0} → (Outcome E A → S → Type 0) → Proc S E C R A → S → Type 0
  Told Q (ret a) s = Q (ok a) s
  Told Q (throw e) s = Q (err e) s
  Told Q (get k) s = Told Q (k s) s
  Told Q (put s' p) s = Told Q p s'
  Told Q (ask c k) s = (r : R c) → says c r → Told Q (k r) s
  Told Q (await c k) s = (r : R c) (s' : S) → says c r → others s s' → Told Q (k r) s'

  pub Told-of_Ensures :
      (may : C → S → Type 0) {A : Type 0} (Q : Outcome E A → S → Type 0) (p : Proc S E C R A)
      (s : S)
      → Ensures may others Q p s
      → Told Q p s
  unfolding Told Ensures
  Told-of_Ensures may Q (ret a) s h = h
  Told-of_Ensures may Q (throw e) s h = h
  Told-of_Ensures may Q (get k) s h = Told-of_Ensures may Q (k s) s h
  Told-of_Ensures may Q (put s' p) s h = Told-of_Ensures may Q p s' h
  Told-of_Ensures may Q (ask c k) s (m, h) = λ r _. Told-of_Ensures may Q (k r) s (h r)
  Told-of_Ensures may Q (await c k) s (m, h) = λ r s' _ o. Told-of_Ensures may Q (k r) s' (h r s' o)

  pub Told-mono :
      {A : Type 0} (P Q : Outcome E A → S → Type 0)
      → ((o : Outcome E A) (s : S) → P o s → Q o s)
      → (p : Proc S E C R A) (s : S) → Told P p s
      → Told Q p s
  unfolding Told
  Told-mono P Q f (ret a) s h = f (ok a) s h
  Told-mono P Q f (throw e) s h = f (err e) s h
  Told-mono P Q f (get k) s h = Told-mono P Q f (k s) s h
  Told-mono P Q f (put s' p) s h = Told-mono P Q f p s' h
  Told-mono P Q f (ask c k) s h = λ r t. Told-mono P Q f (k r) s (h r t)
  Told-mono P Q f (await c k) s h = λ r s' t o. Told-mono P Q f (k r) s' (h r s' t o)

  -- The rest of a block after a part that ended so.
  abbrev pub Then :
      {A B : Type 0} → (Outcome E B → S → Type 0) → (A → Proc S E C R B) → Outcome E A → S → Type 0
  Then Q f (ok a) s = Told Q (f a) s
  Then Q f (err e) s = Q (err e) s

  pub Told-bind :
      {A B : Type 0} (Q : Outcome E B → S → Type 0) (p : Proc S E C R A) (f : A → Proc S E C R B)
      (s : S)
      → Told (Then Q f) p s
      → Told Q (p >>= f) s
  unfolding Told ◌>>=◌
  Told-bind Q (ret a) f s h = h
  Told-bind Q (throw e) f s h = h
  Told-bind Q (get k) f s h = Told-bind Q (k s) f s h
  Told-bind Q (put s' p) f s h = Told-bind Q p f s' h
  Told-bind Q (ask c k) f s h = λ r t. Told-bind Q (k r) f s (h r t)
  Told-bind Q (await c k) f s h = λ r s' t o. Told-bind Q (k r) f s' (h r s' t o)

  pub Told-state :
      {A : Type 0} (Q : Outcome E A → S → Type 0) (k : S → Proc S E C R A) (s : S)
      → Told Q (k s) s
      → Told Q (get ret >>= k) s
  unfolding Told ◌>>=◌
  Told-state Q k s h = h

  pub Told-await :
      {A : Type 0} (Q : Outcome E A → S → Type 0) (c : C) (f : R c → Proc S E C R A) (s : S)
      → ((r : R c) (s' : S) → says c r → others s s' → Told Q (f r) s')
      → Told Q (await c ret >>= f) s
  unfolding Told ◌>>=◌
  Told-await Q c f s h = h

  pub Told-if :
      {A : Type 0} (Q : Outcome E A → S → Type 0) (b : Bool) (p q : Proc S E C R A) (s : S)
      → (b ≡ true → Told Q p s)
      → (b ≡ false → Told Q q s)
      → Told Q (if b then p else q) s
  Told-if Q true p q s yes' no' = yes' refl
  Told-if Q false p q s yes' no' = no' refl

  pub Told-lift :
      {A B : Type 0} (Q : Outcome E B → S → Type 0) (o : Outcome E A) (f : A → Proc S E C R B)
      (s : S)
      → ((a : A) → o ≡ ok a → Told Q (f a) s)
      → ((e : E) → o ≡ err e → Q (err e) s)
      → Told Q (lift o >>= f) s
  unfolding Told ◌>>=◌
  Told-lift Q (ok a) f s good bad = good a refl
  Told-lift Q (err e) f s good bad = bad e refl

  -- The handler's part when the guarded block throws.
  abbrev pub Caught :
      {A : Type 0} → (Outcome E A → S → Type 0) → (E → Proc S E C R A) → Outcome E A → S → Type 0
  Caught Q h (ok a) s = Q (ok a) s
  Caught Q h (err e) s = Told Q (h e) s

  pub Told-catch :
      {A : Type 0} (Q : Outcome E A → S → Type 0) (p : Proc S E C R A) (h : E → Proc S E C R A)
      (s : S)
      → Told (Caught Q h) p s
      → Told Q (catch p h) s
  unfolding Told catch
  Told-catch Q (ret a) h s e = e
  Told-catch Q (throw x) h s e = e
  Told-catch Q (get k) h s e = Told-catch Q (k s) h s e
  Told-catch Q (put s' p) h s e = Told-catch Q p h s' e
  Told-catch Q (ask c k) h s e = λ r t. Told-catch Q (k r) h s (e r t)
  Told-catch Q (await c k) h s e = λ r s' t o. Told-catch Q (k r) h s' (e r s' t o)

-- What a world says: the replies that it gives to a call.
abbrev pub Says : {S C : Type 0} {R : C → Type 0} → World S C R → (c : C) → R c → Type 0
Says w c r = (n : ℕ) × (w.reply n c ≡ r)

-- A run in a world where the other tasks keep to `others` ends as the method ensures of the replies
-- that this world gives.
pub Told-run :
    {S E C : Type 0} {R : C → Type 0} (others : S → S → Type 0) (w : World S C R)
    → ((n : ℕ) (s : S) → others s (w.meanwhile n s))
    → {A : Type 0} (Q : Outcome E A → S → Type 0) (p : Proc S E C R A) (n : ℕ) (s : S)
    → Told (Says w) others Q p s
    → Q (run w n s p).outcome (run w n s p).final
unfolding Told run
Told-run others w o Q (ret a) n s h = h
Told-run others w o Q (throw x) n s h = h
Told-run others w o Q (get k) n s h = Told-run others w o Q (k s) n s h
Told-run others w o Q (put s' p) n s h = Told-run others w o Q p n s' h
Told-run others w o Q (ask c k) n s h =
    Told-run others w o Q (k (w.reply n c)) (suc n) s (h (w.reply n c) (n, refl))
Told-run others w o Q (await c k) n s h =
    Told-run others w o Q (k (w.reply n c)) (suc n) (w.meanwhile n s)
      (h (w.reply n c) (w.meanwhile n s) (n, refl) (o n s))
