-- ===== src/Async/Keeps.antt =====
-- Rules for a method that starts where one predicate of the state holds and ends, however it ends,
-- where another does; what the other tasks do keeps the first.
use sttork.Base.{Bool, if◌then◌else◌}
use sttork.Base.Outcome.{Outcome, ok, err}
use sttork.Async.{Proc, ret, throw, get, ask, await, ◌>>=◌, catch, lift}
use sttork.Async.Rules.{
  Ensures, Ensures-bind, Ensures-mono, Ensures-catch, Ensures-if, Next, Handled,
}

abbrev pub Every : {S C : Type 0} → C → S → Type 0
Every c s = Unit

module _ {S C : Type 0} (E : Type 0) (R : C → Type 0) (others : S → S → Type 0) where
  unfoldable pub Leads : {A : Type 0} → (S → Type 0) → (S → Type 0) → Proc S E C R A → Type 0
  unfolding Ensures
  Leads pre post m = (s : S) → pre s → Ensures Every others (λ _ s'. post s') m s

  module _ (pre post : S → Type 0) (stable : (s s' : S) → pre s → others s s' → pre s')
      (enough : (s : S) → pre s → post s) where
    pub Leads-ret : {A : Type 0} (a : A) → Leads pre post (ret a)
    unfolding Leads
    Leads-ret a s h = enough s h

    pub Leads-throw : (A : Type 0) (e : E) → Leads {A = A} pre post (throw e)
    unfolding Leads
    Leads-throw A e s h = enough s h

    pub Leads-lift : {A : Type 0} (o : Outcome E A) → Leads pre post (lift o)
    unfolding Leads
    Leads-lift (ok a) s h = enough s h
    Leads-lift (err e) s h = enough s h

    pub Leads-ask : (c : C) → Leads pre post (ask c ret)
    unfolding Leads
    Leads-ask c s h = (tt, λ r. enough s h)

    pub Leads-await : (c : C) → Leads pre post (await c ret)
    unfolding Leads
    Leads-await c s h = (tt, λ r s' o. enough s' (stable s s' h o))

    pub Leads-state :
        {A : Type 0} (k : S → Proc S E C R A)
        → ((s : S) → pre s → Ensures Every others (λ _ s'. post s') (k s) s)
        → Leads pre post (get ret >>= k)
    unfolding Leads ◌>>=◌
    Leads-state k h s p = h s p

    pub Leads-if :
        {A : Type 0} (b : Bool) (p q : Proc S E C R A)
        → Leads pre post p
        → Leads pre post q
        → Leads pre post (if b then p else q)
    unfolding Leads
    Leads-if b p q hp hq s h =
        Ensures-if Every others (λ _ s'. post s') b p q s (λ _. hp s h) (λ _. hq s h)

    pub Leads-bind :
        {A B : Type 0} (m : Proc S E C R A) (f : A → Proc S E C R B)
        → Leads pre pre m
        → ((a : A) → Leads pre post (f a))
        → Leads pre post (m >>= f)
    unfolding Leads
    Leads-bind {A} m f hm hf s h =
        Ensures-bind Every others (λ _ s'. post s') m f s
          (Ensures-mono Every others (λ _ s'. pre s') _ next m s (hm s h))
      where
        next :
            (o : Outcome E A) (s' : S)
            → pre s'
            → Next {R = R} Every others (λ _ s''. post s'') f o s'
        next (ok a) s' p = hf a s' p
        next (err e) s' p = enough s' p

  pub Leads-catch :
      {A : Type 0} (pre post : S → Type 0) (p : Proc S E C R A) (h : E → Proc S E C R A)
      → Leads pre post p
      → ((e : E) → Leads post post (h e))
      → Leads pre post (catch p h)
  unfolding Leads
  Leads-catch {A} pre post p h hp hh s i =
      Ensures-catch Every others (λ _ s'. post s') p h s
        (Ensures-mono Every others (λ _ s'. post s') _ handled p s (hp s i))
    where
      handled :
          (o : Outcome E A) (s' : S)
          → post s'
          → Handled {R = R} Every others (λ _ s''. post s'') h o s'
      handled (ok a) s' q = q
      handled (err e) s' q = hh e s' q
