-- ===== src/World/Quiet.antt =====
-- Rules for a handler that returns, whatever the state: nothing it does throws.
use aalam_security_back.Common.{◌≡◌, refl, ◌∙◌, none, some, arith}
use aalam_security_back.Errors.{Exception}
use aalam_security_back.World.{
  World, Outcome, ok, thrown, after, raised, M, ◌>>=◌, ◌>>◌, pure, throw, read, modify, skip,
  try_catch, finally, running,
}

pub record Quiet {A : Type 0} (m : M A) : Type 0 where
  pub run : (w : World) → raised (m w) ≡ none

continued :
    {A B : Type 0} (o : Outcome A) (f : A → M B)
    → ((a : A) → Quiet (f a))
    → raised {A = B} (elim o [ ok a w ↦ f a w | thrown e w ↦ thrown e w ]) ≡ raised o
continued (ok a w) f h = (h a).run w
continued (thrown e w) f h = refl

-- What follows a handler and does not throw leaves its failure.
pub raised-before :
    {A B : Type 0} (m : M A) {f : A → M B} (w : World)
    → ((a : A) → Quiet (f a))
    → raised ((m >>= f) w) ≡ raised (m w)
unfolding ◌>>=◌
raised-before m {f} w h = continued (m w) f h

handled :
    {A : Type 0} (o : Outcome A) (handler : Exception → M A)
    → ((e : Exception) → Quiet (handler e))
    → raised {A = A} (elim o [ ok a w ↦ ok a w | thrown e w ↦ handler e w ]) ≡ none
handled (ok a w) handler h = refl
handled (thrown e w) handler h = (h e).run w

pub caught :
    {A : Type 0} (m : M A) {handler : Exception → M A}
    → ((e : Exception) → Quiet (handler e))
    → Quiet (try_catch m handler)
unfolding try_catch
caught m {handler} h = record { run = λ w. handled (m w) handler h }

pub bind :
    {A B : Type 0} {m : M A} {f : A → M B} → Quiet m → ((a : A) → Quiet (f a)) → Quiet (m >>= f)
bind {m} {f} h k = record { run = λ w. raised-before m {f = f} w k ∙ h.run w }

pub seq : {A B : Type 0} {m : M A} {k : M B} → Quiet m → Quiet k → Quiet (m >> k)
unfolding ◌>>◌
seq h k = bind h (λ _. k)

pub reads : {A : Type 0} (f : World → A) → Quiet (read f)
unfolding read
reads f = record { run = λ w. refl }

pub modifies : (f : World → World) → Quiet (modify f)
unfolding modify
modifies f = record { run = λ w. refl }

pub skips : Quiet skip
unfolding skip
skips = record { run = λ w. refl }

pub gives : {A : Type 0} (a : A) → Quiet (pure a)
unfolding pure
gives a = record { run = λ w. refl }

pub ruleset quiet_rules = (caught, bind, seq, reads, modifies, skips, gives)

concluded :
    {A : Type 0} (o : Outcome A) (last : M (Unit {0}))
    → Quiet last
    → raised {A = A} (elim o [ ok a w ↦ (last >> pure a) w | thrown e w ↦ (last >> throw e) w ])
      ≡ raised o
unfolding running
concluded (ok a w) last h = (seq h (gives a)).run w
concluded {A} (thrown e w) last h = rethrown (last w) (h.run w)
  where
    rethrown :
        (o : Outcome (Unit {0}))
        → raised o ≡ none
        → raised {A = A} (elim o [ ok a w' ↦ throw e w' | thrown x w' ↦ thrown x w' ]) ≡ some e
    rethrown (ok a w') quiet = refl
    rethrown (thrown x w') quiet = absurd (ground arith)

and_then :
    {A B : Type 0} (o : Outcome A) (k : M B)
    → raised o ≡ none
    → after {A = B} (elim o [ ok a w ↦ k w | thrown e w ↦ thrown e w ]) ≡ after (k (after o))
and_then (ok a w) k h = refl
and_then (thrown e w) k h = absurd (ground arith)

-- The state after two handlers is what the second makes of the first's.
pub after-seq :
    {A B : Type 0} (m : M A) (k : M B) (w : World)
    → Quiet m
    → after ((m >> k) w) ≡ after (k (after (m w)))
unfolding ◌>>=◌ ◌>>◌
after-seq m k w h = and_then (m w) k (h.run w)

pub raised-finally :
    {A : Type 0} (m : M A) (last : M (Unit {0})) (w : World)
    → Quiet last
    → raised (finally m last w) ≡ raised (m w)
unfolding finally
raised-finally m last w h = concluded (m w) last h
