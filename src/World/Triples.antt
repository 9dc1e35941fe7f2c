-- ===== src/World/Triples.antt =====
-- What a handler leaves, from a precondition: one condition where it returns and one where it throws.
use aalam_security_back.Common.{
  ◌≡◌, refl, subst, ap, or_else, arith, Bool, true, false, Option, none, some, if◌then◌else◌,
}
use aalam_security_back.Errors.{Exception}
use aalam_security_back.World.{
  World, Outcome, ok, thrown, after, result, M, ◌>>=◌, ◌>>◌, throw, read, when, require,
  catch_not_found, transaction, running,
}
use aalam_security_back.Errors.{is_prisma_row_not_found}
use aalam_security_back.World.Keeps.{Keeps}

abbrev pub Post : {A : Type 0} → (A → World → Type 0) → (World → Type 0) → Outcome A → Type 0
Post Q R (ok a w) = Q a w
Post Q R (thrown e w) = R w

-- No condition.
abbrev pub Nothing : World → Type 0
Nothing w = Unit

pub record Triple (P : World → Type 0) {A : Type 0} (m : M A) (Q : A → World → Type 0)
    (R : World → Type 0) : Type 0 where
  pub run : (w : World) → P w → Post Q R (m w)

bound :
    {A B : Type 0} (Q : A → World → Type 0) (Q' : B → World → Type 0) (R : World → Type 0)
    (f : A → M B) (o : Outcome A)
    → Post Q R o
    → ((a : A) → Triple (Q a) (f a) Q' R)
    → Post Q' R (elim o [ ok a w ↦ f a w | thrown e w ↦ thrown e w ])
bound Q Q' R f (ok a w) h k = (k a).run w h
bound Q Q' R f (thrown e w) h k = h

-- The rule for a sequence: the condition in the middle is the first argument.
pub flow :
    {P : World → Type 0} {R : World → Type 0} {A B : Type 0} (Q : A → World → Type 0)
    {Q' : B → World → Type 0} {m : M A} {f : A → M B}
    → Triple P m Q R
    → ((a : A) → Triple (Q a) (f a) Q' R)
    → Triple P (m >>= f) Q' R
unfolding ◌>>=◌
flow {R} Q {Q'} {m} {f} h k = record { run = λ w p. bound Q Q' R f (m w) (h.run w p) k }

pub next :
    {P : World → Type 0} {R : World → Type 0} {A B : Type 0} (Q : World → Type 0)
    {Q' : B → World → Type 0} {m : M A} {k : M B}
    → Triple P m (λ a. Q) R
    → Triple Q k Q' R
    → Triple P (m >> k) Q' R
unfolding ◌>>◌
next Q h k = flow (λ a. Q) h (λ a. k)

-- A read leaves the state, and says what was read.
pub having :
    {P : World → Type 0} {R : World → Type 0} {A B : Type 0} {Q' : B → World → Type 0}
    {g : World → A} {f : A → M B}
    → ((a : A) → Triple (λ w. P w × (g w ≡ a)) (f a) Q' R)
    → Triple P (read g >>= f) Q' R
unfolding ◌>>=◌ read
having {g} k = record { run = λ w p. (k (g w)).run w (p, refl) }

module _ {P : World → Type 0} {R : World → Type 0} (leaves : (w : World) → P w → R w) where
  -- `if (test) throw …`
  pub unless :
      {B : Type 0} {Q' : B → World → Type 0} {k : M B} (b : Bool) (e : Exception)
      → Triple (λ w. P w × (b ≡ false)) k Q' R
      → Triple P (when b (throw e) >> k) Q' R
  unfolding running
  unless true e h = record { run = λ w p. leaves w p }
  unless false e h = record { run = λ w p. h.run w (p, refl) }

  -- `if (!value) throw …`
  pub given :
      {A B : Type 0} {Q' : B → World → Type 0} {f : A → M B} (o : Option A) (e : Exception)
      → ((a : A) → Triple (λ w. P w × (o ≡ some a)) (f a) Q' R)
      → Triple P (require o e >>= f) Q' R
  unfolding running
  given none e h = record { run = λ w p. leaves w p }
  given (some a) e h = record { run = λ w p. (h a).run w (p, refl) }

  transacted :
      {A : Type 0} (Q : A → World → Type 0) (o : Outcome A) (w : World)
      → P w
      → Post Q R o
      → Post Q R (elim o [ ok a w' ↦ ok a w' | thrown e _ ↦ thrown e w ])
  transacted Q (ok a w') w p h = h
  transacted Q (thrown e w') w p h = leaves w p

  -- A transaction that fails leaves what was there.
  pub atomically :
      {A : Type 0} {Q : A → World → Type 0} {m : M A}
      → Triple P m Q R
      → Triple P (transaction m) Q R
  unfolding transaction
  atomically {Q} {m} h = record { run = λ w p. transacted Q (m w) w p (h.run w p) }

pub weaken :
    {P P' : World → Type 0} {R : World → Type 0} {A : Type 0} {Q : A → World → Type 0} {m : M A}
    → ((w : World) → P w → P' w)
    → Triple P' m Q R
    → Triple P m Q R
weaken h t = record { run = λ w p. t.run w (h w p) }

kept :
    {A : Type 0} (P R : World → Type 0) (leaves : (w : World) → P w → R w) (o : Outcome A)
    → P (after o)
    → Post (λ a. P) R o
kept P R leaves (ok a w) h = h
kept P R leaves (thrown e w) h = leaves w h

pub keeping :
    {P : World → Type 0} {R : World → Type 0} {A : Type 0} {m : M A}
    → ((w : World) → P w → R w)
    → Keeps P m
    → Triple P m (λ a. P) R
keeping {P} {R} {m} leaves h = record { run = λ w p. kept P R leaves (m w) (h.run w p) }

left_by : {A : Type 0} (R : World → Type 0) (o : Outcome A) → Post (λ a. R) R o → R (after o)
left_by R (ok a w) h = h
left_by R (thrown e w) h = h

-- A condition that holds before and after, whatever the handler does.
pub always : {R : World → Type 0} {A : Type 0} {m : M A} → Triple R m (λ a. R) R → Keeps R m
always {R} {m} h = record { run = λ w p. left_by R (m w) (h.run w p) }

recovered :
    {A : Type 0} (Q : A → World → Type 0) (R : World → Type 0) (handler : M A) (o : Outcome A)
    → Post Q R o
    → Triple R handler Q R
    → Post Q R (elim o [
      | ok a w ↦ ok a w
      | thrown e w ↦
          (λ (e : Exception) (w : World).
              if is_prisma_row_not_found e then handler w else thrown e w)
            e w
    ])
recovered Q R handler (ok a w) h k = h
recovered Q R handler (thrown e w) h k = split (is_prisma_row_not_found e) (k.run w h)
  where
    split : (b : Bool) → Post Q R (handler w) → Post Q R (if b then handler w else thrown e w)
    split true p = p
    split false p = h

pub recovering :
    {P : World → Type 0} {R : World → Type 0} {A : Type 0} {Q : A → World → Type 0}
    {m handler : M A}
    → Triple P m Q R
    → Triple R handler Q R
    → Triple P (catch_not_found m handler) Q R
unfolding catch_not_found running
recovering {R} {Q} {m} {handler} h k = record {
  run = λ w p. recovered Q R handler (m w) (h.run w p) k;
}

concluded :
    {A : Type 0} (Q Q' : A → World → Type 0) (R : World → Type 0) (o : Outcome A)
    → ((a : A) (w : World) → Q a w → Q' a w)
    → Post Q R o
    → Post Q' R o
concluded Q Q' R (ok a w) h p = h a w p
concluded Q Q' R (thrown e w) h p = p

pub conclude :
    {P R : World → Type 0} {A : Type 0} {Q Q' : A → World → Type 0} {m : M A}
    → ((a : A) (w : World) → Q a w → Q' a w)
    → Triple P m Q R
    → Triple P m Q' R
conclude {R} {Q} {Q'} {m} h t = record { run = λ w p. concluded Q Q' R (m w) h (t.run w p) }

-- `if (test) { … }`
pub sometimes :
    {P : World → Type 0} {R : World → Type 0} {Q : Unit {0} → World → Type 0} {m : M (Unit {0})}
    (b : Bool)
    → (b ≡ true → Triple P m Q R)
    → (b ≡ false → (w : World) → P w → Q tt w)
    → Triple P (when b m) Q R
unfolding running
sometimes true h k = h refl
sometimes false h k = record { run = k refl }

-- `if (test) throw …`, at the end.
pub refusing :
    {P : World → Type 0} {R : World → Type 0} (b : Bool) (e : Exception)
    → ((w : World) → P w → R w)
    → Triple P (when b (throw e)) (λ a w. P w × (b ≡ false)) R
unfolding running
refusing true e leaves = record { run = leaves }
refusing false e leaves = record { run = λ w p. (p, refl) }

-- A fact that the precondition gives, for the rest of the proof.
pub knowing :
    {P : World → Type 0} {R : World → Type 0} {A : Type 0} {Q : A → World → Type 0} {m : M A}
    {Z : Type 0}
    → ((w : World) → P w → Z)
    → (Z → Triple P m Q R)
    → Triple P m Q R
knowing fact h = record { run = λ w p. (h (fact w p)).run w p }

-- What holds where a handler returned.
pub of_result :
    {A : Type 0} (R : World → Type 0) (Q : A → World → Type 0) (o : Outcome A) (x : A)
    → Post Q R o
    → result o ≡ some x
    → Q x (after o)
of_result R Q (ok a w) x p e = subst (λ y. Q y w) (ap (λ o. or_else o a) e) p
of_result R Q (thrown t w) x p e = absurd (ground arith)
