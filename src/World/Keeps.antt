-- ===== src/World/Keeps.antt =====
-- Rules for a property of the state that a handler keeps, whatever it returns or throws.
use aalam_security_back.Common.{Bool, true, false, Option, none, some, if◌then◌else◌}
use aalam_security_back.Errors.{Exception, is_prisma_row_not_found}
use aalam_security_back.World.{
  World, Outcome, ok, thrown, after, M, ◌>>=◌, ◌>>◌, pure, throw, read, modify, skip, when, require,
  try_catch, catch_not_found, finally, transaction, redis, running,
}

pub record Keeps {κ} (P : World → Type κ) {A : Type 0} (m : M A) : Type κ where
  pub run : (w : World) → P w → P (after (m w))

abbrev Runs {κ} : (World → Type κ) → {A : Type 0} → M A → Type κ
Runs P m = (w : World) → P w → P (after (m w))

transaction_after {κ} :
    (P : World → Type κ) {A : Type 0} (o : Outcome A) (w : World)
    → P w
    → P (after o)
    → P (after {A = A} (elim o [ ok a w' ↦ ok a w' | thrown e _ ↦ thrown e w ]))
unfolding running
transaction_after P (ok a w') w p h = h
transaction_after P (thrown e w') w p h = p

required_run {κ} :
    (P : World → Type κ) {A : Type 0} (o : Option A) (e : Exception) → Runs P (require o e)
unfolding running
required_run P none e w p = p
required_run P (some a) e w p = p

module _ {κ} {P : World → Type κ} where
  bind_after :
      {A B : Type 0} (o : Outcome A) (f : A → M B)
      → P (after o)
      → ((a : A) → Keeps P (f a))
      → P (after {A = B} (elim o [ ok a w' ↦ f a w' | thrown e w' ↦ thrown e w' ]))
  unfolding running
  bind_after (ok a w) f h k = (k a).run w h
  bind_after (thrown e w) f h k = h

  pub bind :
      {A B : Type 0} {m : M A} {f : A → M B}
      → Keeps P m
      → ((a : A) → Keeps P (f a))
      → Keeps P (m >>= f)
  unfolding running
  bind {m} {f} h k = record { run = λ w p. bind_after (m w) f (h.run w p) k }

  pub seq : {A B : Type 0} {m : M A} {k : M B} → Keeps P m → Keeps P k → Keeps P (m >> k)
  unfolding running
  seq {m} {k} h h' = record { run = λ w p. bind_after (m w) (λ _. k) (h.run w p) (λ _. h') }

  catch_after :
      {A : Type 0} (o : Outcome A) (handler : Exception → M A)
      → P (after o)
      → ((e : Exception) → Keeps P (handler e))
      → P (after {A = A} (elim o [ ok a w' ↦ ok a w' | thrown e w' ↦ handler e w' ]))
  unfolding running
  catch_after (ok a w) handler h k = h
  catch_after (thrown e w) handler h k = (k e).run w h

  pub caught :
      {A : Type 0} {m : M A} {handler : Exception → M A}
      → Keeps P m
      → ((e : Exception) → Keeps P (handler e))
      → Keeps P (try_catch m handler)
  unfolding running
  caught {m} {handler} h k = record { run = λ w p. catch_after (m w) handler (h.run w p) k }

  choose :
      {A : Type 0} (b : Bool) (m n : M A)
      → Keeps P m
      → Keeps P n
      → Runs P (λ w. if b then m w else n w)
  unfolding running
  choose true m n h k w p = h.run w p
  choose false m n h k w p = k.run w p

  pub either :
      {A : Type 0} (b : Bool) {m n : M A} → Keeps P m → Keeps P n → Keeps P (if b then m else n)
  unfolding running
  either true h k = h
  either false h k = k

  pub throws : {A : Type 0} (e : Exception) → Keeps P {A = A} (throw e)
  unfolding running
  throws e = record { run = λ w p. p }

  pub caught_not_found :
      {A : Type 0} {m handler : M A}
      → Keeps P m
      → Keeps P handler
      → Keeps P (catch_not_found m handler)
  unfolding running
  caught_not_found {handler} h k =
      caught h
        (λ e. record { run = choose (is_prisma_row_not_found e) handler (throw e) k (throws e) })

  pub gives : {A : Type 0} (a : A) → Keeps P (pure a)
  unfolding running
  gives a = record { run = λ w p. p }

  finally_after :
      {A : Type 0} (o : Outcome A) (last : M (Unit {0}))
      → P (after o)
      → Keeps P last
      → P (
          after {A = A}
            (elim o [ ok a w' ↦ (last >> pure a) w' | thrown e w' ↦ (last >> throw e) w' ]))
  unfolding running
  finally_after (ok a w) last h k = (seq k (gives a)).run w h
  finally_after {A} (thrown e w) last h k = (seq k (throws {A = A} e)).run w h

  pub ended :
      {A : Type 0} {m : M A} {last : M (Unit {0})}
      → Keeps P m
      → Keeps P last
      → Keeps P (finally m last)
  unfolding running
  ended {m} {last} h k = record { run = λ w p. finally_after (m w) last (h.run w p) k }

  pub atomic : {A : Type 0} {m : M A} → Keeps P m → Keeps P (transaction m)
  unfolding running
  atomic {m} h = record { run = λ w p. transaction_after P (m w) w p (h.run w p) }

  guarded_run : (b : Bool) (m : M (Unit {0})) → Keeps P m → Runs P (when b m)
  unfolding running
  guarded_run true m h w p = h.run w p
  guarded_run false m h w p = p

  pub guarded : (b : Bool) {m : M (Unit {0})} → Keeps P m → Keeps P (when b m)
  unfolding running
  guarded b {m} h = record { run = guarded_run b m h }

  pub required : {A : Type 0} (o : Option A) (e : Exception) → Keeps P (require o e)
  unfolding running
  required o e = record { run = required_run P o e }

  pub reads : {A : Type 0} (f : World → A) → Keeps P (read f)
  unfolding running
  reads f = record { run = λ w p. p }

  pub skips : Keeps P skip
  unfolding running
  skips = record { run = λ w p. p }

  pub modifies : (f : World → World) → ((w : World) → P w → P (f w)) → Keeps P (modify f)
  unfolding running
  modifies f h = record { run = h }

  pub online : {A : Type 0} {m : M A} → Keeps P m → Keeps P (redis m)
  unfolding running
  online {A} {m} h = record {
    run = λ w p.
        choose w.redis_up m (throw Exception.redis_unavailable) h
          (throws Exception.redis_unavailable) w p;
  }

pub ruleset rules = (
  bind, seq, caught, caught_not_found, either, throws, gives, ended, atomic, guarded, required,
  reads, skips, modifies, online,
)
