-- ===== src/System/Evolution.antt =====
-- The sessions over a history of the program.
use mathlib.Core.List.Memᴰ.{Memᴰ, head, tail}
use aalam_security_back.Common.{
  ℕ, ◌≡◌, refl, ◌∙◌, Bool, true, List, [], ◌∷◌, arith, Bool-cases, inl, inr,
}
use aalam_security_back.Schema.{EmergencySession, is_closed}
use aalam_security_back.Rows.{set_first}
use aalam_security_back.Queries.{assign_to}
use aalam_security_back.System.{
  Desk, RowMove, touch, progress, back, close, Move, draw, raise, edit, assign, staff, Reach, here,
  next,
}

-- One row's later form.
pub record Evolves (r q : EmergencySession) : Type 0 where
  pub same_id : q.id ≡ r.id
  pub same_user : q.user_id ≡ r.user_id
  pub closed_stays : is_closed r.status ≡ true → q ≡ r

same : (r : EmergencySession) → Evolves r r
same r = record { same_id = refl; same_user = refl; closed_stays = λ _. refl }

then_on : {r q x : EmergencySession} → Evolves r q → Evolves q x → Evolves r x
then_on {r} {q} {x} a b = record {
  same_id = b.same_id ∙ a.same_id;
  same_user = b.same_user ∙ a.same_user;
  closed_stays =
      λ e. let unchanged : q ≡ r = a.closed_stays e in b.closed_stays (rw unchanged e) ∙ unchanged;
}

RowMove-Evolves : {r q : EmergencySession} → RowMove r q → Evolves r q
RowMove-Evolves {r} touch = same r
RowMove-Evolves (progress e) = record {
  same_id = refl;
  same_user = refl;
  closed_stays = λ c. absurd (ground arith);
}
RowMove-Evolves (back e) = record {
  same_id = refl;
  same_user = refl;
  closed_stays = λ c. absurd (ground arith);
}
RowMove-Evolves (close q e i u st at) = record {
  same_id = i;
  same_user = u;
  closed_stays = λ c. absurd (ground arith);
}

abbrev pub Later : EmergencySession → List EmergencySession → Type 0
Later r t = (q : EmergencySession) × Memᴰ q t × Evolves r q

set_first-Later :
    (p : EmergencySession → Bool) (f : EmergencySession → EmergencySession)
    → ((r : EmergencySession) → p r ≡ true → Evolves r (f r))
    → (r : EmergencySession) (t : List EmergencySession) → Memᴰ r t
    → Later r (set_first p f t)
set_first-Later p f h r [] at = elim at [ ]
set_first-Later p f h r (x ∷ rs) (head e) = elim (Bool-cases (p x)) [
  | inl hit ↦ rw (hit, e) (f x, head refl, h x hit)
  | inr miss ↦ rw (miss, e) (x, head refl, same x)
]
set_first-Later p f h r (x ∷ rs) (tail at) = elim (Bool-cases (p x)) [
  | inl hit ↦ rw hit (r, tail at, same r)
  | inr miss ↦ let (q, there, e) = set_first-Later p f h r rs at in rw miss (q, tail there, e)
]

Move-Later :
    {uuid : ℕ → ℕ} {d e : Desk}
    → Move uuid d e
    → (r : EmergencySession) → Memᴰ r d.sessions
    → Later r e.sessions
Move-Later draw r at = (r, at, same r)
Move-Later (raise _ _) r at = (r, tail at, same r)
Move-Later {d} (edit p f h) r at =
    set_first-Later p f (λ x hit. RowMove-Evolves (h x hit)) r d.sessions at
Move-Later {d} (assign o p h free ready) r at =
    set_first-Later p (assign_to o)
      (λ x hit. record {
        same_id = refl;
        same_user = refl;
        closed_stays = λ c. absurd (ground (arith, h x hit));
      })
      r d.sessions at
Move-Later (staff users h) r at = (r, at, same r)

pub Reach-Later :
    {uuid : ℕ → ℕ} {d e : Desk}
    → Reach uuid d e
    → (r : EmergencySession) → Memᴰ r d.sessions
    → Later r e.sessions
Reach-Later here r at = (r, at, same r)
Reach-Later (next before m) r at =
    let (q, there, e) = Reach-Later before r at in
    let (x, now_there, e') = Move-Later m q there in (x, now_there, then_on e e')
