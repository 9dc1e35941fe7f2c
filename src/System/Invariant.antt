-- ===== src/System/Invariant.antt =====
-- The desk's invariant, kept by every move.
use aalam_security_back.Common.{
  ℕ, suc, ◌<◌, ◌≡◌, ◌≢◌, refl, sym, ◌∙◌, Bool, true, List, [], ◌∷◌, arith, All, Bool-cases, inl,
  inr,
}
use aalam_security_back.Schema.{EmergencySession}
use aalam_security_back.Rows.{set_first}
use aalam_security_back.Rows.Counts.{All-set_first}
use aalam_security_back.Queries.{is_open_of, assign_to}
use aalam_security_back.System.{
  Desk, RowMove, touch, progress, back, close, Move, draw, raise, edit, assign, staff, Reach, here,
  next,
}
use aalam_security_back.System.Edits
use aalam_security_back.System.Edits.{IsShaped, IsConsistent}

-- Each session has an identifier of its own, drawn before.
abbrev pub IsDrawn : (ℕ → ℕ) → ℕ → EmergencySession → Type 0
IsDrawn uuid drawn r = (k : ℕ) × (k < drawn) × (r.id ≡ uuid k)

abbrev pub IsDistinct : List EmergencySession → Type 0
IsDistinct [] = Unit
IsDistinct (r ∷ rs) = All (λ x. x.id ≢ r.id) rs × IsDistinct rs

pub record Inv (uuid : ℕ → ℕ) (d : Desk) : Type 0 where
  pub consistent : IsConsistent d.sessions d.users
  pub numbered : All (IsDrawn uuid d.drawn) d.sessions
  pub distinct : IsDistinct d.sessions

RowMove-id : (r q : EmergencySession) → RowMove r q → q.id ≡ r.id
RowMove-id r _ touch = refl
RowMove-id r _ (progress h) = refl
RowMove-id r _ (back h) = refl
RowMove-id r _ (close q u same _ _ _) = same

RowMove-IsShaped : {r q : EmergencySession} → RowMove r q → IsShaped r → IsShaped q
RowMove-IsShaped touch h = h
RowMove-IsShaped (progress e) h = ground arith
RowMove-IsShaped (back e) h = ground arith
RowMove-IsShaped (close q e _ _ st at) h = ground arith

RowMove-is_open :
    (o : ℕ) {r q : EmergencySession} → RowMove r q → is_open_of o q ≡ true → is_open_of o r ≡ true
RowMove-is_open o touch h = h
RowMove-is_open o (progress e) h = ground arith
RowMove-is_open o (back e) h = ground arith
RowMove-is_open o (close q e _ _ st at) h = ground arith

All-mono {ℓ κ μ} :
    {A : Type ℓ} {P : A → Type κ} {Q : A → Type μ}
    → ((a : A) → P a → Q a)
    → (xs : List A) → All P xs
    → All Q xs
All-mono h [] a = tt
All-mono h (x ∷ xs) a = (h x a.0, All-mono h xs a.1)

IsDrawn-suc :
    (uuid : ℕ → ℕ) (n : ℕ) (r : EmergencySession) → IsDrawn uuid n r → IsDrawn uuid (suc n) r
IsDrawn-suc uuid n r (k, h, e) = (k, omega arith, e)

module _ (p : EmergencySession → Bool) (f : EmergencySession → EmergencySession)
    (same : (r : EmergencySession) → p r ≡ true → (f r).id ≡ r.id) where
  IsDistinct-set_first : (t : List EmergencySession) → IsDistinct t → IsDistinct (set_first p f t)
  IsDistinct-set_first [] h = tt
  IsDistinct-set_first (r ∷ rs) h = elim (Bool-cases (p r)) [
    | inl hit ↦ rw (hit, same r hit) h
    | inr miss ↦ rw miss (
      All-set_first p p f (λ x. x.id ≢ r.id) (λ x hit ne e. ne (sym (same x hit) ∙ e)) rs h.0,
      IsDistinct-set_first rs h.1,
    )
  ]

  numbered-set_first :
      (uuid : ℕ → ℕ) (n : ℕ) (t : List EmergencySession)
      → All (IsDrawn uuid n) t
      → All (IsDrawn uuid n) (set_first p f t)
  numbered-set_first uuid n t =
      All-set_first p p f (IsDrawn uuid n) (λ r hit d. (d.0, d.1, same r hit ∙ d.2)) t

module _ (uuid : ℕ → ℕ) (injective : (m n : ℕ) → uuid m ≡ uuid n → m ≡ n) where
  raised_distinct :
      (n : ℕ) (r : EmergencySession) (t : List EmergencySession)
      → r.id ≡ uuid n
      → All (IsDrawn uuid n) t
      → All (λ x. x.id ≢ r.id) t
  raised_distinct n r t e =
      All-mono (λ x (k, h, ex) same. absurd (omega (arith, injective k n (sym ex ∙ same ∙ e)))) t

  pub Move-Inv : {d e : Desk} → Move uuid d e → Inv uuid d → Inv uuid e
  Move-Inv {d} draw inv = record {
    consistent = inv.consistent;
    numbered = All-mono (IsDrawn-suc uuid d.drawn) d.sessions inv.numbered;
    distinct = inv.distinct;
  }
  Move-Inv {d} (raise r new_row) inv = record {
    consistent =
        Edits.create inv.consistent r new_row.free
          (ground (arith, new_row.is_new, new_row.free, new_row.unclosed));
    numbered = (
      (d.drawn, omega arith, new_row.fresh),
      All-mono (IsDrawn-suc uuid d.drawn) d.sessions inv.numbered,
    );
    distinct = (raised_distinct d.drawn r d.sessions new_row.fresh inv.numbered, inv.distinct);
  }
  Move-Inv {d} (edit p f h) inv = record {
    consistent =
        Edits.release inv.consistent p f (λ o r hit. RowMove-is_open o (h r hit))
          (λ r hit. RowMove-IsShaped (h r hit));
    numbered =
        numbered-set_first p f (λ r hit. RowMove-id r _ (h r hit)) uuid d.drawn d.sessions
          inv.numbered;
    distinct = IsDistinct-set_first p f (λ r hit. RowMove-id r _ (h r hit)) d.sessions inv.distinct;
  }
  Move-Inv {d} (assign o p h free ready) inv = record {
    consistent =
        Edits.assign inv.consistent o p free ready (λ r hit shape. ground (arith, h r hit));
    numbered =
        numbered-set_first p (assign_to o) (λ r hit. refl) uuid d.drawn d.sessions inv.numbered;
    distinct = IsDistinct-set_first p (assign_to o) (λ r hit. refl) d.sessions inv.distinct;
  }
  Move-Inv {d} (staff users h) inv = record {
    consistent = Edits.staff inv.consistent users h;
    numbered = inv.numbered;
    distinct = inv.distinct;
  }

  pub Reach-Inv : {d e : Desk} → Reach uuid d e → Inv uuid d → Inv uuid e
  Reach-Inv here inv = inv
  Reach-Inv (next r m) inv = Move-Inv m (Reach-Inv r inv)
