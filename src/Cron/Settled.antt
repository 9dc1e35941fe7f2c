-- ===== src/Cron/Settled.antt =====
-- The rows that checkStaleAssignments in modules/cron/cron.service.ts takes back: the loop over what
-- it read, row by row, is one change of each row.
use aalam_security_back.Common.{
  ℕ, ◌≤◌, ◌≡◌, refl, sym, subst, ◌∙◌, ap, Bool, true, false, ◌&&◌, not, Option, none, some, List,
  [], ◌∷◌, map, arith, ◌==◌, keep, if◌then◌else◌, Bool-cases, inl, inr,
}
use aalam_security_back.Schema.{EmergencySession, is_assigned}
use aalam_security_back.Rows.{count}
use aalam_security_back.Queries.{return_to_pool, session_by_id}
use aalam_security_back.Cron.{is_reclaimable}
use aalam_security_back.Cron.Reclaim.{checked, sweep}

-- A row with that operator, or with none, after the check.
abbrev settle_row : (ℕ → Bool) → Option ℕ → EmergencySession → EmergencySession
settle_row fresh none r = r
settle_row fresh (some id) r =
    if is_assigned r.status && not (fresh id) then return_to_pool r else r

-- An ASSIGNED session whose operator is not heard of returns to the pool; others stay.
abbrev pub settle : (ℕ → Bool) → EmergencySession → EmergencySession
settle fresh r = settle_row fresh r.assigned_operator_id r

-- Each identifier is of one session.
abbrev pub AreDistinct : List EmergencySession → Type 0
AreDistinct t = (id : ℕ) → count (session_by_id id) t ≤ 1

count-keep-le :
    (id : ℕ) (t : List EmergencySession)
    → count (session_by_id id) (keep is_reclaimable t) ≤ count (session_by_id id) t
count-keep-le id [] = omega arith
count-keep-le id (r ∷ rs) = ground (arith, count-keep-le id rs)

passed :
    (fresh : ℕ → Bool) (r : EmergencySession) (o : Option ℕ) (x : EmergencySession)
    (t : List EmergencySession)
    → (r.id == x.id) ≡ false
    → (elim o [ none ↦ x ∷ t | some id ↦ checked (fresh id) r.id id (x ∷ t) ])
      ≡ x ∷ (elim o [ none ↦ t | some id ↦ checked (fresh id) r.id id t ])
passed fresh r none x t h = refl
passed fresh r (some id) x t h = ground (arith, h)

-- The loop on other rows passes a row by.
sweep_past :
    (fresh : ℕ → Bool) (rs : List EmergencySession) (x : EmergencySession)
    (t : List EmergencySession)
    → count (session_by_id x.id) rs ≡ 0
    → sweep fresh rs (x ∷ t) ≡ x ∷ sweep fresh rs t
sweep_past fresh [] x t h = refl
sweep_past fresh (r ∷ rs) x t h =
    ap (sweep fresh rs) (passed fresh r r.assigned_operator_id x t (ground (arith, h)))
    ∙ sweep_past fresh rs x _ (ground (arith, h))

head_settled :
    (fresh : ℕ → Bool) (r : EmergencySession) (o : Option ℕ) (rs : List EmergencySession)
    → is_assigned r.status ≡ true
    → r.assigned_operator_id ≡ o
    → (elim o [ none ↦ r ∷ rs | some id ↦ checked (fresh id) r.id id (r ∷ rs) ])
      ≡ settle_row fresh o r ∷ rs
head_settled fresh r none rs a e = refl
head_settled fresh r (some id) rs a e = ground (arith, a, e)

idle_row :
    (fresh : ℕ → Bool) (r : EmergencySession) (o : Option ℕ)
    → is_reclaimable (record r { assigned_operator_id = o }) ≡ false
    → settle_row fresh o r ≡ r
idle_row fresh r none h = refl
idle_row fresh r (some id) h = ground (arith, h)

settled_id :
    (fresh : ℕ → Bool) (r : EmergencySession) (o : Option ℕ) → (settle_row fresh o r).id ≡ r.id
settled_id fresh r none = refl
settled_id fresh r (some id) = ground arith

fewer : (r : EmergencySession) (rs : List EmergencySession) → AreDistinct (r ∷ rs) → AreDistinct rs
fewer r rs h id = ground (arith, h id)

none_other :
    (r : EmergencySession) (rs : List EmergencySession)
    → AreDistinct (r ∷ rs)
    → count (session_by_id r.id) (keep is_reclaimable rs) ≡ 0
none_other r rs h = ground (arith, h r.id, count-keep-le r.id rs)

pub sweep-map :
    (fresh : ℕ → Bool) (t : List EmergencySession)
    → AreDistinct t
    → sweep fresh (keep is_reclaimable t) t ≡ map (settle fresh) t
sweep-map fresh [] h = refl
sweep-map fresh (r ∷ rs) h = elim (Bool-cases (is_reclaimable r)) [
  | inl chosen ↦ rw chosen (
      ap (sweep fresh (keep is_reclaimable rs))
        (head_settled fresh r r.assigned_operator_id rs (ground (arith, chosen)) refl)
      ∙ (sweep_past fresh (keep is_reclaimable rs) (settle fresh r) rs (
            subst (λ id. count (session_by_id id) (keep is_reclaimable rs) ≡ 0)
              (sym (settled_id fresh r r.assigned_operator_id)) (none_other r rs h))
          ∙ ap (λ t. settle fresh r ∷ t) (sweep-map fresh rs (fewer r rs h))))
  | inr idle ↦ rw idle (
      sweep_past fresh (keep is_reclaimable rs) r rs (none_other r rs h)
      ∙ (ap (λ t. r ∷ t) (sweep-map fresh rs (fewer r rs h))
          ∙ ap (λ x. x ∷ map (settle fresh) rs)
              (sym (idle_row fresh r r.assigned_operator_id idle))))
]
