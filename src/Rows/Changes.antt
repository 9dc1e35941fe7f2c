-- ===== src/Rows/Changes.antt =====
-- How the removal of rows and the update of the row that a search finds change counts.
use aalam_security_back.Common.{
  ◌≤◌, ◌<◌, ◌≡◌, refl, Bool, true, false, some, List, [], ◌∷◌, arith, any, all, All, is_some, ◌&&◌,
  Bool-cases, inl, inr,
}
use aalam_security_back.Rows.{find, count, set_first, set_all, drop_all}

module _ {ℓ} {Row : Type ℓ} where
  module _ (p q : Row → Bool) where
    pub count-drop_all-le : (t : List Row) → count p (drop_all q t) ≤ count p t
    count-drop_all-le [] = omega arith
    count-drop_all-le (r ∷ rs) = ground (arith, count-drop_all-le rs)

    pub count-drop_all-zero :
        ((r : Row) → p r ≡ true → q r ≡ true) → (t : List Row) → count p (drop_all q t) ≡ 0
    count-drop_all-zero h [] = refl
    count-drop_all-zero h (r ∷ rs) = ground (arith, h r, count-drop_all-zero h rs)

    pub count-drop_all-of_zero : (t : List Row) → count p t ≡ 0 → count p (drop_all q t) ≡ 0
    count-drop_all-of_zero t h = omega (arith, count-drop_all-le t)

    pub all-drop_all : (t : List Row) → all p t ≡ true → all p (drop_all q t) ≡ true
    all-drop_all [] h = refl
    all-drop_all (r ∷ rs) h = ground (arith, all-drop_all rs)

    pub All-drop_all {κ} : (P : Row → Type κ) (t : List Row) → All P t → All P (drop_all q t)
    All-drop_all P [] a = tt
    All-drop_all P (r ∷ rs) a = elim (Bool-cases (q r)) [
      | inl hit ↦ rw hit (All-drop_all P rs a.1)
      | inr miss ↦ rw miss (a.0, All-drop_all P rs a.1)
    ]

    module _ (f : Row → Row) where
      pub count-set_all-le :
          ((r : Row) → p (f r) ≡ true → p r ≡ true)
          → (t : List Row) → count p (set_all q f t) ≤ count p t
      count-set_all-le h [] = omega arith
      count-set_all-le h (r ∷ rs) = ground (arith, h r, count-set_all-le h rs)

      -- Only the row that the search finds changes.
      pub count-set_first-le_found :
          (m : Row) (t : List Row)
          → find q t ≡ some m
          → (p (f m) ≡ true → p m ≡ true)
          → count p (set_first q f t) ≤ count p t
      count-set_first-le_found m [] e h = omega arith
      count-set_first-le_found m (r ∷ rs) e h = elim (Bool-cases (q r)) [
        | inl hit ↦ ground (arith, h)
        | inr miss ↦ ground (arith, count-set_first-le_found m rs)
      ]

  pub count-pos-of_find :
      (p q : Row → Bool) (m : Row) (t : List Row) → find p t ≡ some m → q m ≡ true → 0 < count q t
  count-pos-of_find p q m [] e h = absurd (ground arith)
  count-pos-of_find p q m (r ∷ rs) e h = ground (arith, count-pos-of_find p q m rs)

  -- Of the rows that a test accepts there is one at most, and it is the one that the key finds: an
  -- update by the key takes it away.
  pub count-set_first-zero :
      (p key : Row → Bool) (f : Row → Row) (m : Row)
      → p (f m) ≡ false
      → key m ≡ true
      → (t : List Row) → count p t ≤ 1
      → count key t ≤ 1
      → find p t ≡ some m
      → count p (set_first key f t) ≡ 0
  count-set_first-zero p key f m gone hit [] h k e = absurd (ground arith)
  count-set_first-zero p key f m gone hit (r ∷ rs) h k e =
      let again = count-set_first-zero p key f m gone hit rs in
      let there = count-pos-of_find p key m rs in ground (arith, again, there)

  pub find-set_first_other :
      (key other : Row → Bool) (f : Row → Row)
      → ((r : Row) → key r ≡ true → other r ≡ false)
      → ((r : Row) → other (f r) ≡ other r)
      → (t : List Row) → find other (set_first key f t) ≡ find other t
  find-set_first_other key other f apart same [] = refl
  find-set_first_other key other f apart same (r ∷ rs) =
      ground (arith, apart r, same r, find-set_first_other key other f apart same rs)

  -- A row that a search finds is found by its key.
  pub find-key-of_find :
      (p key : Row → Bool) (m : Row)
      → key m ≡ true
      → (t : List Row) → count key t ≤ 1
      → find p t ≡ some m
      → find key t ≡ some m
  find-key-of_find p key m hit [] h e = absurd (ground arith)
  find-key-of_find p key m hit (r ∷ rs) h e =
      let again = find-key-of_find p key m hit rs in
      let there = count-pos-of_find p key m rs in ground (arith, again, there)

  pub find-drop_all_other :
      (p q : Row → Bool)
      → (t : List Row) → any (λ r. q r && p r) t ≡ false
      → find p (drop_all q t) ≡ find p t
  find-drop_all_other p q [] h = refl
  find-drop_all_other p q (r ∷ rs) h = ground (arith, find-drop_all_other p q rs)

  pub all-set_first :
      (p key : Row → Bool) (f : Row → Row) (m : Row)
      → p (f m) ≡ true
      → (t : List Row) → find key t ≡ some m
      → all p t ≡ true
      → all p (set_first key f t) ≡ true
  all-set_first p key f m good [] e h = refl
  all-set_first p key f m good (r ∷ rs) e h = elim (Bool-cases (key r)) [
    | inl hit ↦ ground arith
    | inr miss ↦ ground (arith, all-set_first p key f m good rs)
  ]

  pub find-all :
      (p q : Row → Bool) (m : Row) (t : List Row) → all p t ≡ true → find q t ≡ some m → p m ≡ true
  find-all p q m [] h e = absurd (ground arith)
  find-all p q m (r ∷ rs) h e = ground (arith, find-all p q m rs)

  pub All-set_all {κ} :
      (q : Row → Bool) (f : Row → Row) (P : Row → Type κ)
      → ((r : Row) → P r → P (f r))
      → (t : List Row) → All P t
      → All P (set_all q f t)
  All-set_all q f P h [] a = tt
  All-set_all q f P h (r ∷ rs) a = elim (Bool-cases (q r)) [
    | inl hit ↦ rw hit (h r a.0, All-set_all q f P h rs a.1)
    | inr miss ↦ rw miss (a.0, All-set_all q f P h rs a.1)
  ]

  pub find-any :
      (p q : Row → Bool) (m : Row)
      → q m ≡ true
      → (t : List Row) → find p t ≡ some m
      → any q t ≡ true
  find-any p q m hit [] e = absurd (ground arith)
  find-any p q m hit (r ∷ rs) e = ground (arith, find-any p q m hit rs)

  pub count-zero-of_not_found :
      (p : Row → Bool) (t : List Row) → is_some (find p t) ≡ false → count p t ≡ 0
  count-zero-of_not_found p [] h = refl
  count-zero-of_not_found p (r ∷ rs) h = ground (arith, count-zero-of_not_found p rs)

  -- The only row that a test accepts is removed.
  pub count-drop_all-of_found :
      (p q : Row → Bool) (m : Row)
      → q m ≡ true
      → (t : List Row) → count p t ≤ 1
      → find p t ≡ some m
      → count p (drop_all q t) ≡ 0
  count-drop_all-of_found p q m hit [] h e = refl
  count-drop_all-of_found p q m hit (r ∷ rs) h e =
      ground (arith, count-drop_all-le p q rs, count-drop_all-of_found p q m hit rs)
