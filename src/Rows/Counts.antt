-- ===== src/Rows/Counts.antt =====
-- How an update of one row, or of all rows that a `where` accepts, changes counts and searches.
use aalam_security_back.Common.{
  ◌+◌, ◌≤◌, ◌≡◌, refl, Bool, true, false, none, some, List, [], ◌∷◌, arith, any, All, Bool-cases,
  inl, inr, is_some,
}
use aalam_security_back.Rows.{find, count, set_first, set_all}

module _ {ℓ} {Row : Type ℓ} where
  module _ (p q : Row → Bool) (f : Row → Row) where
    -- No accepted row comes to be counted: the count does not grow.
    pub count-set_first-le :
        ((r : Row) → p r ≡ true → q (f r) ≡ true → q r ≡ true)
        → (t : List Row) → count q (set_first p f t) ≤ count q t
    count-set_first-le h [] = omega arith
    count-set_first-le h (r ∷ rs) = ground (arith, h r, count-set_first-le h rs)

    -- At most one row comes to be counted.
    pub count-set_first-le_suc : (t : List Row) → count q (set_first p f t) ≤ count q t + 1
    count-set_first-le_suc [] = omega arith
    count-set_first-le_suc (r ∷ rs) = ground (arith, count-set_first-le_suc rs)

    -- A property of the rows is kept if the update keeps it at the rows that it accepts.
    pub All-set_first {κ} :
        (P : Row → Type κ)
        → ((r : Row) → p r ≡ true → P r → P (f r))
        → (t : List Row) → All P t
        → All P (set_first p f t)
    All-set_first P h [] a = tt
    All-set_first P h (r ∷ rs) a = elim (Bool-cases (p r)) [
      | inl hit ↦ rw hit (h r hit a.0, a.1)
      | inr miss ↦ rw miss (a.0, All-set_first P h rs a.1)
    ]

    pub any-set_first :
        ((r : Row) → q r ≡ true → p r ≡ true → q (f r) ≡ true)
        → (t : List Row) → any q t ≡ true
        → any q (set_first p f t) ≡ true
    any-set_first h [] a = a
    any-set_first h (r ∷ rs) a = ground (arith, h r, any-set_first h rs)

    pub any-set_all :
        ((r : Row) → q r ≡ true → p r ≡ true → q (f r) ≡ true)
        → (t : List Row) → any q t ≡ true
        → any q (set_all p f t) ≡ true
    any-set_all h [] a = a
    any-set_all h (r ∷ rs) a = ground (arith, h r, any-set_all h rs)

  module _ (p : Row → Bool) where
    pub find-eq-none-of_count : (t : List Row) → count p t ≡ 0 → find p t ≡ none
    find-eq-none-of_count [] h = refl
    find-eq-none-of_count (r ∷ rs) h = ground (arith, find-eq-none-of_count rs)

    pub count-eq-zero-of_any : (t : List Row) → any p t ≡ false → count p t ≡ 0
    count-eq-zero-of_any [] h = refl
    count-eq-zero-of_any (r ∷ rs) h = ground (arith, count-eq-zero-of_any rs)

    pub find_accepts : (t : List Row) (r : Row) → find p t ≡ some r → p r ≡ true
    find_accepts [] r h = ground arith
    find_accepts (x ∷ rs) r h = ground (arith, find_accepts rs r)

    pub any-eq-false-of_count : (t : List Row) → count p t ≡ 0 → any p t ≡ false
    any-eq-false-of_count [] h = refl
    any-eq-false-of_count (r ∷ rs) h = ground (arith, any-eq-false-of_count rs)

    pub any-eq-is_some-find : (t : List Row) → is_some (find p t) ≡ any p t
    any-eq-is_some-find [] = refl
    any-eq-is_some-find (r ∷ rs) = ground (arith, any-eq-is_some-find rs)

  -- At most one row has the key: an update by a narrower condition is found by the key.
  module _ (key p : Row → Bool) (narrower : (r : Row) → p r ≡ true → key r ≡ true) where
    pub count-eq-zero-of_narrower : (t : List Row) → count key t ≡ 0 → count p t ≡ 0
    count-eq-zero-of_narrower [] h = refl
    count-eq-zero-of_narrower (r ∷ rs) h = ground (arith, narrower r, count-eq-zero-of_narrower rs)

    pub find-set_first_key :
        (f : Row → Row)
        → ((r : Row) → key (f r) ≡ key r)
        → (t : List Row) (r : Row) → count key t ≤ 1
        → find p t ≡ some r
        → find key (set_first p f t) ≡ some (f r)
    find-set_first_key f same [] r h e = absurd (ground arith)
    find-set_first_key f same (x ∷ rs) r h e = ground (
      arith,
      same x,
      narrower x,
      find-set_first_key f same rs r,
      find-eq-none-of_count p rs,
      count-eq-zero-of_narrower rs,
    )

    pub any-eq-false-of_find_key :
        (t : List Row) (q : Row)
        → count key t ≤ 1
        → find key t ≡ some q
        → p q ≡ false
        → any p t ≡ false
    any-eq-false-of_find_key [] q h e miss = absurd (ground arith)
    any-eq-false-of_find_key (x ∷ rs) q h e miss = ground (
      arith,
      narrower x,
      any-eq-false-of_find_key rs q,
      any-eq-false-of_count p rs,
      count-eq-zero-of_narrower rs,
    )

  pub count-set_first_same :
      (key p : Row → Bool) (f : Row → Row)
      → ((r : Row) → key (f r) ≡ key r)
      → (t : List Row) → count key (set_first p f t) ≡ count key t
  count-set_first_same key p f same [] = refl
  count-set_first_same key p f same (r ∷ rs) =
      ground (arith, same r, count-set_first_same key p f same rs)
