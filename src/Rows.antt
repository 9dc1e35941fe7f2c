-- ===== src/Rows.antt =====
-- A table as the list of its rows, in the order in which the database returns them, and the
-- meaning of the queries: what Services states of the clients is stated with these functions.
pub mod Counts
pub mod Changes
use aalam_security_back.Common.{
  ℕ, zero, suc, ◌+◌, ◌≤◌, ◌≡◌, Bool, true, false, Option, none, some, List, [], ◌∷◌, map, arith,
  if◌then◌else◌, keep, length, leb, ◌==◌, ltb, take, drop,
}

module _ {ℓ} {Row : Type ℓ} where
  -- the first row that a `where` accepts
  abbrev pub find : (Row → Bool) → List Row → Option Row
  find p [] = none
  find p (r ∷ rs) = let rest = find p rs in if p r then some r else rest

  abbrev pub count : (Row → Bool) → List Row → ℕ
  count p [] = 0
  count p (r ∷ rs) = let rest = count p rs in if p r then suc rest else rest

  -- `update`: one row, by a `where` that names a unique column
  abbrev pub set_first : (Row → Bool) → (Row → Row) → List Row → List Row
  set_first p f [] = []
  set_first p f (r ∷ rs) = let rest = set_first p f rs in if p r then f r ∷ rs else r ∷ rest

  -- `updateMany`
  abbrev pub set_all : (Row → Bool) → (Row → Row) → List Row → List Row
  set_all p f [] = []
  set_all p f (r ∷ rs) = (if p r then f r else r) ∷ set_all p f rs

  -- `deleteMany`
  abbrev pub drop_all : (Row → Bool) → List Row → List Row
  drop_all p [] = []
  drop_all p (r ∷ rs) = let rest = drop_all p rs in if p r then rest else r ∷ rest

  -- `distinct`: the first row of each kind
  abbrev pub dedupe : (Row → Row → Bool) → List Row → List Row
  dedupe same [] = []
  dedupe same (r ∷ rs) = r ∷ drop_all (same r) (dedupe same rs)

  -- `orderBy`: equal keys keep their order
  unfoldable pub insert_by : (Row → Row → Bool) → Row → List Row → List Row
  insert_by before r [] = r ∷ []
  insert_by before r (x ∷ xs) =
      let rest = insert_by before r xs in if before r x then r ∷ x ∷ xs else x ∷ rest

  unfoldable pub sort_by : (Row → Row → Bool) → List Row → List Row
  unfolding insert_by
  sort_by before [] = []
  sort_by before (r ∷ rs) = insert_by before r (sort_by before rs)

-- A key of the cache with its value and the instant at which it expires.
pub record Entry (K V : Type 0) : Type 0 where
  pub key : K
  pub value : V
  pub expires : ℕ

module _ {K V : Type 0} where
  abbrev pub is_live : (K → Bool) → ℕ → Entry K V → Bool
  is_live at now e = if at e.key then ltb now e.expires else false

  abbrev pub get : (K → Bool) → ℕ → List (Entry K V) → Option V
  get at now es = elim (find (is_live at now) es) [ none ↦ none | some e ↦ some e.value ]

  abbrev pub del : (K → Bool) → List (Entry K V) → List (Entry K V)
  del at es = drop_all (λ e. at e.key) es
