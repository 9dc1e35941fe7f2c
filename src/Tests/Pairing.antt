-- ===== src/Tests/Pairing.antt =====
-- Two numbers in one, for a token that carries its user: the diagonals of the plane, one after another.
use aalam_security_back.Common.{ℕ, zero, suc, ◌+◌, ◌≡◌, refl, ap, ◌∙◌, arith}

abbrev triangle : ℕ → ℕ
triangle zero = 0
triangle (suc n) = triangle n + suc n

abbrev pub pair : ℕ → ℕ → ℕ
pair a b = triangle (a + b) + a

abbrev step : ℕ × ℕ → ℕ × ℕ
step (a, zero) = (0, suc a)
step (a, suc b) = (suc a, b)

abbrev pub split : ℕ → ℕ × ℕ
split zero = (0, 0)
split (suc n) = step (split n)

split_next : (m n : ℕ) → m ≡ suc n → split m ≡ step (split n)
split_next m n e = ap split e

split-triangle : (n a b k : ℕ) → a + b ≡ n → k ≡ triangle n + a → split k ≡ (a, b)
split-triangle zero zero zero k h e = (let e0 : k ≡ 0 = omega arith in ap split e0)
split-triangle zero zero (suc b) k h e = absurd (omega arith)
split-triangle zero (suc a) b k h e = absurd (omega arith)
split-triangle (suc n) zero b k h e =
    split_next k (triangle n + n) (omega arith)
    ∙ (ap step (split-triangle n n 0 (triangle n + n) (omega arith) refl)
        ∙ ap (λ c. (0, c)) (omega arith))
split-triangle (suc n) (suc a) b k h e =
    split_next k (triangle (suc n) + a) (omega arith)
    ∙ ap step (split-triangle (suc n) a (suc b) (triangle (suc n) + a) (omega arith) refl)

pub split-pair : (a b : ℕ) → split (pair a b) ≡ (a, b)
split-pair a b = split-triangle (a + b) a b (pair a b) refl refl
