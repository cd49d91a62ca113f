-- ===== src/Governance/Doors/Equal.antt =====
-- `ct_eq` (core/src/main.rs) against the equality of texts.
use Prim.Native.Nat.{bit_or-bitwise, bit_xor-bitwise, bit_or, bit_xor, digits, differ, max}
use vejas.Base.{ℕ, zero, suc, ◌/◌, ◌%◌, ◌≤◌, ◌≡◌, refl, sym, ◌∙◌, ap, true, [], ◌∷◌, length, arith}
use vejas.Vjs.Token.{Bytes}
use vejas.Governance.Doors.{ct_loop, ct_eq}

differ_zero : (x y : ℕ) → differ x y ≡ 0 → x ≡ y
differ_zero zero y e = sym e
differ_zero (suc x) zero e = e
differ_zero (suc x) (suc y) e = ap suc (differ_zero x y e)

differ_self : (x : ℕ) → differ x x ≡ 0
differ_self zero = refl
differ_self (suc x) = differ_self x

-- Numbers whose digits do not differ are the same.
xor_digits : (n a b : ℕ) → a ≤ n → digits (λ d. d) differ n a b ≡ 0 → a ≡ b
xor_digits zero zero b le e = sym e
xor_digits zero (suc a) b le e = omega (arith, le)
xor_digits (suc n) zero b le e = sym e
xor_digits (suc n) (suc a) b le e =
    let rest = digits (λ d. d) differ n (suc a / 2) (b / 2) in
    let last = differ_zero (suc a % 2) (b % 2) (omega (arith, e)) in
    let half = xor_digits n (suc a / 2) (b / 2) (omega (arith, le)) (omega (arith, e)) in
    omega (arith, last, half)

max_zero : (x y : ℕ) → max x y ≡ 0 → (x ≡ 0) × (y ≡ 0)
max_zero x y e = (omega (arith, e), omega (arith, e))

or_digits : (n a b : ℕ) → a ≤ n → digits (λ d. d) max n a b ≡ 0 → (a ≡ 0) × (b ≡ 0)
or_digits zero zero b le e = (refl, e)
or_digits zero (suc a) b le e = omega (arith, le)
or_digits (suc n) zero b le e = (refl, e)
or_digits (suc n) (suc a) b le e =
    let last = max_zero (suc a % 2) (b % 2) (omega (arith, e)) in
    let half = or_digits n (suc a / 2) (b / 2) (omega (arith, le)) (omega (arith, e)) in
    (omega (arith, last.0, half.0), omega (arith, last.1, half.1))

bit_xor-zero : (a b : ℕ) → bit_xor a b ≡ 0 → a ≡ b
bit_xor-zero a b e = xor_digits a a b (omega arith) (sym (λ i. bit_xor-bitwise a b i) ∙ e)

bit_or-zero : (a b : ℕ) → bit_or a b ≡ 0 → (a ≡ 0) × (b ≡ 0)
bit_or-zero a b e = or_digits a a b (omega arith) (sym (λ i. bit_or-bitwise a b i) ∙ e)

ct_loop-diff : (xs ys : Bytes) (diff : ℕ) → ct_loop xs ys diff ≡ 0 → diff ≡ 0
unfolding ct_loop
ct_loop-diff [] [] diff e = e
ct_loop-diff [] (y ∷ ys) diff e = (bit_or-zero diff _ (ct_loop-diff [] ys _ e)).0
ct_loop-diff (x ∷ xs) [] diff e = (bit_or-zero diff _ (ct_loop-diff xs [] _ e)).0
ct_loop-diff (x ∷ xs) (y ∷ ys) diff e = (bit_or-zero diff _ (ct_loop-diff xs ys _ e)).0

ct_loop-eq : (xs ys : Bytes) (diff : ℕ) → length xs ≡ length ys → ct_loop xs ys diff ≡ 0 → xs ≡ ys
unfolding ct_loop
ct_loop-eq [] [] diff same e = refl
ct_loop-eq [] (y ∷ ys) diff same e = ground (arith, same)
ct_loop-eq (x ∷ xs) [] diff same e = ground (arith, same)
ct_loop-eq (x ∷ xs) (y ∷ ys) diff same e =
    let here = bit_xor-zero x y (bit_or-zero diff _ (ct_loop-diff xs ys _ e)).1 in
    ap (λ z. z ∷ xs) here ∙ ap (λ zs. y ∷ zs) (ct_loop-eq xs ys _ (omega (arith, same)) e)

-- Texts that the loop takes for equal are equal.
pub ct_eq-eq : (a b : Bytes) → ct_eq a b ≡ true → a ≡ b
unfolding ct_eq
ct_eq-eq a b t =
    let none_differ : ct_loop a b (bit_xor (length a) (length b)) ≡ 0 = ground (arith, t) in
    ct_loop-eq a b _ (bit_xor-zero (length a) (length b) (ct_loop-diff a b _ none_differ))
      none_differ
