-- ===== src/Mqtt/Delivery.antt =====
-- What the client reads (core/src/mqtt.rs, `read_packet`) when the stream delivers given bytes.
use vejas.Base.{
  ℕ, zero, suc, ◌+◌, ◌*◌, ◌/◌, ◌%◌, ◌^◌, ◌<◌, ◌≡◌, refl, ap, ◌∙◌, inl, inr, subst, ◌≤◌, arith, ◌==◌,
  Bool, true, false, Bool-cases, some, [], ◌∷◌, ◌++◌, length, ltb, if◌then◌else◌,
}
use vejas.Exec.{ok, continue, ◌>>=◌, Result, pure}
use vejas.Mqtt.Wire.{Bytes, remaining_len, put_remaining_len, frame}
use vejas.Mqtt.Parse.{parse}
use vejas.Mqtt.Client.{
  Stream, Client, MqttError, byte, read_byte, read_exact, remaining_loop, read_remaining_len,
  read_rest, read_packet,
}

digits_sum : (r q m v : ℕ) → v + r * m + q * (m * 128) ≡ v + (r + q * 128) * m
digits_sum r q m v = grind arith

digits_sum2 : (r q m v : ℕ) → v + r * m + q * (m * 128) ≡ v + (r + q * 128) * m
digits_sum2 r q m v = omega arith

digits_sum3 : (r q m v : ℕ) → v + r * m + q * (m * 128) ≡ v + (r + q * 128) * m
digits_sum3 r q m v = ground arith

low_bits : (n : ℕ) → (n % 128 + 128) % 128 ≡ n % 128
low_bits n = omega arith

split_bits : (n : ℕ) → n % 128 + n / 128 * 128 ≡ n
split_bits n = omega arith

small : (n : ℕ) → (n / 128 == 0) ≡ true → n % 128 % 128 ≡ n
small n e = ground arith

one_digit : (n : ℕ) → n < 128 ^ 1 → (n / 128 == 0) ≡ true
one_digit n lt = ground arith

ltb-digit : (n : ℕ) → ltb (n % 128) 128 ≡ true
ltb-digit n = ground arith

ltb-more : (n : ℕ) → ltb (n % 128 + 128) 128 ≡ false
ltb-more n = ground arith

not_below : (r : ℕ) → suc r ≤ 0 → ⊥
not_below r le = omega arith

below_quotient : (r n : ℕ) → n < 128 ^ suc (suc r) → n / 128 < 128 ^ suc r
below_quotient r n lt = omega arith

join_digit :
    (n mult value : ℕ)
    → value + (n % 128 + 128) % 128 * mult + n / 128 * (mult * 128) ≡ value + n * mult
join_digit n mult value =
    ap (λ d. value + d * mult + n / 128 * (mult * 128)) (low_bits n)
    ∙ digits_sum (n % 128) (n / 128) mult value
    ∙ ap (λ k. value + k * mult) (split_bits n)

module _ {S : Type 0} (st : Stream S) where
  -- Reads from `s` give these bytes in turn and leave `s'`.
  unfoldable pub Delivers : Bytes → S → S → Type 0
  Delivers [] s s' = s ≡ s'
  Delivers (b ∷ bs) s s' = (s1 : S) × (st.read s ≡ (byte b, s1)) × Delivers bs s1 s'

  abbrev pub at : Client S → S → Client S
  at c s = record c { stream = s }

  pub Delivers-append :
      (xs ys : Bytes) (s s' : S)
      → Delivers (xs ++ ys) s s'
      → (m : S) × Delivers xs s m × Delivers ys m s'
  unfolding Delivers
  Delivers-append [] ys s s' h = (s, refl, h)
  Delivers-append (x ∷ xs) ys s s' (s1, e, h) =
      let (m, hx, hy) = Delivers-append xs ys s1 s' h in (m, (s1, e, hx), hy)

  read_byte-Delivers :
      (b : ℕ) (c : Client S) (s : S)
      → st.read (c.stream) ≡ (byte b, s)
      → read_byte st c ≡ (ok b, at c s)
  unfolding read_byte
  read_byte-Delivers b c s e = rw e

  read_exact-Delivers :
      (bs : Bytes) (c : Client S) (s : S)
      → Delivers bs (c.stream) s
      → read_exact st (length bs) c ≡ (ok bs, at c s)
  unfolding Delivers read_exact ◌>>=◌ pure
  read_exact-Delivers [] c s h = ap (λ x. (ok [], at c x)) h
  read_exact-Delivers (b ∷ bs) c s (s1, e, h) =
      let more = λ (d : ℕ). read_exact st (length bs) >>= λ ds. pure (d ∷ ds) in
      ap (λ p. continue p.0 more p.1) (read_byte-Delivers b c s1 e)
      ∙ ap (λ p. continue p.0 (λ ds. pure (b ∷ ds)) p.1) (read_exact-Delivers bs (at c s1) s h)

  -- A round of the loop after its byte.
  abbrev after_byte : ℕ → ℕ → ℕ → ℕ → Client S → Result MqttError ℕ × Client S
  after_byte r mult value b =
      let value' = value + b % 128 * mult in
      let rest = remaining_loop st r (mult * 128) value' in if ltb b 128 then pure value' else rest

  remaining_loop-read :
      (r mult value b : ℕ) (c : Client S) (s1 : S)
      → st.read (c.stream) ≡ (byte b, s1)
      → remaining_loop st (suc r) mult value c ≡ after_byte r mult value b (at c s1)
  unfolding remaining_loop ◌>>=◌
  remaining_loop-read r mult value b c s1 e =
      ap (λ p. continue p.0 (after_byte r mult value) p.1) (read_byte-Delivers b c s1 e)

  last_digit :
      (r n mult value : ℕ) (c : Client S) (s : S)
      → (n / 128 == 0) ≡ true
      → Delivers ((n % 128) ∷ []) (c.stream) s
      → remaining_loop st (suc r) mult value c ≡ (ok (value + n * mult), at c s)
  unfolding Delivers pure
  last_digit r n mult value c s e (s1, read, end) =
      let d = n % 128 in
      let value' = value + d % 128 * mult in
      let rest = remaining_loop st r (mult * 128) value' in
      remaining_loop-read r mult value d c s1 read
      ∙ ap (λ b. (if b then pure value' else rest) (at c s1)) (ltb-digit n)
      ∙ ap (λ k. (ok (value + k * mult), at c s1)) (small n e)
      ∙ ap (λ x. (ok (value + n * mult), at c x)) end

  next_digit :
      (r n mult value : ℕ) (c : Client S) (s1 : S)
      → st.read (c.stream) ≡ (byte (n % 128 + 128), s1)
      → remaining_loop st (suc r) mult value c
        ≡ remaining_loop st r (mult * 128) (value + (n % 128 + 128) % 128 * mult) (at c s1)
  unfolding pure
  next_digit r n mult value c s1 read =
      let d = n % 128 + 128 in
      let value' = value + d % 128 * mult in
      let rest = remaining_loop st r (mult * 128) value' in
      remaining_loop-read r mult value d c s1 read
      ∙ ap (λ b. (if b then pure value' else rest) (at c s1)) (ltb-more n)

  -- The bytes of a length of two bytes or more, or of a last one.
  abbrev digits : ℕ → ℕ → Bool → Bytes
  digits f n b = if b then (n % 128) ∷ [] else (n % 128 + 128) ∷ remaining_len f (n / 128)

  remaining_loop-Delivers :
      (r f n mult value : ℕ) (c : Client S) (s : S)
      → n < 128 ^ suc r
      → r ≤ f
      → Delivers (remaining_len (suc f) n) (c.stream) s
      → remaining_loop st (suc r) mult value c ≡ (ok (value + n * mult), at c s)
  unfolding remaining_len Delivers
  remaining_loop-Delivers zero f n mult value c s lt le h =
      let e = one_digit n lt in
      last_digit zero n mult value c s e (subst (λ b. Delivers (digits f n b) (c.stream) s) e h)
  remaining_loop-Delivers (suc r) zero n mult value c s lt le h = elim (not_below r le) [ ]
  remaining_loop-Delivers (suc r) (suc f) n mult value c s lt le h =
      elim (Bool-cases (n / 128 == 0)) [
        | inl e ↦
            last_digit (suc r) n mult value c s e
              (subst (λ b. Delivers (digits (suc f) n b) (c.stream) s) e h)
        | inr e ↦
            let (s1, read, rest) = subst (λ b. Delivers (digits (suc f) n b) (c.stream) s) e h in
            let shorter = below_quotient r n lt in
            next_digit (suc r) n mult value c s1 read
            ∙ remaining_loop-Delivers r f (n / 128) (mult * 128) _ (at c s1) s shorter (omega arith)
                rest
            ∙ ap (λ k. (ok k, at c s)) (join_digit n mult value)
      ]

  read_remaining_len-Delivers :
      (n : ℕ) (c : Client S) (s : S)
      → n < 268435456
      → Delivers (put_remaining_len n) (c.stream) s
      → read_remaining_len st c ≡ (ok n, at c s)
  unfolding read_remaining_len put_remaining_len
  read_remaining_len-Delivers n c s lt h =
      remaining_loop-Delivers 3 9 n 1 0 c s lt (omega arith) h
      ∙ ap (λ k. (ok k, at c s)) (omega arith)

  pub read_packet-frame :
      (t f : ℕ) (body : Bytes) (c : Client S) (s : S)
      → length body < 268435456
      → Delivers (frame t f body) (c.stream) s
      → read_packet st c ≡ (ok (some (parse (t * 16 % 256 + f % 16) body)), at c s)
  unfolding Delivers frame read_packet read_rest ◌>>=◌ pure
  read_packet-frame t f body c s lt (s1, e, h) =
      let (m, hn, hb) = Delivers-append (put_remaining_len (length body)) body s1 s h in
      rw (
        e,
        read_remaining_len-Delivers (length body) (at c s1) m lt hn,
        read_exact-Delivers body (at c m) s hb,
      )
