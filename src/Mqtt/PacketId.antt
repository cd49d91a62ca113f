-- ===== src/Mqtt/PacketId.antt =====
-- The packet identifiers that a client gives out (core/src/mqtt.rs, `Client::pid`).
use vejas.Base.{ℕ, zero, suc, ◌+◌, ◌-◌, ◌%◌, ◌<◌, ◌≤◌, ◌≡◌, ◌≢◌, refl, ap, ◌∙◌, arith}
use vejas.Exec.{Result, ok, err}
use vejas.Mqtt.Client.{Stream, Client, MqttError, pid, following}

-- A packet identifier: 16 bits, and not 0.
abbrev pub IsPid : ℕ → Type 0
IsPid n = (1 ≤ n) × (n < 65536)

following-round : (n : ℕ) → IsPid n → following n ≡ (n - 1 + 1) % 65535 + 1
unfolding following
following-round n (lo, hi) = ground arith

following-IsPid : (n : ℕ) → IsPid n → IsPid (following n)
following-IsPid n h = let e = following-round n h in (omega arith, omega arith)

round_step :
    (f a k : ℕ) → f ≡ (a + 1) % 65535 + 1 → (f - 1 + k) % 65535 + 1 ≡ (a + suc k) % 65535 + 1
round_step f a k e = omega arith

not_again : (n m k : ℕ) → IsPid n → 1 ≤ k → k < 65535 → m ≡ (n - 1 + k) % 65535 + 1 → m ≢ n
not_again n m k (lo, hi) one below e same = omega arith

given : Result MqttError ℕ → ℕ
given (ok n) = n
given (err e) = 0

module _ {S : Type 0} (st : Stream S) where
  -- The client after `k` more identifiers.
  pub issued : ℕ → Client S → Client S
  issued zero c = c
  issued (suc k) c = issued k ((pid st c).1)

  issued-round :
      (k : ℕ) (c : Client S)
      → IsPid (c.next_pid)
      → (issued k c).next_pid ≡ (c.next_pid - 1 + k) % 65535 + 1
  unfolding issued pid
  issued-round zero c (lo, hi) = omega arith
  issued-round (suc k) c h =
      let n = c.next_pid in
      let e = following-round n h in
      issued-round k ((pid st c).1) (following-IsPid n h) ∙ round_step _ (n - 1) k e

  -- When the next identifier is from 1 to 65535, the identifiers that follow are too, and the one
  -- that `pid` returns is not returned by any of the 65534 calls of `pid` after it.
  pub pid-fresh :
      (k : ℕ) (c : Client S)
      → IsPid (c.next_pid)
      → 1 ≤ k
      → k < 65535
      → ((n : ℕ) × ((pid st (issued k c)).0 ≡ ok n) × IsPid n)
        × ((pid st (issued k c)).0 ≢ (pid st c).0)
  unfolding pid given
  pid-fresh k c h lo hi =
      let n = c.next_pid in
      let m = (issued k c).next_pid in
      let e = issued-round k c h in
      (
        (m, refl, (omega (arith, e), omega (arith, e))),
        λ same. not_again n m k h lo hi e (ap given same),
      )
