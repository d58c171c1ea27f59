-- ===== src/Udp4/Slots.antt =====
-- udp4.h, `Udp4Driver::resize_buffers`: a place in `packet_buffers` for each message.
use native.Mathlib.Nat.{mul-le-mul_right}
use udp_stuff.Base.{
  sym, ap, ◌∙◌, ℕ, zero, suc, ◌+◌, ◌*◌, ◌≤◌, ◌<◌, ◌≡◌, arith, List, [], ◌∷◌, get_elem?, some,
}

pub record Iovec : Type 0 where
  pub iov_base : ℕ
  pub iov_len : ℕ

-- The loop: message `i` is next, and `n` are left.
unfoldable pub slots : ℕ → ℕ → ℕ → List Iovec
slots mtu zero i = []
slots mtu (suc n) i = record { iov_base = i * mtu; iov_len = mtu } ∷ slots mtu n (suc i)

-- The vectors, and the size of `packet_buffers`; `n * mtu` is taken not to overflow.
unfoldable pub resize_buffers : ℕ → ℕ → List Iovec × ℕ
unfolding slots
resize_buffers mtu n = (slots mtu n 0, n * mtu)

Slot : ℕ → ℕ → Iovec → Type 0
Slot mtu i v = (v.iov_base ≡ i * mtu) × (v.iov_len ≡ mtu)

slots_at :
    (mtu n i k m : ℕ) (v : Iovec)
    → m ≡ i + k
    → get_elem? (slots mtu n i) k ≡ some v
    → Slot mtu m v × (k < n)
unfolding slots Slot
slots_at mtu zero i k m v e there = cc
slots_at mtu (suc n) i zero m v e there =
    let same : i ≡ m = omega arith in
    let it : some (record { iov_base = i * mtu; iov_len = mtu }) ≡ some v = there in
    let first : record { iov_base = i * mtu; iov_len = mtu } ≡ v = cc in
    (
      (
        sym (ap (λ (t : Iovec). t.iov_base) first) ∙ ap (λ t. t * mtu) same,
        sym (ap (λ (t : Iovec). t.iov_len) first),
      ),
      omega arith,
    )
slots_at mtu (suc n) i (suc k) m v e there =
    let r = slots_at mtu n (suc i) k m v (omega arith) there in (r.0, omega (arith, r.1))

-- After resize_buffers the place of each message lies in the buffer, and behind the places of the
-- messages before it.
pub resize_buffers_lem :
    (mtu n k l : ℕ) (v u : Iovec)
    → k < l
    → get_elem? (resize_buffers mtu n).0 k ≡ some v
    → get_elem? (resize_buffers mtu n).0 l ≡ some u
    → (v.iov_base + v.iov_len ≤ u.iov_base) × (u.iov_base + u.iov_len ≤ (resize_buffers mtu n).1)
unfolding resize_buffers Slot
resize_buffers_lem mtu n k l v u lt a b =
    let first = slots_at mtu n 0 k k v (omega arith) a in
    let second = slots_at mtu n 0 l l u (omega arith) b in
    (
      omega (arith, first.0.0, first.0.1, second.0.0, mul-le-mul_right {m = suc k} {n = l} mtu lt),
      omega (arith, second.0.0, second.0.1, mul-le-mul_right {m = suc l} {n = n} mtu second.1),
    )
