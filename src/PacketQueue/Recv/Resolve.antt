-- ===== src/PacketQueue/Recv/Resolve.antt =====
-- `resolve_seq` follows `seq_mapping` to its end.
use udp_stuff.Base.{
  ℕ, zero, suc, ◌^◌, ◌<◌, ◌≡◌, refl, arith, none, some, List, done, find, Option-cases, inl, inr,
}
use udp_stuff.PacketQueue.Recv.{PacketRecvQueue, resolve, resolve_seq}

-- Each entry of the mapping leads to a number of lower rank.
pub record IsRanked (m : List (ℕ × ℕ)) (rank : ℕ → ℕ) : Type 0 where
  pub falls : (s t : ℕ) → find s m ≡ some t → rank t < rank s
  pub few : (s : ℕ) → rank s < 2 ^ 16

-- `r` is where the chain from `s` ends.
pub data LeadsTo (m : List (ℕ × ℕ)) (r : ℕ) : ℕ → Type 0 where
  last : {s : ℕ} → find s m ≡ none → s ≡ r → LeadsTo m r s
  step : {s : ℕ} (t : ℕ) → find s m ≡ some t → LeadsTo m r t → LeadsTo m r s

resolve-LeadsTo :
    (fuel : ℕ) {m : List (ℕ × ℕ)} {rank : ℕ → ℕ}
    → IsRanked m rank
    → (s : ℕ) → rank s < fuel
    → (r : ℕ) × (resolve fuel m s ≡ done r) × LeadsTo m r s
unfolding resolve
resolve-LeadsTo zero k s h = absurd (omega arith)
resolve-LeadsTo (suc fuel) {m} k s h = elim (Option-cases (find s m)) [
  | inl e ↦ (s, ground arith, last e refl)
  | inr (t, e) ↦
      let below = k.falls s t e in
      let (r, run, path) = resolve-LeadsTo fuel k t (omega arith) in
      (r, ground arith, step t e path)
]

-- With no cycle in the mapping, `resolve_seq` returns, and its result is the number at the end of
-- the chain: it has no entry of its own.
pub resolve_seq-LeadsTo :
    (q : PacketRecvQueue) (rank : ℕ → ℕ) (s : ℕ)
    → IsRanked q.seq_mapping rank
    → (r : ℕ) × (resolve_seq q s ≡ done r) × LeadsTo q.seq_mapping r s
unfolding resolve_seq
resolve_seq-LeadsTo q rank s k = resolve-LeadsTo (2 ^ 16) k s (k.few s)

resolve_unmapped :
    (fuel : ℕ) (m : List (ℕ × ℕ)) (s : ℕ) → find s m ≡ none → resolve (suc fuel) m s ≡ done s
unfolding resolve
resolve_unmapped fuel m s e = ground arith

-- A number with no entry is its own result.
pub resolve_seq_unmapped :
    (q : PacketRecvQueue) (s : ℕ) → find s q.seq_mapping ≡ none → resolve_seq q s ≡ done s
unfolding resolve_seq
resolve_seq_unmapped q s e = resolve_unmapped 0xffff q.seq_mapping s e
