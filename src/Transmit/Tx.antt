-- ===== src/Transmit/Tx.antt =====
-- tx.go and tx_linux.go: tx, which gives a batch of datagrams to the connection. What the connection
-- does with its k-th call, a number of bytes or of datagrams, or an error, is a parameter.
use kcp_go.Prelude.{
  ℕ, zero, suc, ◌+◌, ◌%◌, ◌^◌, Bool, true, false, ◌||◌, Option, none, some, List, [], ◌∷◌, length,
  take, drop, ◌≤◌, ◌<◌, ◌≡◌,
}
use kcp_go.Bytes.{Bytes}
use kcp_go.Session.{total_length}

-- The counters of snmp.go, and whether notifyWriteError was called.
pub record Tx : Type 0 where
  pub out_pkts : ℕ
  pub out_bytes : ℕ
  pub write_error : Bool

abbrev pub uint64_size : ℕ
uint64_size = 2 ^ 64

unfoldable pub add_out : ℕ → ℕ → Tx → Tx
add_out npkts nbytes x = record x {
  out_pkts = (x.out_pkts + npkts) % uint64_size;
  out_bytes = (x.out_bytes + nbytes) % uint64_size;
}

-- The loop of defaultTx: how many datagrams and bytes were written, and whether a call failed.
unfoldable pub write_each : (ℕ → Bytes → Option ℕ) → ℕ → List Bytes → ℕ × ℕ × Bool
write_each write_to k [] = (0, 0, false)
write_each write_to k (b ∷ bs) = elim (write_to k b) [
  | none ↦ (0, 0, true)
  | some n ↦
      let (npkts, nbytes, failed) = write_each write_to (suc k) bs in
      (suc npkts, n + nbytes, failed)
]

unfoldable pub default_tx : (ℕ → Bytes → Option ℕ) → List Bytes → Tx → Tx
default_tx write_to txqueue x =
    let (npkts, nbytes, failed) = write_each write_to 0 txqueue in
    add_out npkts nbytes (record x { write_error = x.write_error || failed })

abbrev pub after_batch : ℕ → ℕ → Option (ℕ × ℕ × Bool) → Option (ℕ × ℕ × Bool)
after_batch n size none = none
after_batch n size (some r) = some (n + r.0, size + r.1, r.2)

-- The loop of tx over WriteBatch; `none` is that it has not ended after so many rounds.
unfoldable pub write_batches : (ℕ → List Bytes → Option ℕ) → ℕ → List Bytes → Option (ℕ × ℕ × Bool)
write_batches write_batch fuel [] = some (0, 0, false)
write_batches write_batch zero (b ∷ bs) = none
write_batches write_batch (suc fuel) (b ∷ bs) = elim (write_batch fuel (b ∷ bs)) [
  | none ↦ some (0, 0, true)
  | some n ↦
      after_batch n (total_length (take n (b ∷ bs)))
        (write_batches write_batch fuel (drop n (b ∷ bs)))
]

abbrev pub counted : Tx → Option (ℕ × ℕ × Bool) → Option Tx
counted x none = none
counted x (some r) = some (add_out r.0 r.1 (record x { write_error = x.write_error || r.2 }))

-- tx, with the connection for batches if there is one.
unfoldable pub tx :
    Option (ℕ → List Bytes → Option ℕ) → (ℕ → Bytes → Option ℕ) → List Bytes → Tx → Option Tx
tx none write_to txqueue x = some (default_tx write_to txqueue x)
tx (some write_batch) write_to txqueue x =
    counted x (write_batches write_batch (length txqueue) txqueue)

-- A datagram is written whole, if at all.
pub record IsWriter (write_to : ℕ → Bytes → Option ℕ) : Type 0 where
  pub whole : (k n : ℕ) (b : Bytes) → write_to k b ≡ some n → n ≡ length b

-- A call that succeeds writes a datagram at least, and none that it was not given.
pub record IsBatchWriter (write_batch : ℕ → List Bytes → Option ℕ) : Type 0 where
  pub advances :
      (k n : ℕ) (b : Bytes) (bs : List Bytes)
      → write_batch k (b ∷ bs) ≡ some n
      → (0 < n) × (n ≤ length (b ∷ bs))

abbrev pub IsWriterOf : Option (ℕ → List Bytes → Option ℕ) → Type 0
IsWriterOf none = Unit
IsWriterOf (some write_batch) = IsBatchWriter write_batch

-- The first datagrams were written, and all if no call failed.
abbrev pub Wrote : List Bytes → ℕ × ℕ × Bool → Type 0
Wrote bs r =
    (r.0 ≤ length bs) × (r.1 ≡ total_length (take r.0 bs)) × (r.2 ≡ false → r.0 ≡ length bs)
