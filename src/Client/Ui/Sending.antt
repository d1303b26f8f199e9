-- ===== src/Client/Ui/Sending.antt =====
-- A payment that is typed never panics, and what it does to the client's set.
use nakamato_blockchain.Base.{
  ℕ, All, get_elem?, ◌<◌, ◌≡◌, ◌≢◌, refl, ap, ◌∙◌, inl, inr, Bool, true, false, some, List, [], ◌∷◌,
  ◌++◌, arith, length, subst, Option-cases, Bool-cases,
}
use nakamato_blockchain.Base.Int.{ℤ, pos, negsuc, int64_half, leb_ℤ}
use nakamato_blockchain.Base.Text.{Str}
use nakamato_blockchain.Base.Dict.{Dict, lookup}
use nakamato_blockchain.Types.{
  Utxo, Transaction, Outcome, returned, failed, outcome, Result, ok, err, panic, invalid_amount,
  key_not_found,
}
use nakamato_blockchain.Types
use nakamato_blockchain.Encoding.Decimal.{parse_int}
use nakamato_blockchain.Crypto.{Primitives}
use nakamato_blockchain.Transaction.Value.{HasInt64Amount}
use nakamato_blockchain.UtxoSet.{UtxoSet, remove_utxo, for_each, add_transaction}
use nakamato_blockchain.UtxoSet.Supply.{add_transaction-supply}
use nakamato_blockchain.PeerManager.{trim_space}
use nakamato_blockchain.Convert.{convert_transaction_to_grpc}
use nakamato_blockchain.Client.{Client, create_for, grpc_port}
use nakamato_blockchain.Client.Rounds.{
  Advanced, Advanced-refl, created-HasInt64Amount, pick_miner-ok,
}
use nakamato_blockchain.Client.Total.{create_for-ne-panic, pick_miner-returns}
use nakamato_blockchain.Client.Ui.{Request, Chance, deliver, handle_send_transaction}

-- A positive number that is read is below 2 ^ 63.
parse_int-in_range :
    (s : Str) (a : ℤ)
    → parse_int s ≡ some a
    → leb_ℤ a (pos 0) ≡ false
    → (n : ℕ) × (a ≡ pos n) × (n < int64_half)
unfolding parse_int
parse_int-in_range s (negsuc n) h positive = absurd (ground (arith, positive))
parse_int-in_range [] (pos n) h positive = absurd (cc h)
parse_int-in_range (c ∷ s) (pos n) h positive = (n, refl, ground (arith, h, positive))

remove_utxo-ne-panic : (u : UtxoSet) (x : Utxo) → (remove_utxo u x).0 ≢ panic
unfolding remove_utxo
remove_utxo-ne-panic u x h = ground (arith, h)

remove_inputs-ne-panic : (xs : List Utxo) (u : UtxoSet) → (for_each remove_utxo u xs).0 ≢ panic
unfolding for_each
remove_inputs-ne-panic [] u h = cc h
remove_inputs-ne-panic (x ∷ xs) u h =
    ground (arith, h, remove_utxo-ne-panic u x, remove_inputs-ne-panic xs (remove_utxo u x).1)

add_transaction-ne-panic :
    (p : Primitives) (u : UtxoSet) (tx : Transaction) → (add_transaction p u tx).0 ≢ panic
unfolding add_transaction
add_transaction-ne-panic p u tx h =
    ground (arith, h, remove_inputs-ne-panic tx.content.input_utxos u)

-- A call that has not panicked, and what it has left.
abbrev pub Went : List Str → Client → Result Str × Client → Type 0
Went ips c r = (r.0 ≢ panic) × Advanced ips c r.1

deliver-Went :
    (p : Primitives) (ips : List Str) (delivered : Bool) (c : Client) (tx : Transaction) (ip : Str)
    (i : ℕ)
    → All HasInt64Amount tx.content.output_utxos
    → get_elem? ips i ≡ some ip
    → Went ips c (deliver p delivered c tx ip)
unfolding deliver
deliver-Went p ips false c tx ip i small e = (
  λ h. cc h,
  record {
    poorer = omega arith;
    more = (ip ++ grpc_port, convert_transaction_to_grpc tx) ∷ [];
    appended = refl;
    addressed = ((i, ip, e, refl), tt);
  },
)
deliver-Went p ips true c tx ip i small e = go (outcome (add_transaction p c.utxo_set tx).0)
  where
    advanced : Advanced ips c (record {
      utxo_set = (add_transaction p c.utxo_set tx).1;
      sent = c.sent ++ (ip ++ grpc_port, convert_transaction_to_grpc tx) ∷ [];
    })
    advanced = record {
      poorer = add_transaction-supply p c.utxo_set tx small;
      more = (ip ++ grpc_port, convert_transaction_to_grpc tx) ∷ [];
      appended = refl;
      addressed = ((i, ip, e, refl), tt);
    }

    go : Outcome (add_transaction p c.utxo_set tx).0 → Went ips c (deliver p true c tx ip)
    go (returned _ h) = rw h (λ k. cc k, advanced)
    go (failed r h) = rw h (λ k. cc k, advanced)
    go (Types.panicked h) = absurd (add_transaction-ne-panic p c.utxo_set tx h)

module _ (p : Primitives) (key_map : Dict Str) (ips : List Str) (some_miner : 0 < length ips) where
  -- What is sent, once the amount and the key are known.
  pay-Went :
      (c : Client) (r : Request) (d : Chance) (amount : ℕ) (private_str : Str)
      → parse_int (trim_space r.amount) ≡ some (pos amount)
      → 0 < amount
      → amount < int64_half
      → lookup (trim_space r.sender) key_map ≡ some private_str
      → Went ips c (handle_send_transaction p key_map ips c r d)
  unfolding handle_send_transaction
  pay-Went c r d amount private_str typed positive small known = go (outcome made)
    where
      made : Result Transaction
      made =
          create_for p d.now d.random c.utxo_set (trim_space r.sender) private_str
            (trim_space r.recipient) (pos amount)

      go : Outcome made → Went ips c (handle_send_transaction p key_map ips c r d)
      go (returned tx e) =
          let (ip, f) = pick_miner-returns ips d.miner some_miner in
          let (i, found) = pick_miner-ok ips d.miner ip f in
          let went =
            deliver-Went p ips d.delivered c tx ip i
              (created-HasInt64Amount p d.now d.random c.utxo_set (trim_space r.sender) private_str
                (trim_space r.recipient) amount tx small e)
              found in
          let same : deliver p d.delivered c tx ip ≡ handle_send_transaction p key_map ips c r d =
            ground (arith, typed, known, positive, e, f) in
          subst (Went ips c) same went
      go (failed why e) =
          let same : (err why, c) ≡ handle_send_transaction p key_map ips c r d =
            ground (arith, typed, known, positive, e) in
          subst (Went ips c) same (λ k. cc k, Advanced-refl ips c)
      go (Types.panicked e) = absurd (
          create_for-ne-panic p d.now d.random c.utxo_set (trim_space r.sender) private_str
            (trim_space r.recipient) (pos amount) e)

  pub handle_send_transaction-Went :
      (c : Client) (r : Request) (d : Chance)
      → Went ips c (handle_send_transaction p key_map ips c r d)
  handle_send_transaction-Went c r d = elim (Option-cases (parse_int (trim_space r.amount))) [
    | inl e ↦ refused invalid_amount (unfold handle_send_transaction in ground (arith, e))
    | inr (a, e) ↦ elim (Bool-cases (leb_ℤ a (pos 0))) [
      | inl low ↦ refused invalid_amount (unfold handle_send_transaction in ground (arith, e, low))
      | inr high ↦ elim (Option-cases (lookup (trim_space r.sender) key_map)) [
        | inl f ↦
            refused key_not_found (unfold handle_send_transaction in ground (arith, e, high, f))
        | inr (private_str, f) ↦
            let (n, same, small) = parse_int-in_range (trim_space r.amount) a e high in
            pay-Went c r d n private_str (e ∙ ap some same) (ground (arith, same, high)) small f
      ]
    ]
  ]
    where
      refused :
          (why : Types.Error)
          → (err why, c) ≡ handle_send_transaction p key_map ips c r d
          → Went ips c (handle_send_transaction p key_map ips c r d)
      refused why same = subst (Went ips c) same (λ k. cc k, Advanced-refl ips c)
