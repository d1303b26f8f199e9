-- ===== src/Client/Rounds.antt =====
-- The rounds of the client's loop: what they do to its set, and to whom they send.
use mathlib.Core.List.{append-nil, append_assoc}
use nakamato_blockchain.Base.{
  ℕ, ◌%◌, ◌≤◌, ◌<◌, ◌≡◌, refl, sym, ap, subst, Bool, true, false, some, List, [], ◌∷◌, ◌++◌, arith,
  length, All, All-append, ◌∙◌, get_elem?,
}
use nakamato_blockchain.Base.Int.{ℤ, pos, ◌-ℤ◌, wrap64, wrap64-IsInt64, int64_half}
use nakamato_blockchain.Base.Text.{Str}
use nakamato_blockchain.Base.Dict.{Dict, lookup}
use nakamato_blockchain.Types.{
  Utxo, Transaction, Outcome, returned, failed, panicked, outcome, Result, ok,
}
use nakamato_blockchain.Crypto.{Primitives, key_to_addr}
use nakamato_blockchain.Transaction
use nakamato_blockchain.Transaction.{new_transaction, draft_transaction, new_outputs}
use nakamato_blockchain.Transaction.Value.{HasInt64Amount}
use nakamato_blockchain.UtxoSet
use nakamato_blockchain.UtxoSet.{UtxoSet, get_utxos}
use nakamato_blockchain.UtxoSet.Supply.{supply, add_transaction-supply}
use nakamato_blockchain.Convert.{GrpcTransaction, convert_transaction_to_grpc}
use nakamato_blockchain.Client.{
  Client, Draw, amount_of, signed, create_for, create_transaction, other_key, or_empty_text,
  pick_miner, grpc_port, send_and_update, send_round, create_and_send_transactions,
}

new_outputs-HasInt64Amount :
    (p : Primitives) (inputs : List Utxo) (sender receiver : Str) (amount : ℕ)
    → amount < int64_half
    → All HasInt64Amount (new_outputs p inputs sender receiver (pos amount))
unfolding new_outputs
new_outputs-HasInt64Amount p inputs sender receiver amount h =
    let left = wrap64 (Transaction.sum_amounts (pos 0) inputs -ℤ pos amount) in
    ground (arith, wrap64-IsInt64 (Transaction.sum_amounts (pos 0) inputs -ℤ pos amount))

drafted-HasInt64Amount :
    (p : Primitives) (now : ℤ) (inputs : List Utxo) (sender receiver : Str) (amount : ℕ)
    (tx : Transaction)
    → amount < int64_half
    → new_transaction p now inputs sender receiver (pos amount) ≡ ok tx
    → All HasInt64Amount tx.content.output_utxos
unfolding new_transaction draft_transaction
drafted-HasInt64Amount p now inputs sender receiver amount tx h e =
    let small = new_outputs-HasInt64Amount p inputs sender receiver amount h in
    let same : new_outputs p inputs sender receiver (pos amount) ≡ tx.content.output_utxos =
      ground (arith, e) in
    subst (All HasInt64Amount) same small

sign-content :
    (p : Primitives) (random : ℕ) (draft tx : Transaction) (private_str : Str)
    → signed (Transaction.sign p random draft private_str) ≡ ok tx
    → tx.content ≡ draft.content
unfolding Transaction.sign
sign-content p random draft tx private_str e = ground (arith, e)

pub created-HasInt64Amount :
    (p : Primitives) (now : ℤ) (random : ℕ) (u : UtxoSet) (sender private_str receiver : Str)
    (amount : ℕ) (tx : Transaction)
    → amount < int64_half
    → create_for p now random u sender private_str receiver (pos amount) ≡ ok tx
    → All HasInt64Amount tx.content.output_utxos
unfolding create_for
created-HasInt64Amount p now random u sender private_str receiver amount tx small e =
    go (outcome (get_utxos u (key_to_addr p sender) (pos amount)))
  where
    sign_draft :
        (inputs : List Utxo)
        → get_utxos u (key_to_addr p sender) (pos amount) ≡ ok inputs
        → Outcome (new_transaction p now inputs sender receiver (pos amount))
        → All HasInt64Amount tx.content.output_utxos
    sign_draft inputs h (returned draft g) =
        let same = sign-content p random draft tx private_str (ground (arith, e, h, g)) in
        subst (λ c. All HasInt64Amount (c.output_utxos)) (sym same)
          (drafted-HasInt64Amount p now inputs sender receiver amount draft small g)
    sign_draft inputs h (failed r g) = absurd (ground (arith, e, h, g))
    sign_draft inputs h (panicked g) = absurd (ground (arith, e, h, g))

    go :
        Outcome (get_utxos u (key_to_addr p sender) (pos amount))
        → All HasInt64Amount tx.content.output_utxos
    go (returned inputs h) =
        sign_draft inputs h (outcome (new_transaction p now inputs sender receiver (pos amount)))
    go (failed r h) = absurd (ground (arith, e, h))
    go (panicked h) = absurd (ground (arith, e, h))

-- A message to one of the miners.
abbrev IsToMiner : List Str → Str × GrpcTransaction → Type 0
IsToMiner miner_ips m =
    (i : ℕ) × (ip : Str) × (get_elem? miner_ips i ≡ some ip) × (m.0 ≡ ip ++ grpc_port)

-- What rounds leave: a set that is worth no more, and more messages, each to a miner.
pub record Advanced (miner_ips : List Str) (c c' : Client) : Type 0 where
  pub poorer : supply c'.utxo_set ≤ supply c.utxo_set
  pub more : List (Str × GrpcTransaction)
  pub appended : c'.sent ≡ c.sent ++ more
  pub addressed : All (IsToMiner miner_ips) more

pub pick_miner-ok :
    (ips : List Str) (drawn : ℕ) (ip : Str)
    → pick_miner ips drawn ≡ ok ip
    → (i : ℕ) × (get_elem? ips i ≡ some ip)
unfolding pick_miner
pick_miner-ok ips drawn ip h = (drawn % length ips, ground (arith, h))

pub send_and_update-Advanced :
    (p : Primitives) (ips : List Str) (delivered : Bool) (c : Client) (tx : Transaction) (ip : Str)
    → All HasInt64Amount tx.content.output_utxos
    → (i : ℕ) → get_elem? ips i ≡ some ip
    → Advanced ips c (send_and_update p delivered c tx ip)
unfolding send_and_update
send_and_update-Advanced p ips true c tx ip small i e = record {
  poorer = add_transaction-supply p c.utxo_set tx small;
  more = (ip ++ grpc_port, convert_transaction_to_grpc tx) ∷ [];
  appended = refl;
  addressed = ((i, ip, e, refl), tt);
}
send_and_update-Advanced p ips false c tx ip small i e = record {
  poorer = omega arith;
  more = (ip ++ grpc_port, convert_transaction_to_grpc tx) ∷ [];
  appended = refl;
  addressed = ((i, ip, e, refl), tt);
}

pub Advanced-refl : (ips : List Str) (c : Client) → Advanced ips c c
Advanced-refl ips c = record {
  poorer = omega arith;
  more = [];
  appended = sym (append-nil c.sent);
  addressed = tt;
}

pub Advanced-trans :
    (ips : List Str) (a b c : Client) → Advanced ips a b → Advanced ips b c → Advanced ips a c
Advanced-trans ips a b c h k = record {
  poorer = omega (arith, h.poorer, k.poorer);
  more = h.more ++ k.more;
  appended = k.appended ∙ ap (λ l. l ++ k.more) h.appended ∙ append_assoc a.sent h.more k.more;
  addressed = All-append (IsToMiner ips) h.more k.more h.addressed k.addressed;
}

send_round-Advanced :
    (p : Primitives) (key_map : Dict Str) (ips : List Str) (c c' : Client) (sender : Str) (d : Draw)
    → send_round p key_map ips c sender d ≡ ok c'
    → Advanced ips c c'
unfolding send_round
send_round-Advanced p key_map ips c c' sender d e =
    held (UtxoSet.get c.utxo_set (key_to_addr p sender)) refl
  where
    private_str : Str
    private_str = or_empty_text (lookup sender key_map)

    created : Result Transaction
    created = create_transaction p d c.utxo_set sender private_str (other_key sender d.recipients)

    sending :
        (x : Utxo) (xs : List Utxo)
        → UtxoSet.get c.utxo_set (key_to_addr p sender) ≡ x ∷ xs
        → Outcome created
        → Advanced ips c c'
    sending x xs h (failed r g) =
        let same : c ≡ c' = ground (arith, e, h, g) in
        subst (Advanced ips c) same (Advanced-refl ips c)
    sending x xs h (panicked g) = absurd (ground (arith, e, h, g))
    sending x xs h (returned tx g) = elim (outcome (pick_miner ips d.miner)) [
      | returned ip f ↦
          let same : send_and_update p d.delivered c tx ip ≡ c' = ground (arith, e, h, g, f) in
          let (i, found) = pick_miner-ok ips d.miner ip f in
          subst (Advanced ips c) same (
            send_and_update-Advanced p ips d.delivered c tx ip
              (created-HasInt64Amount p d.now d.random c.utxo_set sender private_str
                (other_key sender d.recipients) (amount_of d) tx (omega arith)
                (unfold create_transaction in g))
              i found)
      | failed r f ↦ absurd (ground (arith, e, h, g, f))
      | panicked f ↦ absurd (ground (arith, e, h, g, f))
    ]

    held : (us : List Utxo) → UtxoSet.get c.utxo_set (key_to_addr p sender) ≡ us → Advanced ips c c'
    held [] h =
        let same : c ≡ c' = ground (arith, e, h) in
        subst (Advanced ips c) same (Advanced-refl ips c)
    held (x ∷ xs) h = sending x xs h (outcome created)

pub create_and_send_transactions-Advanced :
    (p : Primitives) (key_map : Dict Str) (ips : List Str) (c c' : Client)
    (rounds : List (Str × Draw))
    → create_and_send_transactions p key_map ips c rounds ≡ ok c'
    → Advanced ips c c'
unfolding create_and_send_transactions
create_and_send_transactions-Advanced p key_map ips c c' [] e =
    let same : c ≡ c' = cc (e) in subst (Advanced ips c) same (Advanced-refl ips c)
create_and_send_transactions-Advanced p key_map ips c c' ((sender, d) ∷ rounds) e =
    elim (outcome (send_round p key_map ips c sender d)) [
      | returned m h ↦
          Advanced-trans ips c m c' (send_round-Advanced p key_map ips c m sender d h)
            (create_and_send_transactions-Advanced p key_map ips m c' rounds (ground (arith, e, h)))
      | failed r h ↦ absurd (ground (arith, e, h))
      | panicked h ↦ absurd (ground (arith, e, h))
    ]
