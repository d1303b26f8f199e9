-- ===== src/Server/Control.antt =====
-- What calls of `MineBlocks` and `StopMining` and returns of goroutines can lead to, in any order.
use nakamato_blockchain.Base.{
  ℕ, suc, ◌<◌, ◌≡◌, refl, ap, inl, inr, true, false, none, some, List, [], ◌∷◌, ◌++◌, subst, arith,
}
use nakamato_blockchain.Types.{mining_not_active, ok, err, panic}
use nakamato_blockchain.Server.{BlockchainServer}
use nakamato_blockchain.Server.Mining.{start_mining, stop_mining}
use nakamato_blockchain.Server.Contexts.{Among}
use nakamato_blockchain.Server.Tasks.{
  Task, starting, stopping, cancelling, leaving, armed, worker, Control, arm, cancel, Step,
  called_mine, set_cancel, launched, called_stop, cancelled_one, cleared, found_cancelled, returned,
  Steps, still, onward, idle,
}

-- Contexts have numbers below that of the next.
record Inv (s : BlockchainServer) : Type 0 where
  given : (i : ℕ) → s.cancel_func ≡ some i → i < s.contexts
  below : (i : ℕ) → Among i s.cancelled → i < s.contexts

Step-Inv : (s t : BlockchainServer) (old new : List Task) → Step s old t new → Inv s → Inv t
Step-Inv s _ _ _ (called_mine _ h) v = v
Step-Inv s _ _ _ (set_cancel _) v = record {
  given = λ i e. (let same : s.contexts ≡ i = cc e in omega (arith, same));
  below = λ i k. omega (arith, v.below i k);
}
Step-Inv s _ _ _ (launched _ i) v = record { given = v.given; below = v.below }
Step-Inv s _ _ _ (called_stop _ h) v = v
Step-Inv s _ _ _ (cancelled_one _ i e) v = record {
  given = v.given;
  below = λ j k. elim k [ inl same ↦ omega (arith, same, v.given i e) | inr old ↦ v.below j old ];
}
Step-Inv s _ _ _ (cleared _) v = record { given = v.given; below = v.below }
Step-Inv s _ _ _ (found_cancelled _ i k) v = record { given = v.given; below = v.below }
Step-Inv s _ _ _ (returned _) v = record { given = λ i e. absurd (cc e); below = v.below }

Steps-Inv : (c d : Control) → Steps c d → Inv c.server → Inv d.server
Steps-Inv c _ still v = v
Steps-Inv c _ (onward s t before old new after tasks steps e step) v =
    Step-Inv s t old new step (Steps-Inv c (record { server = s; tasks = tasks }) steps v)

idle-Inv : (s : BlockchainServer) → Inv (idle s).server
idle-Inv s = record { given = λ i e. absurd (cc e); below = λ i k. absurd k }

-- A call of `MineBlocks` that nothing interrupts makes of the node what `start_mining` does.
pub start_mining-Steps :
    (c d : Control)
    → Steps c d
    → d.server.mining ≡ false
    → Steps c
        (record { server = (start_mining d.server).1; tasks = worker d.server.contexts ∷ d.tasks })
start_mining-Steps c d steps off =
    let s = d.server in
    let n = s.contexts in
    let called = onward s s [] [] (starting ∷ []) d.tasks d.tasks steps refl (called_mine s off) in
    let set =
      onward s (arm s) [] (starting ∷ []) (armed n ∷ []) d.tasks (starting ∷ d.tasks) called refl
        (set_cancel s) in
    let begun =
      onward (arm s) (record (arm s) { mining = true }) [] (armed n ∷ []) (worker n ∷ []) d.tasks
        (armed n ∷ d.tasks) set refl (launched (arm s) n) in
    let same : record (arm s) { mining = true } ≡ (start_mining s).1 =
      unfold start_mining in ground (arith, off) in
    subst (λ t. Steps c (record { server = t; tasks = worker n ∷ d.tasks })) same begun

-- The node after a call of `StopMining` that cancels context i.
abbrev pub stopped_at : ℕ → BlockchainServer → BlockchainServer
stopped_at i s = record s { cancelled = i ∷ s.cancelled; mining = false }

-- And one of `StopMining` what `stop_mining` does.
stop_mining-Steps :
    (c d : Control) (i : ℕ)
    → Steps c d
    → d.server.mining ≡ true
    → d.server.cancel_func ≡ some i
    → Steps c (record { server = stopped_at i d.server; tasks = d.tasks })
      × (stop_mining d.server ≡ (ok tt, stopped_at i d.server))
stop_mining-Steps c d i steps on e =
    let s = d.server in
    let called = onward s s [] [] (stopping ∷ []) d.tasks d.tasks steps refl (called_stop s on) in
    let gone =
      onward s (cancel i s) [] (stopping ∷ []) (cancelling ∷ []) d.tasks (stopping ∷ d.tasks) called
        refl (cancelled_one s i e) in
    (
      onward (cancel i s) (stopped_at i s) [] (cancelling ∷ []) [] d.tasks (cancelling ∷ d.tasks)
          gone refl (cleared (cancel i s)),
      unfold stop_mining in ground (arith, on, e),
    )

module _ (s : BlockchainServer) (c : Control) (reached : Steps (idle s) c) (i : ℕ)
    (before after : List Task) (on : c.server.mining ≡ true) (held : c.server.cancel_func ≡ some i)
    (lives : c.tasks ≡ before ++ worker i ∷ after) where
  abbrev fresh : ℕ
  fresh = c.server.contexts

  fresh-free : ¬ Among fresh (i ∷ c.server.cancelled)
  fresh-free k =
      let v = Steps-Inv (idle s) c reached (idle-Inv s) in
      elim k [
        | inl same ↦ omega (arith, same, v.given i held)
        | inr old ↦ omega (arith, v.below fresh old)
      ]

  abbrev stopped : Control
  stopped = record { server = stopped_at i c.server; tasks = c.tasks }

  stopped-Steps : Steps c stopped
  stopped-Steps = (stop_mining-Steps c c i still on held).0

  -- The node that has been told to mine again.
  abbrev again : BlockchainServer
  again = record (stopped_at i c.server) {
    cancel_func = some fresh;
    contexts = suc fresh;
    mining = true;
  }

  started-again : (start_mining (stopped_at i c.server)).1 ≡ again
  unfolding start_mining
  started-again = refl

  -- From any state of the control that can be reached and in which the flag is set and a goroutine
  -- holds `cancelFunc`, `StopMining`, `MineBlocks` and then the return of the old goroutine leave a
  -- new one that lives, is not cancelled and cannot be stopped: `cancelFunc` is nil and
  -- `StopMining` says that mining is not active.
  pub restart_escapes :
      (d : Control) × Steps c d
      × Among (worker fresh) d.tasks
      × ¬ Among fresh d.server.cancelled
      × (d.server.cancel_func ≡ none)
      × (stop_mining d.server ≡ (err mining_not_active, d.server))
  unfolding stop_mining
  restart_escapes =
      let restarted =
        subst (λ t. Steps c (record { server = t; tasks = worker fresh ∷ c.tasks })) started-again
          (start_mining-Steps c stopped stopped-Steps refl) in
      let quits =
        onward again (record again { mining = false }) (worker fresh ∷ before) (worker i ∷ [])
          (leaving ∷ []) after (worker fresh ∷ c.tasks) restarted (ap (◌∷◌ (worker fresh)) lives)
          (found_cancelled again i (inl refl)) in
      let left =
        onward (record again { mining = false })
          (record again { mining = false; cancel_func = none }) (worker fresh ∷ before)
          (leaving ∷ []) [] after (worker fresh ∷ before ++ leaving ∷ after) quits refl
          (returned (record again { mining = false })) in
      (_, left, inl refl, fresh-free, refl, refl)

  -- From any state of the control that can be reached and in which the flag is set and a goroutine
  -- holds `cancelFunc`, `StopMining`, the clearing of the flag by the old goroutine, `MineBlocks`
  -- and then the rest of the old goroutine's return leave a new one that lives and is not
  -- cancelled, with the flag set and `cancelFunc` nil: the next `StopMining` panics.
  pub restart_panics :
      (d : Control) × Steps c d
      × Among (worker fresh) d.tasks
      × ¬ Among fresh d.server.cancelled
      × (d.server.mining ≡ true)
      × (d.server.cancel_func ≡ none)
      × (stop_mining d.server ≡ (panic, d.server))
  unfolding stop_mining
  restart_panics =
      let quits =
        onward (stopped_at i c.server) (stopped_at i c.server) before (worker i ∷ []) (leaving ∷ [])
          after c.tasks stopped-Steps lives
          (found_cancelled (stopped_at i c.server) i (inl refl)) in
      let restarted =
        subst
          (λ t. Steps c (record { server = t; tasks = worker fresh ∷ before ++ leaving ∷ after }))
          started-again
          (start_mining-Steps c
            (record { server = stopped_at i c.server; tasks = before ++ leaving ∷ after }) quits
            refl) in
      let left =
        onward again (record again { cancel_func = none }) (worker fresh ∷ before) (leaving ∷ []) []
          after (worker fresh ∷ before ++ leaving ∷ after) restarted refl (returned again) in
      (_, left, inl refl, fresh-free, refl, refl, refl)
