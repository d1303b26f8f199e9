-- ===== src/Client/Ui/Session.antt =====
-- What the menu does to the client's set, whatever is typed.
use nakamato_blockchain.Base.{
  ◌<◌, ◌≡◌, ◌⊎◌, refl, sym, ap, ◌∙◌, inl, inr, Bool, true, false, Option, List, [], ◌∷◌, ◌++◌,
  arith, ℕ_discrete, length, subst, if◌then◌else◌,
}
use nakamato_blockchain.Base.Int.{ℤ}
use nakamato_blockchain.Base.Text.{Str, codes, str_eq, Str-discrete}
use nakamato_blockchain.Base.Dict.{Dict}
use nakamato_blockchain.Types.{Result, ok, err, panic}
use nakamato_blockchain.Crypto.{Primitives}
use nakamato_blockchain.Convert.{TransactionStatus}
use nakamato_blockchain.Client.{Client}
use nakamato_blockchain.Client.Rounds.{Advanced, Advanced-refl, Advanced-trans}
use nakamato_blockchain.Client.Ui.{handle_send_transaction, handle_check_status, handle_get_balance}
use nakamato_blockchain.Client.Ui.Menu.{
  Input, Shown, Turn, again, quit, crashed, after_send, showing, transaction_status, local_balance,
  invalid_choice, menu_round, Session, waiting, exited, run_menu,
}
use nakamato_blockchain.Client.Start.{Files, Fatal, Started, started, start_client}
use nakamato_blockchain.Client.Running.{started-has_miner, Start-cases}
use nakamato_blockchain.Client.Ui.Menu.{ended, at_menu, start_ui, ui_main}
use nakamato_blockchain.Client.Ui.Sending.{Went, handle_send_transaction-Went}

-- A session that has not panicked, and what it has left.
pub data Held (ips : List Str) (c : Client) (session : Session) : Type 0 where
  held_waiting :
      (c' : Client) (shown : List Shown)
      → session ≡ waiting c' shown
      → Advanced ips c c'
      → Held ips c session
  held_exited :
      (c' : Client) (shown : List Shown)
      → session ≡ exited c' shown
      → Advanced ips c c'
      → Held ips c session

module _ (p : Primitives) (key_map : Dict Str) (ips : List Str) (some_miner : 0 < length ips)
    (answer : Str → Str → ℤ → Option TransactionStatus) where
  -- A round that has not panicked.
  data Rounded (c : Client) (turn : Turn) : Type 0 where
    goes_on :
        (shown : Shown) (c' : Client) → turn ≡ again shown c' → Advanced ips c c' → Rounded c turn
    ends : turn ≡ quit → Rounded c turn

  after_send-Rounded :
      (c : Client) (r : Result Str × Client) → Went ips c r → Rounded c (after_send r)
  after_send-Rounded c (ok hash, c') (_, advanced) = goes_on _ c' refl advanced
  after_send-Rounded c (err e, c') (_, advanced) = goes_on _ c' refl advanced
  after_send-Rounded c (panic, c') (calm, _) = absurd (calm refl)

  menu_round-Rounded :
      (c : Client) (input : Input) → Rounded c (menu_round p answer key_map ips c input)
  unfolding menu_round
  menu_round-Rounded c input =
      go (str_eq input.choice (codes "1")) (str_eq input.choice (codes "2"))
        (str_eq input.choice (codes "3")) (str_eq input.choice (codes "4"))
    where
      same : (shown : Shown) → Rounded c (again shown c)
      same shown = goes_on shown c refl (Advanced-refl ips c)

      sending : Result Str × Client
      sending = handle_send_transaction p key_map ips c input.request input.chance

      go :
          (one two three four : Bool)
          → Rounded c (
              if one
              then after_send sending
              else if two
              then again (transaction_status (handle_check_status answer ips input.tx_hash)) c
              else if three
              then again (local_balance (handle_get_balance p c input.pub_key)) c
              else if four
              then quit
              else again invalid_choice c)
      go true two three four =
          after_send-Rounded c sending
            (handle_send_transaction-Went p key_map ips some_miner c input.request input.chance)
      go false true three four = same _
      go false false true four = same _
      go false false false true = ends refl
      go false false false false = same _

  Held-showing :
      (c m : Client) (shown : Shown) (session : Session)
      → Advanced ips c m
      → Held ips m session
      → Held ips c (showing shown session)
  Held-showing c m shown session first (held_waiting c' more e second) =
      held_waiting c' (shown ∷ more) (ap (showing shown) e) (Advanced-trans ips c m c' first second)
  Held-showing c m shown session first (held_exited c' more e second) =
      held_exited c' (shown ∷ more) (ap (showing shown) e) (Advanced-trans ips c m c' first second)

  pub run_menu-Held :
      (c : Client) (inputs : List Input) → Held ips c (run_menu p answer key_map ips c inputs)
  unfolding run_menu
  run_menu-Held c [] = held_waiting c [] refl (Advanced-refl ips c)
  run_menu-Held c (input ∷ inputs) = elim (menu_round-Rounded c input) [
    | ends e ↦ held_exited c [] (ground (arith, e)) (Advanced-refl ips c)
    | goes_on shown m e first ↦
        let same : showing shown (run_menu p answer key_map ips m inputs)
            ≡ run_menu p answer key_map ips c (input ∷ inputs) =
          ground (arith, e) in
        subst (Held ips c) same (Held-showing c m shown _ first (run_menu-Held m inputs))
  ]

start_ui-start_client :
    (p : Primitives) (files : Files) (args : List Str)
    → start_ui p files args ≡ start_client p files args
unfolding start_ui start_client
start_ui-start_client p files [] = refl
start_ui-start_client p files (a ∷ []) = refl
start_ui-start_client p files (a ∷ b ∷ []) = refl
start_ui-start_client p files (a ∷ b ∷ c ∷ []) = refl
start_ui-start_client p files (a ∷ b ∷ c ∷ d ∷ rest) = refl

-- The interactive client ends at its start with one of its messages, or its menu never panics,
-- whatever is typed and answered: it waits for a choice or was quit, its set is worth no more than
-- at the start, and each message that it sent went to the gRPC port of one of the miners of its
-- file.
pub ui_main_advances :
    (p : Primitives) (files : Files) (answer : Str → Str → ℤ → Option TransactionStatus)
    (args : List Str) (inputs : List Input)
    → ((e : Fatal) × (ui_main p files answer args inputs ≡ ended e))
      ⊎ ((s : Started) × (c : Client) × (shown : List Shown) × (start_ui p files args ≡ started s)
          × ((ui_main p files answer args inputs ≡ at_menu (waiting c shown))
              ⊎ (ui_main p files answer args inputs ≡ at_menu (exited c shown)))
          × Advanced s.miner_ips s.client c)
unfolding ui_main
ui_main_advances p files answer args inputs = elim (Start-cases (start_ui p files args)) [
  | inl (e, h) ↦ inl (e, ground (arith, h))
  | inr (s, h) ↦
      let some_miner =
        started-has_miner p files args s (sym (start_ui-start_client p files args) ∙ h) in
      inr (go s h (run_menu-Held p s.key_map s.miner_ips some_miner answer s.client inputs))
]
  where
    go :
        (s : Started)
        → start_ui p files args ≡ started s
        → Held s.miner_ips s.client (run_menu p answer s.key_map s.miner_ips s.client inputs)
        → (s : Started) × (c : Client) × (shown : List Shown) × (start_ui p files args ≡ started s)
          × ((ui_main p files answer args inputs ≡ at_menu (waiting c shown))
              ⊎ (ui_main p files answer args inputs ≡ at_menu (exited c shown)))
          × Advanced s.miner_ips s.client c
    go s h (held_waiting c shown e advanced) =
        (s, c, shown, h, inl (ground (arith, h, e)), advanced)
    go s h (held_exited c shown e advanced) = (s, c, shown, h, inr (ground (arith, h, e)), advanced)

Turn-cases :
    (t : Turn)
    → ((shown : Shown) × (c : Client) × (t ≡ again shown c)) ⊎ ((t ≡ quit) ⊎ (t ≡ crashed))
Turn-cases (again shown c) = inl (shown, c, refl)
Turn-cases quit = inr (inl refl)
Turn-cases crashed = inr (inr refl)

-- What is typed after the choice to quit is not read.
pub run_menu-quit :
    (p : Primitives) (answer : Str → Str → ℤ → Option TransactionStatus) (key_map : Dict Str)
    (ips : List Str) (c : Client) (before : List Input) (input : Input) (after : List Input)
    → input.choice ≡ codes "4"
    → run_menu p answer key_map ips c (before ++ input ∷ after)
      ≡ run_menu p answer key_map ips c (before ++ input ∷ [])
unfolding run_menu
run_menu-quit p answer key_map ips c [] input after h =
    let ends : menu_round p answer key_map ips c input ≡ quit =
      unfold menu_round Str-discrete ℕ_discrete in ground (arith, h) in
    ground (arith, ends)
run_menu-quit p answer key_map ips c (i ∷ before) input after h =
    elim (Turn-cases (menu_round p answer key_map ips c i)) [
      | inl (shown, c', e) ↦
          let rest = run_menu-quit p answer key_map ips c' before input after h in
          ground (arith, e, rest)
      | inr (inl e) ↦ ground (arith, e)
      | inr (inr e) ↦ ground (arith, e)
    ]
