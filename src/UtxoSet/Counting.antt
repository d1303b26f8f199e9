-- ===== src/UtxoSet/Counting.antt =====
-- The set as a multiset: how often each UTXO stands in it, and how each operation changes that.
use nakamato_blockchain.Base.{
  ℕ, zero, suc, ◌+◌, ◌≤◌, ◌<◌, ◌≡◌, ◌≢◌, refl, ap, true, false, inl, inr, ◌⊎◌, List, [], ◌∷◌, ◌++◌,
  arith, if◌then◌else◌, ltb, ◌∙◌,
}
use nakamato_blockchain.Base.Text.{Str, Str-discrete, str_eq}
use nakamato_blockchain.Base.Dict.{insert, lookup-insert}
use nakamato_blockchain.Types.{Utxo, Error, Result, ok, err, panic, utxo_not_found}
use nakamato_blockchain.UtxoSet.{
  UtxoSet, utxo_eq, get, any_equal, check_utxo, add_utxo, remove_first, remove_utxo, for_each,
}

-- How often x stands in a list.
unfoldable pub occurrences : Utxo → List Utxo → ℕ
occurrences x [] = 0
occurrences x (y ∷ ys) = (if utxo_eq y x then 1 else 0) + occurrences x ys

-- How often x stands in the set, which keeps it under its address.
unfoldable pub count : Utxo → UtxoSet → ℕ
count x u = occurrences x (get u x.address)

pub occurrences-append :
    (x : Utxo) (ys zs : List Utxo) → occurrences x (ys ++ zs) ≡ occurrences x ys + occurrences x zs
unfolding occurrences
occurrences-append x [] zs = omega arith
occurrences-append x (y ∷ ys) zs = omega (arith, occurrences-append x ys zs)

any_equal-occurrences :
    (x : Utxo) (ys : List Utxo)
    → any_equal x ys ≡ (if ltb 0 (occurrences x ys) then true else false)
unfolding any_equal occurrences
any_equal-occurrences x [] = refl
any_equal-occurrences x (y ∷ ys) = ground (arith, any_equal-occurrences x ys)

occurrences-remove_first :
    (x y : Utxo) (ys : List Utxo)
    → any_equal x ys ≡ true
    → occurrences y (remove_first x ys) + (if utxo_eq x y then 1 else 0) ≡ occurrences y ys
unfolding any_equal occurrences remove_first
occurrences-remove_first x y [] h = cc
occurrences-remove_first x y (z ∷ ys) h = ground (arith, occurrences-remove_first x y ys)

-- A UTXO is found exactly when it occurs.
pub check_utxo-count :
    (u : UtxoSet) (x : Utxo) → check_utxo u x ≡ (if ltb 0 (count x u) then true else false)
unfolding check_utxo count
check_utxo-count u x = any_equal-occurrences x (get u x.address)

pub get-insert :
    (d : UtxoSet) (a b : Str) (us : List Utxo)
    → get (record { utxos = insert a us d.utxos }) b ≡ (if str_eq b a then us else get d b)
unfolding get
get-insert d a b us = ground (arith, lookup-insert a b us d.utxos)

get-insert_self :
    (d : UtxoSet) (a b : Str) (us : List Utxo)
    → b ≡ a
    → get (record { utxos = insert a us d.utxos }) b ≡ us
get-insert_self d a b us e = get-insert d a b us ∙ ground arith

get-insert_ne :
    (d : UtxoSet) (a b : Str) (us : List Utxo)
    → b ≢ a
    → get (record { utxos = insert a us d.utxos }) b ≡ get d b
get-insert_ne d a b us n = get-insert d a b us ∙ ground arith

pub count-add_utxo :
    (x y : Utxo) (u : UtxoSet) → count y (add_utxo u x) ≡ count y u + (if utxo_eq x y then 1 else 0)
unfolding count add_utxo occurrences
count-add_utxo x y u =
    rw (get-insert u x.address y.address (get u x.address ++ x ∷ []))
      (ground (arith, occurrences-append y (get u x.address) (x ∷ [])))

pub remove_utxo-found :
    (x y : Utxo) (u : UtxoSet)
    → 0 < count x u
    → ((remove_utxo u x).0 ≡ ok tt)
      × (count y (remove_utxo u x).1 + (if utxo_eq x y then 1 else 0) ≡ count y u)
unfolding remove_utxo check_utxo
remove_utxo-found x y u h =
    (rw (found, remove_utxo, check_utxo) refl, rw (found, remove_utxo, check_utxo) kept)
  where
    found : any_equal x (get u x.address) ≡ true
    found = check_utxo-count u x ∙ ground arith

    kept :
        count y (record { utxos = insert x.address (remove_first x (get u x.address)) u.utxos })
          + (if utxo_eq x y then 1 else 0)
        ≡ count y u
    kept = elim (Str-discrete y.address x.address) [
      | yes e ↦
          unfold count in
          rw
            (
              get-insert_self u x.address y.address (remove_first x (get u x.address)) e,
              ap (get u) e,
            )
            (occurrences-remove_first x y (get u x.address) found)
      | no n ↦
          unfold count in
          rw (get-insert_ne u x.address y.address (remove_first x (get u x.address)) n)
            (ground arith)
    ]

pub remove_utxo-missing :
    (x : Utxo) (u : UtxoSet) → count x u ≡ 0 → remove_utxo u x ≡ (err utxo_not_found, u)
unfolding remove_utxo
remove_utxo-missing x u h =
    let missing : check_utxo u x ≡ false = check_utxo-count u x ∙ ground arith in rw missing refl

Nat-cases : (n : ℕ) → (n ≡ 0) ⊎ (0 < n)
Nat-cases zero = inl refl
Nat-cases (suc n) = inr (omega arith)

remove_utxo-ok : (x : Utxo) (u : UtxoSet) → (remove_utxo u x).0 ≡ ok tt → 0 < count x u
remove_utxo-ok x u h = elim (Nat-cases (count x u)) [
  | inl missing ↦ absurd (cc (h, remove_utxo-missing x u missing))
  | inr present ↦ present
]

-- A loop that goes through its first round goes on from the set it left.
pub for_each-cons {ℓ} :
    {A : Type ℓ} (f : UtxoSet → A → Result (Unit {0}) × UtxoSet) (u : UtxoSet) (x : A) (xs : List A)
    → (f u x).0 ≡ ok tt
    → for_each f u (x ∷ xs) ≡ for_each f (f u x).1 xs
unfolding for_each
for_each-cons f u x xs h = rw (h, for_each)

-- A loop whose first round fails ends there, with the set that the round left.
pub for_each-cons_err {ℓ} :
    {A : Type ℓ} (f : UtxoSet → A → Result (Unit {0}) × UtxoSet) (u : UtxoSet) (x : A) (xs : List A)
    (e : Error) {u' : UtxoSet}
    → f u x ≡ (err e, u')
    → for_each f u (x ∷ xs) ≡ (err e, u')
unfolding for_each
for_each-cons_err f u x xs e h = rw (ap (λ r. r.0) h, for_each) (ap (λ r. (err e, r.1)) h)

-- A loop that ends well has gone through its first round.
pub for_each-cons_ok {ℓ} :
    {A : Type ℓ} (f : UtxoSet → A → Result (Unit {0}) × UtxoSet) (u : UtxoSet) (x : A) (xs : List A)
    → (for_each f u (x ∷ xs)).0 ≡ ok tt
    → (f u x).0 ≡ ok tt
unfolding for_each
for_each-cons_ok f u x xs h = go (f u x).0 refl
  where
    go : (r : Result (Unit {0})) → (f u x).0 ≡ r → (f u x).0 ≡ ok tt
    go (ok _) e = e
    go (err r) e = absurd (cc (rw (e, for_each) at h))
    go panic e = absurd (cc (rw (e, for_each) at h))

-- The inputs can be removed one by one when each occurs in the set as often as among them.
pub remove_inputs-ok :
    (xs : List Utxo) (u : UtxoSet)
    → ((y : Utxo) → occurrences y xs ≤ count y u)
    → ((for_each remove_utxo u xs).0 ≡ ok tt)
unfolding occurrences
remove_inputs-ok [] u h = unfold for_each in refl
remove_inputs-ok (x ∷ xs) u h =
    let present : 0 < count x u = ground (arith, h x) in
    let (done, _) = remove_utxo-found x x u present in
    rw (for_each-cons remove_utxo u x xs done) (
      remove_inputs-ok xs (remove_utxo u x).1
        (λ y. ground (arith, h y, remove_utxo-found x y u present)))

-- Only then, and each UTXO has then lost as many copies as it has among them.
pub remove_inputs-count :
    (xs : List Utxo) (u : UtxoSet)
    → (for_each remove_utxo u xs).0 ≡ ok tt
    → (y : Utxo) → count y (for_each remove_utxo u xs).1 + occurrences y xs ≡ count y u
unfolding occurrences
remove_inputs-count [] u h y = unfold for_each in omega arith
remove_inputs-count (x ∷ xs) u h y =
    let present = remove_utxo-ok x u (for_each-cons_ok remove_utxo u x xs h) in
    let (done, eq) = remove_utxo-found x y u present in
    let step = for_each-cons remove_utxo u x xs done in
    rw step (omega (arith, eq, remove_inputs-count xs (remove_utxo u x).1 (rw step at h) y))

-- The outputs of a transaction as `GetUTXO` hands them out, with its hash.
unfoldable pub stamped : Str → List Utxo → List Utxo
stamped hash [] = []
stamped hash (x ∷ xs) = record x { tx_id = hash } ∷ stamped hash xs
