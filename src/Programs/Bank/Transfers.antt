-- ===== src/Programs/Bank/Transfers.antt =====
-- src/examples/remote_complex.rs: what the operations keep true of the bank, and what a transfer does.
use mathlib.Core.Option
use trust_tee.Prelude.{
  ℕ, suc, ◌+◌, ◌&&◌, [], ◌∷◌, ◌++◌, ==→≡, subst, ◌^◌, ◌<◌, ◌≡◌, refl, sym, ap, ap₂, ◌∙◌, Bool, true,
  false, not, Bool-cases, inl, inr, none, some, Option, List, length, ◌⊎◌, get_elem?,
  get_elem?-snoc_cases, ltb, ltb→lt, ◌==◌, if◌then◌else◌, arith,
}
use trust_tee.Runtime.Records.Data.{left}
use trust_tee.Programs.HashMap.{
  HashMap, get, contains_key, updated, insert, modify, get-modify, get-insert, contains_key-modify,
  contains_key-insert,
}
use trust_tee.Programs.Double.{Double}
use trust_tee.Programs.Bank.{
  User, Transaction, BankState, Transferred, done, user_not_found, insufficient_balance, new,
  create_user, debit, credit, shortfall, move_funds, transfer,
}
use trust_tee.Programs.Bank.Ledger.{
  opened_total, effect, replay, replay-snoc, replay_untouched, opened_total-eq,
}

-- The users have the ids from one to the last one given, which fits its 64 bits; each is stored under its id; the
-- transactions are numbered in order, between users of the bank; and they explain the balances: from the
-- openings, which add up to the total, each balance is what they make of it, in order.
pub record IsBank {W : Type 0} (d : Double W) (b : BankState W) : Type 0 where
  pub openings : ℕ → W
  pub made : ℕ
  pub next : b.next_user_id ≡ suc made
  pub fits : b.next_user_id < 2 ^ 64
  pub ids : (k : ℕ) → contains_key k b.users ≡ (ltb 0 k && ltb k b.next_user_id)
  pub total : b.total_balance ≡ opened_total d openings made
  pub explained :
      (k : ℕ) (u : User W)
      → get k b.users ≡ some u
      → (u.id ≡ k) × (u.balance ≡ replay d k b.transactions (openings k))
  pub recorded :
      (i : ℕ) (t : Transaction W)
      → get_elem? b.transactions i ≡ some t
      → (t.timestamp ≡ i)
        × (contains_key t.from b.users ≡ true)
        × (contains_key t.to b.users ≡ true)

module _ {W : Type 0} (d : Double W) where
  pub new-IsBank : IsBank d (new d)
  unfolding new
  new-IsBank = record {
    openings = λ k. d.of_ℕ 0;
    made = 0;
    next = refl;
    fits = omega arith;
    ids = λ k. ground arith;
    total = refl;
    explained = λ k u h. cc h;
    recorded = λ i t h. cc h;
  }

  abbrev opened : ℕ → List ℕ → W → User W
  opened id name a = record { id = id; name = name; balance = a; last_login = 0 }

  kept :
      (k j : ℕ) (u : User W) (m : HashMap (User W))
      → contains_key j m ≡ true
      → contains_key j (insert k u m) ≡ true
  kept k j u m h = ground (arith, contains_key-insert k j u m)

  -- Who is not there has no part in a transaction.
  absent :
      (b : BankState W) (is : IsBank d b) (k : ℕ)
      → contains_key k b.users ≡ false
      → (i : ℕ) (t : Transaction W) → get_elem? b.transactions i ≡ some t
      → (t.from == k ≡ false) × (t.to == k ≡ false)
  absent b is k away i t at =
      let (numbered, payer, payee) = is.recorded i t at in (other t.from payer, other t.to payee)
    where
      other : (j : ℕ) → contains_key j b.users ≡ true → (j == k) ≡ false
      other j there = grind arith

  -- The openings with that of a new user.
  abbrev opened_by : (ℕ → W) → ℕ → W → ℕ → W
  opened_by openings id a k = if id == k then a else openings k

  stored_new :
      (b : BankState W) (is : IsBank d b) (name : List ℕ) (a : W) (k : ℕ) (u : User W)
      → (if b.next_user_id == k then some (opened b.next_user_id name a) else get k b.users)
        ≡ some u
      → (u.id ≡ k)
        × (u.balance ≡ replay d k b.transactions (opened_by is.openings b.next_user_id a k))
  stored_new b is name a k u h = elim (Bool-cases (b.next_user_id == k)) [
    | inl mine ↦
        let made : opened b.next_user_id name a ≡ u = Option.some_inj.0 (
          subst (λ c. (if c then some (opened b.next_user_id name a) else get k b.users) ≡ some u)
            mine h) in
        (
          ap (λ (x : User W). x.id) (sym made) ∙ ==→≡ b.next_user_id k mine,
          rw mine (
              ap (λ (x : User W). x.balance) (sym made)
              ∙ sym (
                  replay_untouched d k b.transactions a
                    (absent b is k (ground (arith, is.ids k, ==→≡ b.next_user_id k mine))))),
        )
    | inr other ↦ rw other (
        is.explained k u (
          subst (λ c. (if c then some (opened b.next_user_id name a) else get k b.users) ≡ some u)
            other h))
  ]

  pub create_user-IsBank :
      (name : List ℕ) (a : W) (b : BankState W)
      → IsBank d b
      → IsBank d (left (create_user d true name a b))
  unfolding create_user
  create_user-IsBank name a b is = elim (Bool-cases (ltb (b.next_user_id + 1) (2 ^ 64))) [
    | inl room ↦ rw room (record {
      openings = opened_by is.openings b.next_user_id a;
      made = suc is.made;
      next = omega (arith, is.next, ltb→lt (b.next_user_id + 1) (2 ^ 64) room);
      fits = omega (arith, ltb→lt (b.next_user_id + 1) (2 ^ 64) room);
      ids = λ k. ground (
        arith,
        is.ids k,
        is.next,
        ltb→lt (b.next_user_id + 1) (2 ^ 64) room,
        contains_key-insert b.next_user_id k (opened b.next_user_id name a) b.users,
      );
      total =
          ap₂ d.add
            (is.total
              ∙ opened_total-eq d is.openings (opened_by is.openings b.next_user_id a) is.made
                  (λ k below. ground (arith, is.next)))
            (ground (arith, is.next));
      explained = λ k u h.
          stored_new b is name a k u
            (sym (get-insert b.next_user_id k (opened b.next_user_id name a) b.users) ∙ h);
      recorded = λ i t h.
          let (numbered, payer, payee) = is.recorded i t h in
          (
            numbered,
            kept b.next_user_id t.from (opened b.next_user_id name a) b.users payer,
            kept b.next_user_id t.to (opened b.next_user_id name a) b.users payee,
          );
    })
    | inr full ↦ rw full is
  ]

  -- What a user has after a transfer between two users, who may be one.
  abbrev pub settled : ℕ → ℕ → W → ℕ → Option (User W) → Option (User W)
  settled from to a k o =
      let paid = if from == k then updated (debit d a) o else o in
      if to == k then updated (credit d a) paid else paid

  moved_users :
      (from to : ℕ) (a : W) (b : BankState W) (k : ℕ)
      → get k (modify to (credit d a) (modify from (debit d a) b.users))
        ≡ settled from to a k (get k b.users)
  moved_users from to a b k =
      get-modify to k (credit d a) (modify from (debit d a) b.users)
      ∙ ap (λ o. if to == k then updated (credit d a) o else o)
          (get-modify from k (debit d a) b.users)

  settled-effect :
      (from to : ℕ) (a : W) (time k : ℕ) (o : Option (User W)) (u : User W)
      → settled from to a k o ≡ some u
      → (v : User W) × (o ≡ some v)
        × (u.id ≡ v.id)
        × (u.balance
            ≡ effect d k (record { from = from; to = to; amount = a; timestamp = time }) v.balance)
  settled-effect from to a time k none u h = ground arith
  settled-effect from to a time k (some v) u h = (
    v,
    refl,
    ap (λ (x : User W). x.id) (sym same) ∙ (go (from == k) (to == k)).0,
    ap (λ (x : User W). x.balance) (sym same) ∙ (go (from == k) (to == k)).1,
  )
    where
      paid : Bool → User W
      paid b = if b then debit d a v else v

      settled_user : Bool → Bool → User W
      settled_user b c = if c then credit d a (paid b) else paid b

      go :
          (b c : Bool)
          → ((settled_user b c).id ≡ v.id)
            × ((settled_user b c).balance ≡ (
                let x = if b then d.sub v.balance a else v.balance in if c then d.add x a else x))
      go true true = (refl, refl)
      go true false = (refl, refl)
      go false true = (refl, refl)
      go false false = (refl, refl)

      one :
          (b c : Bool)
          → (let x = if b then updated (debit d a) (some v) else some v in
              if c then updated (credit d a) x else x)
            ≡ some (settled_user b c)
      one true true = refl
      one true false = refl
      one false true = refl
      one false false = refl

      same : settled_user (from == k) (to == k) ≡ u
      same = Option.some_inj.0 (sym (one (from == k) (to == k)) ∙ h)

  moved-IsBank :
      (from to : ℕ) (a : W) (b : BankState W)
      → IsBank d b
      → contains_key from b.users ≡ true
      → contains_key to b.users ≡ true
      → IsBank d (move_funds d from to a b)
  unfolding move_funds
  moved-IsBank from to a b is payer payee = record {
    openings = is.openings;
    made = is.made;
    next = is.next;
    fits = is.fits;
    ids = λ k. same_keys k ∙ is.ids k;
    total = is.total;
    explained = λ k u h.
        let (v, at, same_id, same_balance) =
          settled-effect from to a (length b.transactions) k (get k b.users) u
            (sym (moved_users from to a b k) ∙ h) in
        let (stored, explained) = is.explained k v at in
        (
          same_id ∙ stored,
          same_balance
              ∙ ap (effect d k last) explained
              ∙ sym (replay-snoc d k b.transactions last (is.openings k)),
        );
    recorded = λ i t h. elim (get_elem?-snoc_cases b.transactions _ i t h) [
      | inr old ↦
          let (numbered, p, q) = is.recorded i t old in
          (numbered, same_keys t.from ∙ p, same_keys t.to ∙ q)
      | inl (newest, place) ↦ (
        ap (λ (x : Transaction W). x.timestamp) newest ∙ sym place,
        same_keys t.from ∙ ap (λ (x : Transaction W). contains_key x.from b.users) newest ∙ payer,
        same_keys t.to ∙ ap (λ (x : Transaction W). contains_key x.to b.users) newest ∙ payee,
      )
    ];
  }
    where
      last : Transaction W
      last = record { from = from; to = to; amount = a; timestamp = length b.transactions }

      same_keys :
          (k : ℕ)
          → contains_key k (modify to (credit d a) (modify from (debit d a) b.users))
            ≡ contains_key k b.users
      same_keys k =
          contains_key-modify to k (credit d a) (modify from (debit d a) b.users)
          ∙ contains_key-modify from k (debit d a) b.users

  -- What a transfer reports, against the bank before and after it.
  abbrev pub Reports : ℕ → ℕ → W → BankState W → Transferred W × BankState W → Type 0
  Reports from to a b (done, b') =
      (contains_key from b.users ≡ true)
      × (contains_key to b.users ≡ true)
      × (shortfall d a (get from b.users) ≡ none)
      × ((k : ℕ) → get k b'.users ≡ settled from to a k (get k b.users))
      × (b'.total_balance ≡ b.total_balance)
      × (b'.transactions
          ≡ b.transactions
            ++ (record { from = from; to = to; amount = a; timestamp = length b.transactions }
                ∷ []))
  Reports from to a b (user_not_found k, b') =
      (b' ≡ b) × (contains_key k b.users ≡ false) × ((k ≡ from) ⊎ (k ≡ to))
  Reports from to a b (insufficient_balance balance, b') =
      (b' ≡ b)
      × (Option.map (λ (u : User W). u.balance) (get from b.users) ≡ some balance)
      × (d.less balance a ≡ true)

  shortfall_lem :
      (a balance : W) (o : Option (User W))
      → shortfall d a o ≡ some balance
      → (Option.map (λ (u : User W). u.balance) o ≡ some balance) × (d.less balance a ≡ true)
  unfolding shortfall
  shortfall_lem a balance none h = cc h
  shortfall_lem a balance (some u) h = ground arith

  moved-Reports :
      (from to : ℕ) (a : W) (b : BankState W)
      → contains_key from b.users ≡ true
      → contains_key to b.users ≡ true
      → shortfall d a (get from b.users) ≡ none
      → Reports from to a b (done, move_funds d from to a b)
  unfolding move_funds
  moved-Reports from to a b payer payee enough =
      (payer, payee, enough, moved_users from to a b, refl, refl)

  pub transfer_lem :
      (from to : ℕ) (a : W) (b : BankState W)
      → IsBank d b
      → IsBank d (transfer d from to a b).1 × Reports from to a b (transfer d from to a b)
  unfolding transfer
  transfer_lem from to a b is =
      go (contains_key from b.users) (contains_key to b.users) (shortfall d a (get from b.users))
        refl refl refl
    where
      go :
          (payer payee : Bool) (short : Option W)
          → contains_key from b.users ≡ payer
          → contains_key to b.users ≡ payee
          → shortfall d a (get from b.users) ≡ short
          → (let r : Transferred W × BankState W =
                if not payer
                then (user_not_found from, b)
                else if not payee
                then (user_not_found to, b)
                else elim short [
                  | some balance ↦ (insufficient_balance balance, b)
                  | none ↦ (done, move_funds d from to a b)
                ] in
              IsBank d r.1 × Reports from to a b r)
      go false payee short p q e = (is, (refl, p, inl refl))
      go true false short p q e = (is, (refl, q, inr refl))
      go true true (some balance) p q e =
          let (owned, short) = shortfall_lem a balance (get from b.users) e in
          (is, (refl, owned, short))
      go true true none p q e = (moved-IsBank from to a b is p q, moved-Reports from to a b p q e)
