-- ===== src/System/Own.antt =====
-- src/runtime/runtime.rs: the jobs of one channel among all, and the clients with and without the queue.
use mathlib.Core.Option
use trust_tee.Prelude.{
  ℕ, erase_idx, zero, suc, ◌-◌, ◌≤◌, ◌<◌, ◌≡◌, ◌≢◌, refl, sym, ap, ◌∙◌, inl, inr, Bool, Bool-cases,
  ltb, ltb→lt, ltb→le, nothing_below, ◌==◌, ==_self, ne→==, List, [], ◌∷◌, ◌++◌, some, length,
  get_elem?, set, if◌then◌else◌, arith,
}
use trust_tee.Slots.{RequestRecordHeader}
use trust_tee.Runtime.Records.{Job, execute, shutdown}
use trust_tee.Runtime.Records.Jobs.{Keeps}
use trust_tee.Runtime.Worker.{Seat, Worker}
use trust_tee.System.{own, seats, set_seat}

pub own-Keeps : (c : ℕ) → Keeps (own c) c
own-Keeps c hdr req_ready js = rw (==_self c)

pub own-other :
    (c d : ℕ) (hdr : RequestRecordHeader) (req_ready : Bool) (js : List Job)
    → c ≢ d
    → own d (execute hdr c req_ready ∷ js) ≡ own d js
own-other c d hdr req_ready js ne = rw (ne→== c d ne)

module _ (hdr : RequestRecordHeader) (c : ℕ) (req_ready : Bool) where
  pub own-erase_other :
      (d : ℕ) (jobs : List Job) (k : ℕ)
      → get_elem? jobs k ≡ some (execute hdr c req_ready)
      → c ≢ d
      → own d (erase_idx jobs k) ≡ own d jobs
  own-erase_other d [] k at ne = cc
  own-erase_other d (j ∷ js) zero at ne =
      sym (ap (λ x. own d (x ∷ js)) (Option.some_inj.0 at) ∙ own-other c d hdr req_ready js ne)
  own-erase_other d (execute h c' r ∷ js) (suc k) at ne =
      ap (λ l. if c' == d then execute h c' r ∷ l else l) (own-erase_other d js k at ne)
  own-erase_other d (shutdown ∷ js) (suc k) at ne = own-erase_other d js k at ne

  -- The job is found among those of its channel.
  pub own-found :
      (jobs : List Job) (k : ℕ)
      → get_elem? jobs k ≡ some (execute hdr c req_ready)
      → length (own c jobs) ≡ suc (length (own c (erase_idx jobs k)))
  own-found [] k at = cc at
  own-found (j ∷ js) zero at =
      ap (λ x. length (own c (x ∷ js))) (Option.some_inj.0 at)
      ∙ ap length (own-Keeps c hdr req_ready js)
  own-found (execute h c' r ∷ js) (suc k) at = elim (Bool-cases (c' == c)) [
    | inl mine ↦ rw mine (ap suc (own-found js k at))
    | inr other ↦ rw other (own-found js k at)
  ]
  own-found (shutdown ∷ js) (suc k) at = own-found js k at

  -- If it is the only one, none is left without it.
  pub own-erase_only :
      (jobs : List Job) (k : ℕ) (j : Job)
      → get_elem? jobs k ≡ some (execute hdr c req_ready)
      → own c jobs ≡ j ∷ []
      → (j ≡ execute hdr c req_ready) × (own c (erase_idx jobs k) ≡ [])
  own-erase_only [] k j at only = cc
  own-erase_only (x ∷ xs) zero j at only =
      let e =
        sym (own-Keeps c hdr req_ready xs)
        ∙ ap (λ y. own c (y ∷ xs)) (sym (Option.some_inj.0 at))
        ∙ only in
      (cc e, cc e)
  own-erase_only (execute h c' r ∷ xs) (suc k) j at only = elim (Bool-cases (c' == c)) [
    | inl mine ↦ absurd (
        omega (
          arith,
          own-found xs k at,
          ap length (sym (ap (λ b. if b then execute h c' r ∷ own c xs else own c xs) mine) ∙ only),
        ))
    | inr other ↦
        let rest =
          own-erase_only xs k j at
            (sym (ap (λ b. if b then execute h c' r ∷ own c xs else own c xs) other) ∙ only) in
        (rest.0, rw other rest.1)
  ]
  own-erase_only (shutdown ∷ xs) (suc k) j at only = own-erase_only xs k j at only

pub get_elem?-append :
    {A : Type 0} (xs ys : List A) (i : ℕ) (x : A)
    → get_elem? xs i ≡ some x
    → get_elem? (xs ++ ys) i ≡ some x
get_elem?-append [] ys i x h = cc h
get_elem?-append (x' ∷ xs) ys zero x h = h
get_elem?-append (x' ∷ xs) ys (suc i) x h = get_elem?-append xs ys i x h

pub set-append :
    {A : Type 0} (xs ys : List A) (i : ℕ) (x : A)
    → i < length xs
    → set (xs ++ ys) i x ≡ set xs i x ++ ys
set-append [] ys i x h = elim (nothing_below h) [ ]
set-append (x' ∷ xs) ys zero x h = refl
set-append (x' ∷ xs) ys (suc i) x h = ap (λ l. x' ∷ l) (set-append xs ys i x (omega arith))

set-append_right :
    {A : Type 0} (xs ys : List A) (i : ℕ) (x : A)
    → length xs ≤ i
    → set (xs ++ ys) i x ≡ xs ++ set ys (i - length xs) x
set-append_right [] ys i x h = ap (λ k. set ys k x) (omega arith)
set-append_right (x' ∷ xs) ys zero x h = absurd (omega arith)
set-append_right (x' ∷ xs) ys (suc i) x h =
    ap (λ l. x' ∷ l)
      (set-append_right xs ys i x (omega arith) ∙ ap (λ k. xs ++ set ys k x) (omega arith))

pub seats-set_seat :
    {T : Type 0} (w : Worker T) (i : ℕ) (a : Seat) → seats (set_seat w i a) ≡ set (seats w) i a
seats-set_seat w i a = elim (Bool-cases (ltb i (length w.clients))) [
  | inl below ↦ rw below (sym (set-append w.clients w.reg i a (ltb→lt _ _ below)))
  | inr above ↦ rw above (sym (set-append_right w.clients w.reg i a (ltb→le _ _ above)))
]
