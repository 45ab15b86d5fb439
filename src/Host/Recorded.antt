-- ===== src/Host/Recorded.antt =====
-- crates/steel/src/host/db/proof.rs: what is recorded of a run.
use steel.Prelude.{
  ℕ, ◌≡◌, refl, sym, ◌∙◌, ap, subst, Bytes, B256, Address, true, List, [], ◌∷◌, ◌++◌, arith, All,
  append_assoc, append-nil, bytes_eq_refl, bytes_eq_iff,
}
use steel.Prelude.Maps.{
  HashMap, HashSet, lookup, insert, add, contains, contains_number, add_number, lookup-insert,
  contains-add, contains_number-add_number, lookup-insert_self,
}
use steel.Outcome.{ok, >>=-eq-ok, ok-injective}
use steel.Platform.{Filter}
use steel.Words.{to_be_bytes}
use steel.State.{or_default}
use steel.Host.Database.{Database, Query, Answer, ask, ask_all}
use steel.Host.Proof.{
  ProofDb, is_some, loaded, read_value, proof_db, basic, code_by_hash, storage, block_hash, logs,
  touch, touch_slot,
}

-- the slots that are recorded for an account
abbrev pub slots_of : HashMap HashSet → Address → HashSet
slots_of accounts a = or_default [] (lookup a accounts)

module _ {D : Type 0} where
  abbrev pub Recorded : ProofDb D → Query → Type 0
  Recorded db (Query.basic a) = is_some (lookup a db.accounts) ≡ true
  Recorded db (Query.code_by_hash h) = is_some (lookup h db.contracts) ≡ true
  Recorded db (Query.storage a i) = contains (to_be_bytes 32 i) (slots_of db.accounts a) ≡ true
  Recorded db (Query.block_hash n) = contains_number n db.block_hash_numbers ≡ true
  Recorded db (Query.logs f) =
      (before : List Filter) × (after : List Filter) × (db.log_filters ≡ before ++ f ∷ after)

  -- all that one state has recorded, a later one has too
  pub record Extends (db db' : ProofDb D) : Type 0 where
    pub accounts :
        (a : Address)
        → is_some (lookup a db.accounts) ≡ true
        → is_some (lookup a db'.accounts) ≡ true
    pub slots :
        (a : Address) (k : B256)
        → contains k (slots_of db.accounts a) ≡ true
        → contains k (slots_of db'.accounts a) ≡ true
    pub contracts :
        (h : B256)
        → is_some (lookup h db.contracts) ≡ true
        → is_some (lookup h db'.contracts) ≡ true
    pub numbers :
        (n : ℕ)
        → contains_number n db.block_hash_numbers ≡ true
        → contains_number n db'.block_hash_numbers ≡ true
    pub filters : (more : List Filter) × (db'.log_filters ≡ db.log_filters ++ more)

  Recorded-Extends :
      (db db' : ProofDb D) (q : Query) → Extends db db' → Recorded db q → Recorded db' q
  Recorded-Extends db db' (Query.basic a) x r = x.accounts a r
  Recorded-Extends db db' (Query.code_by_hash h) x r = x.contracts h r
  Recorded-Extends db db' (Query.storage a i) x r = x.slots a (to_be_bytes 32 i) r
  Recorded-Extends db db' (Query.block_hash n) x r = x.numbers n r
  Recorded-Extends db db' (Query.logs f) x (before, after, e) =
      let (more, p) = x.filters in
      (before, after ++ more, p ∙ ap (λ l. l ++ more) e ∙ append_assoc before (f ∷ after) more)

  Extends-refl : (db : ProofDb D) → Extends db db
  Extends-refl db = record {
    accounts = λ a h. h;
    slots = λ a k h. h;
    contracts = λ c h. h;
    numbers = λ n h. h;
    filters = ([], sym (append-nil db.log_filters));
  }

  Extends-trans : (a b c : ProofDb D) → Extends a b → Extends b c → Extends a c
  Extends-trans a b c x y = record {
    accounts = λ k h. y.accounts k (x.accounts k h);
    slots = λ k j h. y.slots k j (x.slots k j h);
    contracts = λ k h. y.contracts k (x.contracts k h);
    numbers = λ k h. y.numbers k (x.numbers k h);
    filters = (
      x.filters.0 ++ y.filters.0,
      y.filters.1
          ∙ ap (λ l. l ++ y.filters.0) x.filters.1
          ∙ append_assoc a.log_filters x.filters.0 y.filters.0,
    );
  }

touch_keeps :
    (a b : Address) (k : B256) (accounts : HashMap HashSet)
    → (is_some (lookup b accounts) ≡ true → is_some (lookup b (touch a accounts)) ≡ true)
      × (slots_of (touch a accounts) b ≡ slots_of accounts b)
unfolding touch
touch_keeps a b k accounts =
    ground (arith, lookup-insert a b (or_default [] (lookup a accounts)) accounts, bytes_eq_iff a b)

touch_records :
    (a : Address) (accounts : HashMap HashSet) → is_some (lookup a (touch a accounts)) ≡ true
unfolding touch
touch_records a accounts =
    rw (lookup-insert_self a (or_default [] (lookup a accounts)) accounts) refl

touch_slot_keeps :
    (a b : Address) (j k : B256) (accounts : HashMap HashSet)
    → (is_some (lookup b accounts) ≡ true → is_some (lookup b (touch_slot a j accounts)) ≡ true)
      × (contains k (slots_of accounts b) ≡ true
          → contains k (slots_of (touch_slot a j accounts) b) ≡ true)
unfolding touch_slot
touch_slot_keeps a b j k accounts = ground (
  arith,
  lookup-insert a b (add j (slots_of accounts a)) accounts,
  bytes_eq_iff a b,
  contains-add j k (slots_of accounts a),
)

touch_slot_records :
    (a : Address) (k : B256) (accounts : HashMap HashSet)
    → contains k (slots_of (touch_slot a k accounts) a) ≡ true
unfolding touch_slot
touch_slot_records a k accounts =
    rw (lookup-insert_self a (add k (slots_of accounts a)) accounts)
      (rw (contains-add k k (slots_of accounts a), bytes_eq_refl k) refl)

insert_keeps :
    {V : Type 0} (k j : Bytes) (v : V) (m : HashMap V)
    → is_some (lookup j m) ≡ true
    → is_some (lookup j (insert k v m)) ≡ true
insert_keeps k j v m h = ground (arith, lookup-insert k j v m)

contains_number_records : (n : ℕ) (s : List ℕ) → contains_number n (add_number n s) ≡ true
contains_number_records n s = ground (arith, contains_number-add_number n n s)

-- the state after each query that succeeds
module _ {D : Type 0} (db : ProofDb D) (inner : D) where
  abbrev touched : Address → ProofDb D
  touched a = record db { accounts = touch a db.accounts; inner = inner }

  abbrev slot_touched : Address → B256 → ProofDb D
  slot_touched a k = record db { accounts = touch_slot a k db.accounts; inner = inner }

  abbrev coded : B256 → Bytes → ProofDb D
  coded h code = record db { contracts = insert h code db.contracts; inner = inner }

  abbrev numbered : ℕ → ProofDb D
  numbered n = record db { block_hash_numbers = add_number n db.block_hash_numbers; inner = inner }

  abbrev filtered : Filter → ProofDb D
  filtered f = record db { log_filters = db.log_filters ++ (f ∷ []); inner = inner }

  Extends-touched : (a : Address) → Extends db (touched a)
  Extends-touched a = record {
    accounts = λ b h. (touch_keeps a b [] db.accounts).0 h;
    slots = λ b k h. rw (touch_keeps a b k db.accounts).1 h;
    contracts = λ c h. h;
    numbers = λ n h. h;
    filters = ([], sym (append-nil db.log_filters));
  }

  Extends-slot_touched : (a : Address) (k : B256) → Extends db (slot_touched a k)
  Extends-slot_touched a j = record {
    accounts = λ b h. (touch_slot_keeps a b j [] db.accounts).0 h;
    slots = λ b k h. (touch_slot_keeps a b j k db.accounts).1 h;
    contracts = λ c h. h;
    numbers = λ n h. h;
    filters = ([], sym (append-nil db.log_filters));
  }

  Extends-coded : (h : B256) (code : Bytes) → Extends db (coded h code)
  Extends-coded h code = record {
    accounts = λ b h. h;
    slots = λ b k h. h;
    contracts = λ j r. insert_keeps h j code db.contracts r;
    numbers = λ n h. h;
    filters = ([], sym (append-nil db.log_filters));
  }

  Extends-numbered : (n : ℕ) → Extends db (numbered n)
  Extends-numbered n = record {
    accounts = λ b h. h;
    slots = λ b k h. h;
    contracts = λ j h. h;
    numbers = λ m h. ground (arith, contains_number-add_number n m db.block_hash_numbers);
    filters = ([], sym (append-nil db.log_filters));
  }

  Extends-filtered : (f : Filter) → Extends db (filtered f)
  Extends-filtered f = record {
    accounts = λ b h. h;
    slots = λ b k h. h;
    contracts = λ j h. h;
    numbers = λ n h. h;
    filters = (f ∷ [], refl);
  }

module _ {D : Type 0} (ops : Database D) where
  ask-Extends :
      (db : ProofDb D) (q : Query) {a : Answer} {db' : ProofDb D}
      → ask (proof_db ops) db q ≡ ok (a, db')
      → Extends db db' × Recorded db' q
  unfolding ask proof_db basic code_by_hash storage block_hash logs
  ask-Extends db (Query.basic a) {db' = db'} e =
      let ((x, d), p, q) = >>=-eq-ok (basic ops db a) _ e in
      let ((y, inner), p', q') = >>=-eq-ok (ops.basic db.inner a) _ p in
      let same : touched db inner a ≡ db' = cc in
      rw (sym same) (Extends-touched db inner a, touch_records a db.accounts)
  ask-Extends db (Query.code_by_hash h) {db' = db'} e =
      let ((x, d), p, q) = >>=-eq-ok (code_by_hash ops db h) _ e in
      let ((y, inner), p', q') = >>=-eq-ok (ops.code_by_hash db.inner h) _ p in
      let same : coded db inner h y ≡ db' = cc in
      rw (sym same) (Extends-coded db inner h y, rw (lookup-insert_self h y db.contracts) refl)
  ask-Extends db (Query.storage a i) {db' = db'} e =
      let ((x, d), p, q) = >>=-eq-ok (storage ops db a i) _ e in
      let ((y, inner), p', q') =
        >>=-eq-ok
          (read_value ops db.inner a i (lookup (to_be_bytes 32 i) (loaded (lookup a db.proofs)))) _
          p in
      let same = ap (λ t. t.1) (ok-injective q') ∙ ap (λ t. t.1) (ok-injective q) in
      subst (λ s. Extends db s × Recorded s (Query.storage a i)) same
        (
          Extends-slot_touched db inner a (to_be_bytes 32 i),
          touch_slot_records a (to_be_bytes 32 i) db.accounts,
        )
  ask-Extends db (Query.block_hash n) {db' = db'} e =
      let ((x, d), p, q) = >>=-eq-ok (block_hash ops db n) _ e in
      let ((y, inner), p', q') = >>=-eq-ok (ops.block_hash db.inner n) _ p in
      let same : numbered db inner n ≡ db' = cc in
      rw (sym same) (Extends-numbered db inner n, contains_number_records n db.block_hash_numbers)
  ask-Extends db (Query.logs f) {db' = db'} e =
      let ((x, d), p, q) = >>=-eq-ok (logs ops db f) _ e in
      let ((y, inner), p', q') = >>=-eq-ok (ops.logs db.inner f) _ p in
      let same : filtered db inner f ≡ db' = cc in
      rw (sym same) (Extends-filtered db inner f, (db.log_filters, [], refl))

  ask_all-Extends :
      (db : ProofDb D) (queries : List Query) {answers : List Answer} {db' : ProofDb D}
      → ask_all (proof_db ops) db queries ≡ ok (answers, db')
      → Extends db db' × All (Recorded db') queries
  unfolding ask_all
  ask_all-Extends db [] {db' = db'} e =
      let same : db ≡ db' = cc in (rw (sym same) (Extends-refl db), tt)
  ask_all-Extends db (q ∷ queries) {db' = db'} e =
      let ((a, d), p, q') = >>=-eq-ok (ask (proof_db ops) db q) _ e in
      let ((answers', d'), p', q'') = >>=-eq-ok (ask_all (proof_db ops) d queries) _ q' in
      let (x, r) = ask-Extends db q p in
      let (y, rs) = ask_all-Extends d queries p' in
      subst (λ s. Extends db s × All (Recorded s) (q ∷ queries)) (ap (λ t. t.1) (ok-injective q''))
        (Extends-trans db d d' x y, (Recorded-Extends d d' q y r, rs))

  -- After a run that succeeds, every account, slot, byte code, block number and filter that it asked
  -- for, early or late, is recorded in the state that the proofs are made from.
  pub ask_all-Recorded :
      (db : ProofDb D) (queries : List Query) {answers : List Answer} {db' : ProofDb D}
      → ask_all (proof_db ops) db queries ≡ ok (answers, db')
      → All (Recorded db') queries
  ask_all-Recorded db queries e = (ask_all-Extends db queries e).1
