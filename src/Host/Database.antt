-- ===== src/Host/Database.antt =====
-- What a run of the EVM asks of its database: revm's `Database` and the crate's `EvmDatabase`.
use steel.Prelude.{ℕ, Bytes, B256, Address, List, Option}
use steel.Prelude.{[], ◌∷◌}
use steel.Outcome.{Outcome, ok, ◌>>=◌}
use steel.Platform.{AccountInfo, Filter, Log}

pub record Database (D : Type 0) : Type 0 where
  pub basic : D → Address → Outcome (Option AccountInfo × D)
  pub code_by_hash : D → B256 → Outcome (Bytes × D)
  pub storage : D → Address → ℕ → Outcome (ℕ × D)
  pub block_hash : D → ℕ → Outcome (B256 × D)
  pub logs : D → Filter → Outcome (List Log × D)

pub data Query : Type 0 where
  basic : Address → Query
  code_by_hash : B256 → Query
  storage : Address → ℕ → Query
  block_hash : ℕ → Query
  logs : Filter → Query

pub data Answer : Type 0 where
  info : Option AccountInfo → Answer
  code : Bytes → Answer
  value : ℕ → Answer
  hash : B256 → Answer
  found : List Log → Answer

module _ {D : Type 0} (ops : Database D) where
  unfoldable pub ask : D → Query → Outcome (Answer × D)
  ask d (Query.basic a) = do (i, d') ← ops.basic d a; ok (info i, d')
  ask d (Query.code_by_hash h) = do (c, d') ← ops.code_by_hash d h; ok (code c, d')
  ask d (Query.storage a i) = do (v, d') ← ops.storage d a i; ok (value v, d')
  ask d (Query.block_hash n) = do (h, d') ← ops.block_hash d n; ok (hash h, d')
  ask d (Query.logs f) = do (l, d') ← ops.logs d f; ok (found l, d')

  -- a run, as the queries it makes one after the other
  unfoldable pub ask_all : D → List Query → Outcome (List Answer × D)
  unfolding ask
  ask_all d [] = ok ([], d)
  ask_all d (q ∷ queries) = do
    (a, d') ← ask d q
    (answers, d'') ← ask_all d' queries
    ok (a ∷ answers, d'')
