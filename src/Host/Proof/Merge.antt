-- ===== src/Host/Proof/Merge.antt =====
-- crates/steel/src/host/db/proof.rs, `ProofDb::merge`: the union of what two runs recorded.
use steel.Prelude.{
  ℕ, B256, Bool, true, false, Option, none, some, List, [], ◌∷◌, ◌++◌, ◌&&◌, ◌||◌, if◌then◌else◌,
  bytes_eq,
}
use steel.Prelude.Maps.{HashSet, set_eq, add_number}
use steel.Outcome.{Outcome, ok, ◌>>=◌}
use steel.Platform.{Filter}
use steel.Host.Proof.{ProofDb, merge_checked_maps, account_proof_eq}

unfoldable pub option_eq : Option B256 → Option B256 → Bool
option_eq none none = true
option_eq (some a) (some b) = bytes_eq a b
option_eq _ _ = false

unfoldable pub topics_eq : List HashSet → List HashSet → Bool
unfolding set_eq
topics_eq [] [] = true
topics_eq (a ∷ x) (b ∷ y) = set_eq a b && topics_eq x y
topics_eq _ _ = false

-- `==` of filters, whose addresses and topics are hash sets
unfoldable pub filter_eq : Filter → Filter → Bool
unfolding option_eq topics_eq set_eq
filter_eq a b =
    option_eq a.block_hash b.block_hash
    && (set_eq a.address b.address && topics_eq a.topics b.topics)

unfoldable pub contains_filter : Filter → List Filter → Bool
unfolding filter_eq
contains_filter f [] = false
contains_filter f (g ∷ filters) = filter_eq g f || contains_filter f filters

-- `collect::<HashSet<_>>()` of the filters
unfoldable pub dedup : List Filter → List Filter
unfolding contains_filter
dedup [] = []
dedup (f ∷ filters) = let rest = dedup filters in if contains_filter f rest then rest else f ∷ rest

-- `HashSet::extend`
unfoldable pub extend : List ℕ → List ℕ → List ℕ
unfolding add_number
extend s [] = s
extend s (n ∷ numbers) = extend (add_number n s) numbers

module _ {D : Type 0} where
  unfoldable pub merge : ProofDb D → ProofDb D → Outcome (ProofDb D)
  unfolding merge_checked_maps account_proof_eq set_eq extend dedup
  merge self other = do
    accounts ← merge_checked_maps set_eq self.accounts other.accounts
    contracts ← merge_checked_maps bytes_eq self.contracts other.contracts
    proofs ← merge_checked_maps account_proof_eq self.proofs other.proofs
    ok (record {
      accounts = accounts;
      contracts = contracts;
      block_hash_numbers = extend self.block_hash_numbers other.block_hash_numbers;
      log_filters = dedup (self.log_filters ++ other.log_filters);
      proofs = proofs;
      inner = self.inner;
    })
