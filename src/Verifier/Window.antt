-- ===== src/Verifier/Window.antt =====
-- The window of blocks that `validate_history_window` accepts.
use steel.Prelude.{ℕ, ◌+◌, ◌-◌, ◌^◌, ◌≤◌, ◌<◌, ◌≡◌, ◌↔◌, sym, ap, ◌∙◌, true, ltb, leb, ◌&&◌, arith}
use steel.Outcome.{ok, guard->>, ok-injective}
use steel.Header.{EvmBlockHeader}
use steel.Verifier.{validate_history_window, saturating_to}

module _ {H : Type 0} (ops : EvmBlockHeader H) (header : H) (id windows k : ℕ) where
  accepts :
      ops.number header < 2 ^ 64
      → (ltb (saturating_to id) (ops.number header)
          && leb (ops.number header - saturating_to id) windows)
        ≡ true
      → (saturating_to id ≡ id) × (id < ops.number header) × (ops.number header ≤ id + windows)
  accepts hn h = ground arith

  within :
      id < ops.number header
      → ops.number header < 2 ^ 64
      → ops.number header ≤ id + windows
      → (ltb (saturating_to id) (ops.number header)
          && leb (ops.number header - saturating_to id) windows)
        ≡ true
  within hi hn hw = ground arith

  -- Of a header whose number is a u64, the window accepts a number, whatever its size, exactly if it
  -- is before the header's by at most the window, and then answers that number.
  pub validate_history_window_lem :
      ops.number header < 2 ^ 64
      → (validate_history_window ops header id windows ≡ ok k)
        ↔ ((k ≡ id) × (id < ops.number header) × (ops.number header ≤ id + windows))
  unfolding validate_history_window
  validate_history_window_lem hn = (
    λ e.
        let (inside, same) =
          guard->>
            (ltb (saturating_to id) (ops.number header)
              && leb (ops.number header - saturating_to id) windows)
            _ _ e in
        let (exact, before, near) = accepts hn inside in
        (sym (ok-injective same) ∙ exact, before, near),
    λ h.
        let inside = within (h.1) hn (h.2) in
        let (exact, _, _) = accepts hn inside in rw inside (ap ok (exact ∙ sym (h.0))),
  )
