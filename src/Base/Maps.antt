-- ===== src/Base/Maps.antt =====
-- Finite maps over native keys as functions: one entry is updated at a time.
use etcs.Base.{ℕ, ◌≡◌, ◌≢◌, arith, sym, ap, subst, ◌∙◌, ℕ_discrete, ◌==◌, if◌then◌else◌}

module _ {ℓ} {A : Type ℓ} where
  unfoldable pub update : (ℕ → A) → ℕ → A → ℕ → A
  update f i v j = if i == j then v else f j

  pub update_self : (f : ℕ → A) (i : ℕ) (v : A) → update f i v i ≡ v
  unfolding update
  update_self f i v = ground arith

  pub update_ne : (f : ℕ → A) (i j : ℕ) (v : A) → i ≢ j → update f i v j ≡ f j
  unfolding update
  update_ne f i j v h = ground arith

  -- What holds of the new entry and of the old ones holds of every entry.
  pub update_all {κ} :
      (P : A → Type κ) (f : ℕ → A) (i : ℕ) (v : A)
      → P v
      → ((j : ℕ) → P (f j))
      → (j : ℕ) → P (update f i v j)
  update_all P f i v new old j = elim (ℕ_discrete i j) [
    | yes e ↦ subst P (sym (update_self f i v) ∙ ap (update f i v) e) new
    | no ne ↦ subst P (sym (update_ne f i j v ne)) (old j)
  ]
