-- ===== src/Graph/Retention/Batches.antt =====
-- How much one category deletes.
use ripestream.Base.{
  ℕ, zero, suc, ◌+◌, ◌-◌, ◌*◌, ◌<◌, ◌≤◌, min, false, ◌≡◌, ◌∙◌, none, ltb, arith, inl, inr,
  Bool-cases, ap,
}
use ripestream.Base.Int.{ℤ, pos, leb_ℤ}
use ripestream.Graph.Retention.{
  Answer, deleted, pruned, prune_batches, check_prune, janitor_batch_size,
}

-- A category of the graph as the number of its stale entries; a query deletes a batch of them.
abbrev pub delete_batch : ℕ → ℕ → ℕ × Answer
delete_batch batch_size stale = (stale - batch_size, deleted (min stale batch_size))

pruned_eq : (s t m n : ℕ) → s ≡ t → m ≡ n → pruned s m none ≡ pruned t n none
pruned_eq s t m n p q = ap (λ x. pruned x m none) p ∙ ap (λ x. pruned t x none) q

-- On a server that answers every query, and with a batch size above 0, the loop deletes the stale entries
-- of a category up to the batches that it may use, counts exactly those, and reports no error.
pub prune_batches-min :
    (batch_size left stale total : ℕ)
    → 0 < batch_size
    → prune_batches (delete_batch batch_size) batch_size left stale total
      ≡ pruned (stale - left * batch_size) (total + min stale (left * batch_size)) none
unfolding prune_batches
prune_batches-min b zero stale total p = pruned_eq _ _ _ _ (omega arith) (omega arith)
prune_batches-min b (suc left) stale total p = elim (Bool-cases (ltb (min stale b) b)) [
  | inl last ↦
      let few : stale < b = ground arith in
      rw last (pruned_eq _ _ _ _ (omega (arith, few)) (omega (arith, few)))
  | inr more ↦
      let full : b ≤ stale = ground arith in
      rw more (
        prune_batches-min b left (stale - b) (total + min stale b) p
        ∙ pruned_eq _ _ _ _ (omega (arith, full)) (omega (arith, full)))
]

-- With a cutoff above 0, `Prune` accepts the batch size that `RunJanitor` gives it, whatever the setting.
pub check_prune-janitor_batch_size :
    (cutoff n : ℤ) → leb_ℤ cutoff (pos 0) ≡ false → check_prune cutoff (janitor_batch_size n) ≡ none
unfolding check_prune janitor_batch_size
check_prune-janitor_batch_size cutoff n h = ground arith
