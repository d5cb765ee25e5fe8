-- ===== src/Graph/Retention.antt =====
-- internal/graph/retention.go: the batches of `Prune` and the settings of `RunJanitor`. The graph is
-- an argument: a state, and what each of the fixed queries does to it.
pub mod Batches
use ripestream.Base.{
  ℕ, zero, suc, ◌+◌, ◌<◌, Bool, true, false, ◌||◌, List, [], ◌∷◌, Option, none, some, ltb,
  if◌then◌else◌,
}
use ripestream.Base.Int.{ℤ, pos, leb_ℤ, ltb_ℤ, pos_part}

pub data PruneError : Type 0 where
  invalid_cutoff : PruneError
  invalid_batch_size : PruneError
  context_done : PruneError
  prune_query : PruneError

-- A round of `pruneBatches`: the context is done, the query fails, or it deletes some.
pub data Answer : Type 0 where
  done : Answer
  failed : Answer
  deleted : ℕ → Answer

-- The result of a category: the graph, the deletions counted, and the error.
pub record Pruned {ℓ} (S : Type ℓ) : Type ℓ where
  pub graph : S
  pub total : ℕ
  pub error : Option PruneError

pub record PruneStats : Type 0 where
  pub relationships : ℕ
  pub nodes : ℕ

abbrev pub max_prune_batches : ℕ
max_prune_batches = 100

-- The batch size of `RunJanitor`.
unfoldable pub janitor_batch_size : ℤ → ℤ
janitor_batch_size n = if ltb_ℤ n (pos 100) || ltb_ℤ (pos 10000) n then pos 1000 else n

-- The guards of `Prune`.
unfoldable pub check_prune : ℤ → ℤ → Option PruneError
check_prune cutoff batch_size =
    if leb_ℤ cutoff (pos 0)
    then some invalid_cutoff
    else if ltb_ℤ batch_size (pos 1) || ltb_ℤ (pos 10000) batch_size
    then some invalid_batch_size
    else none

module _ {ℓ} {S : Type ℓ} where
  abbrev pub pruned : S → ℕ → Option PruneError → Pruned S
  pruned s n e = record { graph = s; total = n; error = e }

  -- `pruneBatches`, with the batches that are left.
  unfoldable pub prune_batches : (S → S × Answer) → ℕ → ℕ → S → ℕ → Pruned S
  prune_batches query batch_size zero s total = pruned s total none
  prune_batches query batch_size (suc left) s total = elim (query s).1 [
    | done ↦ pruned s total (some context_done)
    | failed ↦ pruned (query s).0 total (some prune_query)
    | deleted n ↦
        let rest = prune_batches query batch_size left (query s).0 (total + n) in
        if ltb n batch_size then pruned (query s).0 (total + n) none else rest
  ]

  -- A loop of `Prune` over its queries: it ends at the first error, without counting what the
  -- failing category has deleted.
  unfoldable pub prune_loop : List (S → S × Answer) → ℕ → S → ℕ → Pruned S
  prune_loop [] batch_size s out = pruned s out none
  prune_loop (query ∷ queries) batch_size s out =
      let r = prune_batches query batch_size max_prune_batches s 0 in
      let rest = prune_loop queries batch_size r.graph (out + r.total) in
      elim r.error [ none ↦ rest | some e ↦ pruned r.graph out (some e) ]

  -- `Prune`: the relationships, then the nodes that are left without any.
  unfoldable pub prune :
      List (S → S × Answer) → List (S → S × Answer) → ℤ → ℤ → S → S × PruneStats × Option PruneError
  prune relations nodes cutoff batch_size s = checked (check_prune cutoff batch_size)
    where
      swept : Pruned S → Pruned S → S × PruneStats × Option PruneError
      swept rels ns = elim rels.error [
        | some e ↦ (rels.graph, record { relationships = rels.total; nodes = 0 }, some e)
        | none ↦ (ns.graph, record { relationships = rels.total; nodes = ns.total }, ns.error)
      ]

      checked : Option PruneError → S × PruneStats × Option PruneError
      checked (some e) = (s, record { relationships = 0; nodes = 0 }, some e)
      checked none =
          let rels = prune_loop relations (pos_part batch_size) s 0 in
          swept rels (prune_loop nodes (pos_part batch_size) rels.graph 0)
