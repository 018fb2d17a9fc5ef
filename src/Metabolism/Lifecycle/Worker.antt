-- ===== src/Metabolism/Lifecycle/Worker.antt =====
-- The worker's own check of its entries, of apps/worker/src/metabolism/lifecycle.ts.
use tripwire_launch_auditor.Prelude.{String, ◌≡◌, refl, true, List, [], ◌∷◌, arith}
use tripwire_launch_auditor.Hex.{Hex, hex_eq_iff}
use tripwire_launch_auditor.Metabolism.Lifecycle.{
  LifecycleBody, LifecycleEntry, LifecycleEntryInput, fields_of, genesis_hash,
  build_lifecycle_entry, chain_from, verify_lifecycle_chain,
}

module _ (hash : LifecycleBody → Hex) where
  -- A log: each entry built on the one before.
  build_from : Hex → List (LifecycleEntryInput × String) → List LifecycleEntry
  build_from prev [] = []
  build_from prev ((input, time) ∷ rest) =
      let e = build_lifecycle_entry hash input time prev in e ∷ build_from e.body_hash rest

  chain_from-build_from :
      (prev : Hex) (log : List (LifecycleEntryInput × String))
      → chain_from hash prev (build_from prev log) ≡ true
  unfolding build_from chain_from build_lifecycle_entry
  chain_from-build_from prev [] = refl
  chain_from-build_from prev ((input, time) ∷ rest) =
      let h : Hex = hash (record { fields = fields_of input time; prev_hash = prev }) in
      ground (arith, hex_eq_iff prev prev, hex_eq_iff h h, chain_from-build_from h rest)

  -- A log that is built entry on entry from the genesis hash is accepted by the worker's check.
  verify_lifecycle_chain-build_from :
      (log : List (LifecycleEntryInput × String))
      → verify_lifecycle_chain hash (build_from genesis_hash log) ≡ true
  unfolding verify_lifecycle_chain
  verify_lifecycle_chain-build_from log = chain_from-build_from genesis_hash log
