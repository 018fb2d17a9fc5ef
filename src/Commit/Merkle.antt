-- ===== src/Commit/Merkle.antt =====
-- apps/worker/src/commit/merkle.ts: the sorted-pair Merkle tree over report hashes.
pub mod Fold
pub mod Rounds
pub mod Leaves
pub mod Canonical
pub mod Verifies
pub mod Binding
pub mod Examples
use tripwire_launch_auditor.Prelude.{
  ℕ, zero, suc, Bool, true, false, Option, none, some, List, [], ◌∷◌, ◌++◌, map, length, ltb,
  if◌then◌else◌,
}
use tripwire_launch_auditor.Hex.{Hex, hex_eq, hex_le, to_lower_case}

-- One position of a level: the node, and the original leaves that flow through it
-- (`level[i]` and `groups[i]`).
pub record Node : Type 0 where
  pub hash : Hex
  pub group : List Hex

-- `Map<string, Hex[]>`: `none` for a key that is not set.
abbrev pub Proofs : Type 0
Proofs = Hex → Option (List Hex)

pub record MerkleTree : Type 0 where
  pub root : Hex
  pub leaf_count : ℕ
  pub leaves : List Hex
  pub proofs : Proofs

-- `[...new Set(xs)]` keeps the first of equal entries.
pub contains : Hex → List Hex → Bool
contains a [] = false
contains a (x ∷ xs) = if hex_eq x a then true else contains a xs

pub dedupe_from : List Hex → List Hex → List Hex
unfolding contains
dedupe_from seen [] = []
dedupe_from seen (x ∷ xs) =
    if contains x seen then dedupe_from seen xs else x ∷ dedupe_from (x ∷ seen) xs

insert : Hex → List Hex → List Hex
insert a [] = a ∷ []
insert a (x ∷ xs) = if hex_le a x then a ∷ x ∷ xs else x ∷ insert a xs

pub sort : List Hex → List Hex
unfolding insert
sort [] = []
sort (x ∷ xs) = insert x (sort xs)

-- `for (const l of ordered) proofs.set(l, [])`
start_proofs : List Hex → Proofs
start_proofs [] a = none
start_proofs (l ∷ ls) a = if hex_eq l a then some [] else start_proofs ls a

-- `proofs.get(leaf)!.push(sibling)`
pushed : List Hex → Hex → List Hex
pushed p sibling = p ++ sibling ∷ []

push : Hex → Hex → Proofs → Proofs
unfolding pushed
push leaf sibling ps a =
    if hex_eq leaf a then (elim (ps a) [ none ↦ none | some p ↦ some (pushed p sibling) ]) else ps a

push_all : List Hex → Hex → Proofs → Proofs
push_all [] sibling ps = ps
push_all (leaf ∷ group) sibling ps = push_all group sibling (push leaf sibling ps)

-- `pair a b` stands for `keccak256(concatHex([a, b]))` of viem.
module _ (pair : Hex → Hex → Hex) where
  unfoldable pub hash_pair : Hex → Hex → Hex
  hash_pair a b = if hex_le (to_lower_case a) (to_lower_case b) then pair a b else pair b a

  -- One pass of the `while` loop's body; an odd node is promoted unchanged.
  pub round : List Node → Proofs → List Node × Proofs
  round [] ps = ([], ps)
  round (left ∷ []) ps = (left ∷ [], ps)
  round (left ∷ right ∷ rest) ps =
      let (next, ps') =
        round rest (push_all right.group left.hash (push_all left.group right.hash ps)) in
      (
        record { hash = hash_pair left.hash right.hash; group = left.group ++ right.group } ∷ next,
        ps',
      )

  -- `while (level.length > 1)`; the fuel is the number of leaves.
  pub rounds : ℕ → List Node → Proofs → List Node × Proofs
  rounds zero level ps = (level, ps)
  rounds (suc fuel) level ps =
      let more = (let (next, ps') = round level ps in rounds fuel next ps') in
      if ltb 1 (length level) then more else (level, ps)

  abbrev finish : List Hex → List Node × Proofs → Option MerkleTree
  finish ordered ([], ps) = none
  finish ordered (top ∷ rest, ps) =
      some (record { root = top.hash; leaf_count = length ordered; leaves = ordered; proofs = ps })

  leaf_node : Hex → Node
  leaf_node l = record { hash = l; group = l ∷ [] }

  pub tree_of : List Hex → Option MerkleTree
  unfolding rounds round leaf_node start_proofs
  tree_of ordered =
      finish ordered (rounds (length ordered) (map leaf_node ordered) (start_proofs ordered))

  -- `none` is the thrown "no leaves".
  pub build_merkle_tree : List Hex → Option MerkleTree
  unfolding sort dedupe_from tree_of
  build_merkle_tree leaves = tree_of (sort (dedupe_from [] (map to_lower_case leaves)))

  unfoldable pub fold_proof : Hex → List Hex → Hex
  fold_proof computed [] = computed
  fold_proof computed (sibling ∷ proof) = fold_proof (hash_pair computed sibling) proof

  unfoldable pub verify_proof : Hex → List Hex → Hex → Bool
  unfolding fold_proof
  verify_proof leaf proof root =
      hex_eq (to_lower_case (fold_proof (to_lower_case leaf) proof)) (to_lower_case root)
