-- ===== src/Commit/Merkle/Verifies.antt =====
-- The builder against the verifier: every report of a batch has a proof, and its proof verifies.
use tripwire_launch_auditor.Prelude.{
  suc, ◌<◌, ◌≡◌, refl, ap, ◌∙◌, true, some, List, [], ◌∷◌, arith, map, All, length,
}
use tripwire_launch_auditor.Hex.{Hex, hex_eq, hex_eq_iff, to_lower_case, Distinct}
use tripwire_launch_auditor.Hex.Order.{to_lower_case_idem}
use tripwire_launch_auditor.Commit.Merkle.{
  Node, Proofs, MerkleTree, contains, start_proofs, leaf_node, rounds, finish, tree_of,
  build_merkle_tree, fold_proof, verify_proof,
}
use tripwire_launch_auditor.Commit.Merkle.Fold.{IsLower}
use tripwire_launch_auditor.Commit.Merkle.Rounds.{members, Holds, Good, rounds-Good}
use tripwire_launch_auditor.Commit.Merkle.Leaves.{All-contains}
use tripwire_launch_auditor.Commit.Merkle.Canonical.{
  ordered, ordered-Distinct, ordered-IsLower, given-ordered, build-ordered,
}

module _ (pair : Hex → Hex → Hex) where
  members-leaf_node : (ls : List Hex) → members (map (leaf_node pair) ls) ≡ ls
  unfolding leaf_node
  members-leaf_node [] = refl
  members-leaf_node (l ∷ ls) = ap (◌∷◌ l) (members-leaf_node ls)

  length-leaf_node : (ls : List Hex) → length (map (leaf_node pair) ls) ≡ length ls
  length-leaf_node [] = refl
  length-leaf_node (l ∷ ls) = ap suc (length-leaf_node ls)

  start_Good :
      (ps : Proofs) (ls : List Hex)
      → All IsLower ls
      → All (λ l. ps l ≡ some []) ls
      → Good pair (map (leaf_node pair) ls) ps
  unfolding leaf_node fold_proof
  start_Good ps [] low h = tt
  start_Good ps (l ∷ ls) low h = (low.0, (([], h.0, refl), tt), start_Good ps ls low.1 h.1)

started-tail :
    (l : Hex) (ls bs : List Hex)
    → All (λ b. start_proofs ls b ≡ some []) bs
    → All (λ b. start_proofs (l ∷ ls) b ≡ some []) bs
unfolding start_proofs
started-tail l ls [] h = tt
started-tail l ls (b ∷ bs) h = (ground arith, started-tail l ls bs h.1)

started : (ls : List Hex) → All (λ l. start_proofs ls l ≡ some []) ls
unfolding start_proofs
started [] = tt
started (l ∷ ls) = (rw (hex_eq_iff l l).1 refl, started-tail l ls ls (started ls))

-- What the verifier accepts of a tree, for one report hash as it was given.
abbrev pub Accepted : (Hex → Hex → Hex) → MerkleTree → Hex → Type 0
Accepted pair t leaf =
    (p : List Hex) × (t.proofs (to_lower_case leaf) ≡ some p)
    × (verify_proof pair leaf p t.root ≡ true)

contains-length : (a : Hex) (o : List Hex) → contains a o ≡ true → 0 < length o
unfolding contains
contains-length a [] h = cc
contains-length a (x ∷ o) h = omega arith

some-ordered : (leaves : List Hex) → 0 < length leaves → 0 < length (ordered leaves)
some-ordered [] h = absurd (omega arith)
some-ordered (l ∷ ls) h =
    contains-length (to_lower_case l) (ordered (l ∷ ls)) (given-ordered (l ∷ ls)).0

module _ (pair : Hex → Hex → Hex) (digest : (a b : Hex) → IsLower (pair a b)) where
  abbrev tree_at : List Hex → Node → Proofs → MerkleTree
  tree_at o top ps = record { root = top.hash; leaf_count = length o; leaves = o; proofs = ps }

  finish_one :
      (o : List Hex) (r : List Node × Proofs) (top : Node)
      → r.0 ≡ top ∷ []
      → finish pair o r ≡ some (tree_at o top r.1)
  finish_one o r top e = rw (e, finish) refl

  tree_of-Holds :
      (o : List Hex)
      → 0 < length o
      → Distinct o
      → All IsLower o
      → (t : MerkleTree) × (tree_of pair o ≡ some t) × All (Holds pair t.root t.proofs) o
  unfolding tree_of
  tree_of-Holds o h d low =
      let r : List Node × Proofs =
        rounds pair (length o) (map (leaf_node pair) o) (start_proofs o) in
      let (top, e, g, a) =
        rounds-Good pair digest (length o) (map (leaf_node pair) o) (start_proofs o)
          (omega (arith, length-leaf_node pair o)) (omega (arith, length-leaf_node pair o))
          (rw (members-leaf_node pair o) d) (start_Good pair (start_proofs o) o low (started o)) in
      let q : top.group ≡ o = g ∙ members-leaf_node pair o in
      (tree_at o top r.1, finish_one o r top e, rw q at a)

  Holds-Accepted :
      (t : MerkleTree) (o leaves : List Hex)
      → All (Holds pair t.root t.proofs) o
      → All (λ l. contains (to_lower_case l) o ≡ true) leaves
      → All (Accepted pair t) leaves
  unfolding verify_proof
  Holds-Accepted t o [] h c = tt
  Holds-Accepted t o (l ∷ ls) h c =
      let (p, q, f) = All-contains (Holds pair t.root t.proofs) (to_lower_case l) o h c.0 in
      (
        (p, q, rw f ((hex_eq_iff (to_lower_case t.root) (to_lower_case t.root)).1 refl)),
        Holds-Accepted t o ls h c.1,
      )

  -- Every nonempty batch has a tree, and each of its report hashes, in the letter case in which it
  -- was given, has a recorded proof that the verifier accepts against the root. The pair hash gives
  -- lower-case digests.
  pub build_merkle_tree-verifies :
      (leaves : List Hex)
      → 0 < length leaves
      → (t : MerkleTree) × (build_merkle_tree pair leaves ≡ some t) × All (Accepted pair t) leaves
  build_merkle_tree-verifies leaves h =
      let (t, e, a) =
        tree_of-Holds (ordered leaves) (some-ordered leaves h) (ordered-Distinct leaves)
          (ordered-IsLower leaves) in
      (
        t,
        build-ordered pair leaves ∙ e,
        Holds-Accepted t (ordered leaves) leaves a (given-ordered leaves),
      )

-- The verifier lowers the leaf itself.
pub verify_proof-lower :
    (pair : Hex → Hex → Hex) (leaf : Hex) (p : List Hex) (root : Hex)
    → verify_proof pair (to_lower_case leaf) p root ≡ verify_proof pair leaf p root
unfolding verify_proof
verify_proof-lower pair leaf p root =
    ap (λ l. hex_eq (to_lower_case (fold_proof pair l p)) (to_lower_case root))
      (to_lower_case_idem leaf)
