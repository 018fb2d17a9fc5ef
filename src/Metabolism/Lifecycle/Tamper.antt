-- ===== src/Metabolism/Lifecycle/Tamper.antt =====
-- What the last hash of a linked run says of all its rows.
use tripwire_launch_auditor.Prelude.{
  ◌≡◌, sym, ap, subst, ◌∙◌, Option, none, some, List, [], ◌∷◌, length, arith,
}
use tripwire_launch_auditor.Hex.{Hex}
use tripwire_launch_auditor.Metabolism.Lifecycle.{
  LifecycleBody, LifecycleChainRow, body_of, or_genesis, genesis_hash,
}
use tripwire_launch_auditor.Metabolism.Lifecycle.Linked.{IsHashed, IsLinked}

-- Two previous hashes are the same text, or one is null and the other the genesis hash, or both null.
abbrev pub SamePrevious : Option Hex → Option Hex → Type 0
SamePrevious none none = Unit
SamePrevious none (some b) = genesis_hash ≡ b
SamePrevious (some a) none = a ≡ genesis_hash
SamePrevious (some a) (some b) = a ≡ b

-- What two rows stand for, row by row: every field, the time included, and the previous hash.
abbrev pub SameBodies : List LifecycleChainRow → List LifecycleChainRow → Type 0
SameBodies [] [] = Unit
SameBodies [] (s ∷ ss) = ⊥
SameBodies (r ∷ rs) [] = ⊥
SameBodies (r ∷ rs) (s ∷ ss) =
    (r.fields ≡ s.fields) × SamePrevious r.prev_hash s.prev_hash × SameBodies rs ss

same_previous : (a b : Option Hex) → or_genesis a ≡ or_genesis b → SamePrevious a b
unfolding or_genesis
same_previous none none e = tt
same_previous none (some b) e = e
same_previous (some a) none e = e
same_previous (some a) (some b) e = e

same_body :
    (r s : LifecycleChainRow)
    → body_of r ≡ body_of s
    → (r.fields ≡ s.fields) × SamePrevious r.prev_hash s.prev_hash
unfolding body_of
same_body r s e = (
  ap (λ (x : LifecycleBody). x.fields) e,
  same_previous r.prev_hash s.prev_hash (ap (λ (x : LifecycleBody). x.prev_hash) e),
)

abbrev pub last_hash : List LifecycleChainRow → Option Hex
last_hash [] = none
last_hash (r ∷ []) = r.body_hash
last_hash (r ∷ s ∷ rows) = last_hash (s ∷ rows)

module _ (hash : LifecycleBody → Hex) where
  -- No row of the first run collides with the row of the second at its place.
  abbrev pub NoCollision : List LifecycleChainRow → List LifecycleChainRow → Type 0
  NoCollision [] ss = Unit
  NoCollision (r ∷ rs) [] = Unit
  NoCollision (r ∷ rs) (s ∷ ss) =
      (hash (body_of r) ≡ hash (body_of s) → body_of r ≡ body_of s) × NoCollision rs ss

  hashed_same :
      (r s : LifecycleChainRow)
      → (hash (body_of r) ≡ hash (body_of s) → body_of r ≡ body_of s)
      → IsHashed hash r
      → IsHashed hash s
      → r.body_hash ≡ s.body_hash
      → body_of r ≡ body_of s
  hashed_same r s c h k e =
      let q : some (hash (body_of r)) ≡ some (hash (body_of s)) = h ∙ e ∙ sym k in c cc

  -- Rows that name the hashes of two rows, and stand for the same, name the same hash.
  named :
      (r s : LifecycleChainRow) (a b : Hex)
      → some a ≡ r.prev_hash
      → some b ≡ s.prev_hash
      → SamePrevious r.prev_hash s.prev_hash
      → a ≡ b
  named r s a b p q e =
      subst (λ y. SamePrevious (some a) y) (sym q)
        (subst (λ x. SamePrevious x s.prev_hash) (sym p) e)

  hashed_rows :
      (r s : LifecycleChainRow)
      → (hash (body_of r) ≡ hash (body_of s) → body_of r ≡ body_of s)
      → IsHashed hash r
      → IsHashed hash s
      → r.body_hash ≡ s.body_hash
      → (r.fields ≡ s.fields) × SamePrevious r.prev_hash s.prev_hash
  hashed_rows r s c h k e = same_body r s (hashed_same r s c h k e)

  -- Two linked runs of the same length with the same last hash agree in every field of every row,
  -- and in the hash of the row before it, where a missing one counts as the genesis hash. No two
  -- bodies at the same place collide.
  pub last_hash-SameBodies :
      (rs ss : List LifecycleChainRow)
      → length rs ≡ length ss
      → NoCollision rs ss
      → IsLinked hash rs
      → IsLinked hash ss
      → last_hash rs ≡ last_hash ss
      → SameBodies rs ss
  last_hash-SameBodies [] [] n c h k e = tt
  last_hash-SameBodies [] (s ∷ ss) n c h k e = absurd (omega (arith, n))
  last_hash-SameBodies (r ∷ rs) [] n c h k e = absurd (omega (arith, n))
  last_hash-SameBodies (r ∷ []) (s ∷ []) n c h k e =
      let (f, p) = hashed_rows r s c.0 h k e in (f, p, tt)
  last_hash-SameBodies (r ∷ []) (s ∷ t ∷ ss) n c h k e = absurd (omega (arith, n))
  last_hash-SameBodies (r ∷ q ∷ rs) (s ∷ []) n c h k e = absurd (omega (arith, n))
  last_hash-SameBodies (r ∷ q ∷ rs) (s ∷ t ∷ ss) n c (hr, lr, ir) (hs, ls, is) e =
      let rest = last_hash-SameBodies (q ∷ rs) (t ∷ ss) (omega (arith, n)) c.1 ir is e in
      let same =
        named q t (hash (body_of r)) (hash (body_of s)) (hr ∙ sym lr) (hs ∙ sym ls) rest.1 in
      let (f, p) = same_body r s (c.0 same) in (f, p, rest)
