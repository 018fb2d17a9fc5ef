-- ===== src/Metabolism/Lifecycle/Linked.antt =====
-- The flag `linked`, against an independent description.
use tripwire_launch_auditor.Prelude.{
  ℕ, ◌+◌, ◌≡◌, ◌≢◌, ◌↔◌, refl, Bool, true, false, Option, none, some, List, [], ◌∷◌, ◌++◌, arith,
}
use tripwire_launch_auditor.Hex.{Hex, hex_eq_iff}
use tripwire_launch_auditor.Metabolism.Lifecycle.{
  LifecycleBody, LifecycleChainRow, Scan, body_of, same_hash, link_ok, note, see, first_break,
  is_none, body_ok, scan, at_start, verify_lifecycle_rows,
}

same_hash_iff : (a b : Option Hex) → (same_hash a b ≡ true) ↔ (a ≡ b)
unfolding same_hash
same_hash_iff none none = ground arith
same_hash_iff none (some b) = ground arith
same_hash_iff (some a) none = ground arith
same_hash_iff (some a) (some b) = ground (arith, hex_eq_iff a b)

module _ (hash : LifecycleBody → Hex) where
  -- The row's hash is that of its body.
  abbrev pub IsHashed : LifecycleChainRow → Type 0
  IsHashed r = some (hash (body_of r)) ≡ r.body_hash

  -- Every row is hashed and names the hash of the row before it.
  abbrev pub IsLinked : List LifecycleChainRow → Type 0
  IsLinked [] = Unit
  IsLinked (r ∷ []) = IsHashed r
  IsLinked (r ∷ s ∷ rows) = IsHashed r × (s.prev_hash ≡ r.body_hash) × IsLinked (s ∷ rows)

  abbrev Follows : Option (Option Hex) → LifecycleChainRow → Type 0
  Follows none r = Unit
  Follows (some before) r = r.prev_hash ≡ before

  abbrev IsLinkedFrom : Option (Option Hex) → List LifecycleChainRow → Type 0
  IsLinkedFrom before [] = Unit
  IsLinkedFrom before (r ∷ rows) =
      Follows before r × IsHashed r × IsLinkedFrom (some r.body_hash) rows

  -- The loop's flags agree: `linked` is set exactly while there is neither a break nor a fork.
  abbrev Agrees : Scan → Type 0
  Agrees s = (s.linked ≡ true) ↔ ((s.broken_at ≡ none) × (s.forks ≡ []))

  forks-nonempty : (xs : List ℕ) (i : ℕ) → xs ++ i ∷ [] ≢ []
  forks-nonempty [] i e = cc
  forks-nonempty (x ∷ xs) i e = cc

  note-Agrees :
      (i : ℕ) (r : LifecycleChainRow) (b l : Bool) (s : Scan) → Agrees s → Agrees (note i r b l s)
  unfolding note first_break
  note-Agrees i r false l s h = ground (arith, h)
  note-Agrees i r true true s h = h
  note-Agrees i r true false s h = ground (arith, h, forks-nonempty s.forks i)

  scan-Agrees :
      (i : ℕ) (before : Option (Option Hex)) (rows : List LifecycleChainRow) (s : Scan)
      → Agrees s
      → Agrees (scan hash i before rows s)
  unfolding scan
  scan-Agrees i before [] s h = h
  scan-Agrees i before (r ∷ rows) s h =
      let s' : Scan = note i r (body_ok hash r) (link_ok before r) s in
      scan-Agrees (i + 1) (some r.body_hash) rows (record s' { seen = see r.body_hash s'.seen })
        (note-Agrees i r (body_ok hash r) (link_ok before r) s h)

  note_linked :
      (i : ℕ) (r : LifecycleChainRow) (b l : Bool) (s : Scan)
      → ((note i r b l s).linked ≡ true) ↔ ((s.linked ≡ true) × (b ≡ true) × (l ≡ true))
  unfolding note
  note_linked i r false l s = ground arith
  note_linked i r true true s = ground arith
  note_linked i r true false s = ground arith

  link_ok_iff :
      (before : Option (Option Hex)) (r : LifecycleChainRow)
      → (link_ok before r ≡ true) ↔ Follows before r
  unfolding link_ok
  link_ok_iff none r = ground arith
  link_ok_iff (some before) r = same_hash_iff r.prev_hash before

  body_ok_iff : (r : LifecycleChainRow) → (body_ok hash r ≡ true) ↔ IsHashed r
  unfolding body_ok
  body_ok_iff r = same_hash_iff (some (hash (body_of r))) r.body_hash

  scan_linked :
      (i : ℕ) (before : Option (Option Hex)) (rows : List LifecycleChainRow) (s : Scan)
      → ((scan hash i before rows s).linked ≡ true) ↔ ((s.linked ≡ true) × IsLinkedFrom before rows)
  unfolding scan
  scan_linked i before [] s = (λ e. (e, tt), λ h. h.0)
  scan_linked i before (r ∷ rows) s =
      let s' : Scan = note i r (body_ok hash r) (link_ok before r) s in
      let (f, g) =
        scan_linked (i + 1) (some r.body_hash) rows
          (record s' { seen = see r.body_hash s'.seen }) in
      let (h, k) = note_linked i r (body_ok hash r) (link_ok before r) s in
      (
        λ e.
            let (p, q) = f e in
            let (a, b, c) = h p in (a, ((link_ok_iff before r).0 c, (body_ok_iff r).0 b, q)),
        λ (a, (c, b, q)). g (k (a, (body_ok_iff r).1 b, (link_ok_iff before r).1 c), q),
      )

  from_IsLinked : (rows : List LifecycleChainRow) → IsLinkedFrom none rows ↔ IsLinked rows
  from_IsLinked [] = (λ h. h, λ h. h)
  from_IsLinked (r ∷ []) = (λ h. h.1, λ h. (tt, h, tt))
  from_IsLinked (r ∷ s ∷ rows) =
      let (f, g) = from_IsLinked (s ∷ rows) in
      (
        λ (a, b, (c, d, e)). (b, c, f (tt, d, e)),
        λ (b, c, h). let (a, d, e) = g h in (tt, b, (c, d, e)),
      )

  -- The flags of a run of rows: `linked` is set exactly where every row's hash is that of its body
  -- and every later row names the hash of the row before it, and exactly where the run is intact
  -- and has no fork.
  pub verify_lifecycle_rows-IsLinked :
      (rows : List LifecycleChainRow)
      → let c = verify_lifecycle_rows hash rows in
        ((c.linked ≡ true) ↔ IsLinked rows)
        × ((c.linked ≡ true) ↔ ((c.intact ≡ true) × (c.forks ≡ [])))
  unfolding verify_lifecycle_rows is_none
  verify_lifecycle_rows-IsLinked rows =
      let (f, g) = scan_linked 0 none rows at_start in
      let (h, k) = from_IsLinked rows in
      (
        (λ e. h (f e).1, λ v. g (refl, k v)),
        ground (arith, scan-Agrees 0 none rows at_start (ground arith)),
      )
