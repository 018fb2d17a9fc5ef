-- ===== src/Commit/Merkle/Rounds.antt =====
-- The passes of the tree builder: what every leaf's proof folds to after each pass.
use tripwire_launch_auditor.Prelude.{
  ℕ, zero, suc, ◌+◌, ◌*◌, ◌≤◌, ◌<◌, ◌≡◌, refl, sym, ap, ◌∙◌, true, false, some, List, [], ◌∷◌, ◌++◌,
  arith, All, All-append, All-split, length, ltb,
}
use mathlib.Core.List.{append-nil, append_assoc}
use tripwire_launch_auditor.Hex.{
  Hex, hex_eq, hex_eq_iff, Absent, Distinct, Absent-swap, Distinct-split, Absents-split,
}
use tripwire_launch_auditor.Commit.Merkle.{
  Node, Proofs, hash_pair, fold_proof, pushed, push, push_all, round, rounds,
}
use tripwire_launch_auditor.Commit.Merkle.Fold.{
  IsLower, hash_pair-IsLower, hash_pair_comm, fold_proof-append,
}

push_all_frame :
    (g : List Hex) (s : Hex) (ps : Proofs) (a : Hex) → Absent a g → push_all g s ps a ≡ ps a
unfolding push_all push
push_all_frame [] s ps a h = refl
push_all_frame (l ∷ g) s ps a h = push_all_frame g s (push l s ps) a h.1 ∙ ground arith

push_all_frames :
    (g : List Hex) (s : Hex) (ps : Proofs) (bs : List Hex)
    → All (λ a. Absent a g) bs
    → All (λ a. push_all g s ps a ≡ ps a) bs
push_all_frames g s ps [] h = tt
push_all_frames g s ps (b ∷ bs) h = (push_all_frame g s ps b h.0, push_all_frames g s ps bs h.1)

abbrev pub members : List Node → List Hex
members [] = []
members (n ∷ level) = n.group ++ members level

module _ (pair : Hex → Hex → Hex) where
  -- The proof recorded so far folds from the leaf to the node that it flows through.
  abbrev pub Holds : Hex → Proofs → Hex → Type 0
  Holds n ps leaf = (p : List Hex) × (ps leaf ≡ some p) × (fold_proof pair leaf p ≡ n)

  abbrev pub Good : List Node → Proofs → Type 0
  Good [] ps = Unit
  Good (n ∷ level) ps = IsLower n.hash × All (Holds n.hash ps) n.group × Good level ps

  Holds-frame :
      (n : Hex) (ps ps' : Proofs) (g : List Hex)
      → All (λ a. ps' a ≡ ps a) g
      → All (Holds n ps) g
      → All (Holds n ps') g
  Holds-frame n ps ps' [] e h = tt
  Holds-frame n ps ps' (a ∷ g) e ((p, q, f), h) = ((p, e.0 ∙ q, f), Holds-frame n ps ps' g e.1 h)

  push-Holds :
      (n s : Hex) (ps : Proofs) (leaf : Hex)
      → Holds n ps leaf
      → Holds (hash_pair pair n s) (push leaf s ps) leaf
  unfolding push pushed
  push-Holds n s ps leaf (p, q, f) = (
    p ++ s ∷ [],
    rw ((hex_eq_iff leaf leaf).1 refl, q) refl,
    fold_proof-append pair leaf p s ∙ ap (λ x. hash_pair pair x s) f,
  )

  push_all-Holds :
      (n s : Hex) (ps : Proofs) (g : List Hex)
      → Distinct g
      → All (Holds n ps) g
      → All (Holds (hash_pair pair n s) (push_all g s ps)) g
  unfolding push_all
  push_all-Holds n s ps [] d h = tt
  push_all-Holds n s ps (l ∷ g) d h =
      let (p, q, f) = push-Holds n s ps l h.0 in
      (
        (p, push_all_frame g s (push l s ps) l d.0 ∙ q, f),
        push_all-Holds n s (push l s ps) g d.1 (
            Holds-frame n ps (push l s ps) g
              (push_all_frames (l ∷ []) s ps g (Absent-swap (l ∷ []) g (d.0, tt))) h.1),
      )

  Good-frame :
      (level : List Node) (ps ps' : Proofs)
      → All (λ a. ps' a ≡ ps a) (members level)
      → Good level ps
      → Good level ps'
  Good-frame [] ps ps' e g = tt
  Good-frame (n ∷ level) ps ps' e (low, h, g) =
      let (eg, er) = All-split (λ a. ps' a ≡ ps a) n.group (members level) e in
      (low, Holds-frame n.hash ps ps' n.group eg h, Good-frame level ps ps' er g)

  pub members-round :
      (level : List Node) (ps : Proofs) → members (round pair level ps).0 ≡ members level
  unfolding round
  members-round [] ps = refl
  members-round (l ∷ []) ps = refl
  members-round (l ∷ r ∷ rest) ps =
      ap (λ x. (l.group ++ r.group) ++ x)
        (members-round rest (push_all r.group l.hash (push_all l.group r.hash ps)))
      ∙ append_assoc l.group r.group (members rest)

  round_frame :
      (level : List Node) (ps : Proofs) (a : Hex)
      → Absent a (members level)
      → (round pair level ps).1 a ≡ ps a
  unfolding round
  round_frame [] ps a h = refl
  round_frame (l ∷ []) ps a h = refl
  round_frame (l ∷ r ∷ rest) ps a h =
      let (hl, h') = All-split (λ x. hex_eq x a ≡ false) l.group (r.group ++ members rest) h in
      let (hr, hm) = All-split (λ x. hex_eq x a ≡ false) r.group (members rest) h' in
      let ps1 : Proofs = push_all l.group r.hash ps in
      round_frame rest (push_all r.group l.hash ps1) a hm
      ∙ push_all_frame r.group l.hash ps1 a hr
      ∙ push_all_frame l.group r.hash ps a hl

  round_frames :
      (level : List Node) (ps : Proofs) (bs : List Hex)
      → All (λ b. Absent b (members level)) bs
      → All (λ b. (round pair level ps).1 b ≡ ps b) bs
  round_frames level ps [] h = tt
  round_frames level ps (b ∷ bs) h = (round_frame level ps b h.0, round_frames level ps bs h.1)

  -- A pass halves the level, rounding up.
  pub length-round :
      (level : List Node) (ps : Proofs)
      → (length level ≤ 2 * length (round pair level ps).0)
        × (2 * length (round pair level ps).0 ≤ length level + 1)
  unfolding round
  length-round [] ps = omega arith
  length-round (l ∷ []) ps = omega arith
  length-round (l ∷ r ∷ rest) ps =
      omega (arith, length-round rest (push_all r.group l.hash (push_all l.group r.hash ps)))

  module _ (digest : (a b : Hex) → IsLower (pair a b)) where
    pub round-Good :
        (level : List Node) (ps : Proofs)
        → Distinct (members level)
        → Good level ps
        → Good (round pair level ps).0 (round pair level ps).1
    unfolding round
    round-Good [] ps d g = tt
    round-Good (l ∷ []) ps d g = g
    round-Good (l ∷ r ∷ rest) ps d (ll, hl, (lr, hr, g)) =
        let mr : List Hex = members rest in
        let (dl, d', a) = Distinct-split l.group (r.group ++ mr) d in
        let (dr, dm, arm) = Distinct-split r.group mr d' in
        let (alr, alm) = Absents-split l.group r.group mr a in
        let ps1 : Proofs = push_all l.group r.hash ps in
        let ps2 : Proofs = push_all r.group l.hash ps1 in
        let ps3 : Proofs = (round pair rest ps2).1 in
        let n : Hex = hash_pair pair l.hash r.hash in
        let left1 : All (Holds n ps1) l.group = push_all-Holds l.hash r.hash ps l.group dl hl in
        let left2 : All (Holds n ps2) l.group =
          Holds-frame n ps1 ps2 l.group (push_all_frames r.group l.hash ps1 l.group alr) left1 in
        let left3 : All (Holds n ps3) l.group =
          Holds-frame n ps2 ps3 l.group (round_frames rest ps2 l.group alm) left2 in
        let right1 : All (Holds r.hash ps1) r.group =
          Holds-frame r.hash ps ps1 r.group
            (push_all_frames l.group r.hash ps r.group (Absent-swap l.group r.group alr)) hr in
        let right2 : All (Holds n ps2) r.group =
          rw (hash_pair_comm pair l.hash r.hash ll lr)
            (push_all-Holds r.hash l.hash ps1 r.group dr right1) in
        let right3 : All (Holds n ps3) r.group =
          Holds-frame n ps2 ps3 r.group (round_frames rest ps2 r.group arm) right2 in
        let rest1 : Good rest ps1 =
          Good-frame rest ps ps1 (push_all_frames l.group r.hash ps mr (Absent-swap l.group mr alm))
            g in
        let rest2 : Good rest ps2 =
          Good-frame rest ps1 ps2
            (push_all_frames r.group l.hash ps1 mr (Absent-swap r.group mr arm)) rest1 in
        (
          hash_pair-IsLower pair digest l.hash r.hash,
          All-append (Holds n ps3) l.group r.group left3 right3,
          round-Good rest ps2 dm rest2,
        )

    -- With as much fuel as nodes, the loop ends with one node, through which all leaves flow.
    pub rounds-Good :
        (fuel : ℕ) (level : List Node) (ps : Proofs)
        → length level ≤ fuel
        → 0 < length level
        → Distinct (members level)
        → Good level ps
        → (top : Node) × ((rounds pair fuel level ps).0 ≡ top ∷ [])
          × (top.group ≡ members level)
          × All (Holds top.hash (rounds pair fuel level ps).1) top.group
    unfolding rounds
    rounds-Good zero level ps f h d g = absurd (omega arith)
    rounds-Good (suc fuel) [] ps f h d g = absurd (omega arith)
    rounds-Good (suc fuel) (n ∷ []) ps f h d g = (n, refl, sym (append-nil n.group), g.1)
    rounds-Good (suc fuel) (n ∷ m ∷ rest) ps f h d g =
        let level : List Node = n ∷ m ∷ rest in
        let (top, e, q, a) =
          rounds-Good fuel (round pair level ps).0 (round pair level ps).1
            (omega (arith, length-round level ps)) (omega (arith, length-round level ps))
            (rw (members-round level ps) d) (round-Good level ps d g) in
        let more : ltb 1 (length level) ≡ true = ground arith in
        (top, rw more e, q ∙ members-round level ps, rw more a)
