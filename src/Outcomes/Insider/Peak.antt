-- ===== src/Outcomes/Insider/Peak.antt =====
-- The peak of the replay, and what the verdict measures against it.
use tripwire_launch_auditor.Prelude.{
  ℕ, zero, suc, ◌+◌, ◌*◌, ◌≤◌, ◌<◌, ◌≡◌, ◌↔◌, ◌⊎◌, inl, inr, refl, Bool, true, false, ◌&&◌, ◌||◌,
  Option, none, some, List, [], ◌∷◌, ◌++◌, length, take, leb, ◌==◌, arith, Bool-cases,
  if◌then◌else◌, ap₂, ◌∙◌,
}
use tripwire_launch_auditor.Hex.{Hex, hex_eq}
use tripwire_launch_auditor.Outcomes.Insider.{
  Transfer, Evidence, Replay, resolved, max_insider_logs, collect, in_order, member, add_if, raised,
  replay_one, replay, at_launch, verdict, resolve_insider_exit,
}
use tripwire_launch_auditor.Outcomes.Insider.Events.{IsChainOrder}
use tripwire_launch_auditor.Outcomes.Insider.Order.{events-IsChainOrder}

-- The address is one of the list's.
pub among : Hex → List Hex → Bool
among a [] = false
among a (x ∷ xs) = hex_eq x a || among a xs

-- The value of the transfers that pass a test.
pub total : (Transfer → Bool) → List Transfer → ℕ
total p [] = 0
total p (e ∷ es) = (if p e then e.value else 0) + total p es

abbrev pub incoming : List Hex → List Transfer → ℕ
incoming cluster = total (λ e. among e.recipient cluster)

abbrev pub outgoing : List Hex → List Transfer → ℕ
outgoing cluster = total (λ e. among e.sender cluster)

-- What the cluster sent to the pool, and what it got from there.
abbrev pub sold_to : List Hex → List Hex → List Transfer → ℕ
sold_to cluster sinks = total (λ e. among e.sender cluster && among e.recipient sinks)

abbrev pub bought_from : List Hex → List Hex → List Transfer → ℕ
bought_from cluster sinks = total (λ e. among e.recipient cluster && among e.sender sinks)

-- After any number of the transfers the cluster holds, which is what came in without what went out, `n`
-- at most, and after some number exactly `n`, or `n` is 0.
abbrev pub IsPeak : List Hex → ℕ → List Transfer → Type 0
IsPeak cluster n es =
    ((k : ℕ) → incoming cluster (take k es) ≤ outgoing cluster (take k es) + n)
    × ((n ≡ 0) ⊎ ((k : ℕ) × (incoming cluster (take k es) ≡ outgoing cluster (take k es) + n)))

member-among : (a : Hex) (xs : List Hex) → member a xs ≡ among a xs
unfolding member among
member-among a [] = refl
member-among a (x ∷ xs) = ground (arith, member-among a xs)

abbrev counted : Bool → ℕ → ℕ
counted b v = if b then v else 0

add_if-counted : (b c : Bool) (v n : ℕ) → b ≡ c → add_if b v n ≡ n + counted c v
unfolding add_if
add_if-counted b c v n e = ground (arith, e)

total_cons :
    (p : Transfer → Bool) (e : Transfer) (es : List Transfer)
    → total p (e ∷ es) ≡ counted (p e) e.value + total p es
unfolding total
total_cons p e es = refl

total_nil : (p : Transfer → Bool) → total p [] ≡ 0
unfolding total
total_nil p = refl

module _ (cluster sinks : List Hex) where
  abbrev after : Transfer → Replay → Replay
  after e r = replay_one cluster sinks e r

  -- What one transfer adds to the sums.
  abbrev Adds : Transfer → Replay → Replay → Type 0
  Adds e r s =
      (s.in_total ≡ r.in_total + counted (among e.recipient cluster) e.value)
      × (s.out_total ≡ r.out_total + counted (among e.sender cluster) e.value)
      × (s.sold ≡ r.sold + counted (among e.sender cluster && among e.recipient sinks) e.value)
      × (s.bought ≡ r.bought + counted (among e.recipient cluster && among e.sender sinks) e.value)

  after-Adds : (e : Transfer) (r : Replay) → Adds e r (after e r)
  unfolding replay_one
  after-Adds e r =
      let a = member-among e.recipient cluster in
      let b = member-among e.sender cluster in
      let c = member-among e.recipient sinks in
      let d = member-among e.sender sinks in
      (
        add_if-counted _ _ e.value r.in_total a,
        add_if-counted _ _ e.value r.out_total b,
        add_if-counted _ _ e.value r.sold (ap₂ (λ x y. x && y) b c),
        add_if-counted _ _ e.value r.bought (ap₂ (λ x y. x && y) a d),
      )

  after_peak :
      (e : Transfer) (r : Replay)
      → let s = after e r in
        (r.peak ≤ s.peak)
        × (s.in_total ≤ s.out_total + s.peak)
        × ((s.peak ≡ r.peak) ⊎ (s.in_total ≡ s.out_total + s.peak))
  unfolding replay_one raised
  after_peak e r = ground arith

  replay-sums :
      (es : List Transfer) (r : Replay)
      → let s = replay cluster sinks es r in
        (s.sold ≡ r.sold + sold_to cluster sinks es)
        × (s.bought ≡ r.bought + bought_from cluster sinks es)
  unfolding replay total
  replay-sums [] r = (omega arith, omega arith)
  replay-sums (e ∷ es) r =
      let (a, b, c, d) = after-Adds e r in
      let (f, g) = replay-sums es (after e r) in (omega (arith, c, f), omega (arith, d, g))

  -- The peak of a replay that starts at some sums.
  abbrev PeakFrom : Replay → ℕ → List Transfer → Type 0
  PeakFrom r n es =
      (r.peak ≤ n)
      × ((k : ℕ)
          → r.in_total + incoming cluster (take k es)
            ≤ r.out_total + outgoing cluster (take k es) + n)
      × ((n ≡ r.peak)
          ⊎ ((k : ℕ) × (r.in_total + incoming cluster (take k es)
                ≡ r.out_total + outgoing cluster (take k es) + n)))

  total_start : (p : Transfer → Bool) (es : List Transfer) → total p (take 0 es) ≡ 0
  unfolding total
  total_start p [] = refl
  total_start p (e ∷ es) = refl

  -- At the end there is nothing left to replay.
  end-PeakFrom : (r : Replay) → r.in_total ≤ r.out_total + r.peak → PeakFrom r r.peak []
  unfolding total
  end-PeakFrom r h = (omega arith, none_left, inl refl)
    where
      none_left :
          (k : ℕ)
          → r.in_total + incoming cluster (take k [])
            ≤ r.out_total + outgoing cluster (take k []) + r.peak
      none_left zero = omega (arith, h)
      none_left (suc k) = omega (arith, h)

  step-PeakFrom :
      (e : Transfer) (es : List Transfer) (r : Replay) (n : ℕ)
      → r.in_total ≤ r.out_total + r.peak
      → PeakFrom (after e r) n es
      → PeakFrom r n (e ∷ es)
  unfolding total
  step-PeakFrom e es r n h (f, g, m) =
      let (i, o, c, d) = after-Adds e r in
      let (a, b, j) = after_peak e r in
      let x = total_start (λ e. among e.recipient cluster) es in
      let y = total_start (λ e. among e.sender cluster) es in
      (
        omega (arith, a, f),
        steps (omega (arith, a, f)) (λ k. omega (arith, g k, i, o)),
        elim m [
          | inl q ↦ elim j [
            | inl u ↦ inl (q ∙ u)
            | inr u ↦ inr (1, omega (arith, q, u, i, o, x, y))
          ]
          | inr (k, q) ↦ inr (suc k, omega (arith, q, i, o))
        ],
      )
    where
      steps :
          r.peak ≤ n
          → ((k : ℕ)
              → r.in_total + incoming cluster (e ∷ take k es)
                ≤ r.out_total + outgoing cluster (e ∷ take k es) + n)
          → (k : ℕ)
          → r.in_total + incoming cluster (take k (e ∷ es))
            ≤ r.out_total + outgoing cluster (take k (e ∷ es)) + n
      steps l t zero = omega (arith, h, l)
      steps l t (suc k) = t k

  replay-PeakFrom :
      (es : List Transfer) (r : Replay)
      → r.in_total ≤ r.out_total + r.peak
      → PeakFrom r (replay cluster sinks es r).peak es
  unfolding replay
  replay-PeakFrom [] r h = end-PeakFrom r h
  replay-PeakFrom (e ∷ es) r h =
      let (a, b, j) = after_peak e r in
      step-PeakFrom e es r (replay cluster sinks es (after e r)).peak h
        (replay-PeakFrom es (after e r) b)

  start-IsPeak : (n : ℕ) (es : List Transfer) → PeakFrom at_launch n es → IsPeak cluster n es
  start-IsPeak n es (f, g, m) =
      (λ k. omega (arith, g k), elim m [ inl q ↦ inl q | inr (k, q) ↦ inr (k, omega (arith, q)) ])

verdict_lem :
    (r : Replay) (n : ℕ)
    → (b : Bool) × (evidence : Option Evidence) × (verdict r n ≡ resolved b evidence)
      × ((b ≡ true) ↔ ((0 < r.peak) × (2 * r.bought + r.peak ≤ 2 * r.sold)))
unfolding verdict
verdict_lem r n = elim (Bool-cases (r.peak == 0)) [
  | inl e ↦ (false, none, rw e refl, ground arith)
  | inr e ↦
      let evidence : Evidence = record {
        peak_holdings = r.peak;
        sold_to_pool = r.sold;
        bought_from_pool = r.bought;
        transfers_replayed = n;
      } in
      (leb (2 * r.bought + r.peak) (2 * r.sold), some evidence, rw e refl, ground arith)
]

-- With fewer logs than the limit and a cluster, the exit is resolved from the first log of each place
-- of both queries that has two addresses, in the order of the chain: it is an exit exactly where twice
-- what the cluster sold to the pool, without twice what it bought there, is the cluster's peak at
-- least and the peak is not 0, and the peak is the most that the cluster ever held.
pub resolve_insider_exit-IsPeak :
    (w : Hex) (wallets sinks : List Hex) (out_logs in_logs : List Transfer)
    → length out_logs < 30_000
    → length in_logs < 30_000
    → let cluster = w ∷ wallets in
      (events : List Transfer) × (peak : ℕ) × (b : Bool) × (evidence : Option Evidence)
      × IsChainOrder (out_logs ++ in_logs) events
      × IsPeak cluster peak events
      × (resolve_insider_exit cluster sinks out_logs in_logs ≡ resolved b evidence)
      × ((b ≡ true) ↔ (
          (0 < peak)
          × (2 * bought_from cluster sinks events + peak ≤ 2 * sold_to cluster sinks events)))
unfolding resolve_insider_exit
resolve_insider_exit-IsPeak w wallets sinks out_logs in_logs h k =
    let cluster : List Hex = w ∷ wallets in
    let events : List Transfer = in_order (collect [] (out_logs ++ in_logs)) in
    let r : Replay = replay cluster sinks events at_launch in
    let few : (leb max_insider_logs (length out_logs) || leb max_insider_logs (length in_logs))
        ≡ false =
      ground arith in
    let (b, evidence, e, f) = verdict_lem r (length events) in
    let (s, t) = replay-sums cluster sinks events at_launch in
    let peak =
      start-IsPeak cluster sinks r.peak events
        (replay-PeakFrom cluster sinks events at_launch (omega arith)) in
    (
      events,
      r.peak,
      b,
      evidence,
      events-IsChainOrder (out_logs ++ in_logs),
      peak,
      rw few e,
      ground (arith, f, s, t),
    )
