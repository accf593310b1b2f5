-- ===== src/Inventory/Scatter/Counts.antt =====
-- What the summary counts, and which leaves are ok.
use container_patterns.Common.{
  ℕ, ◌+◌, ◌<◌, ◌≤◌, ◌≡◌, refl, ◌↔◌, inl, inr, Bool, true, false, ◌||◌, Option, List, [], ◌∷◌, arith,
  Bytes, length, select, Bool-cases, ltb, leb,
}
use container_patterns.Inventory.Scatter.{
  Partial, Meta, LeafCall, bad_request, timed_out, call_failed, unreadable, answered,
  failed_partial, call_leaf, tally, tally_all, summarize,
}

tally_all_counts :
    (ps : List Partial) (m : Meta)
    → ((tally_all ps m).scattered ≡ m.scattered)
      × ((tally_all ps m).succeeded ≡ m.succeeded + length (select (λ p. p.ok) ps))
      × ((tally_all ps m).failed + length (select (λ p. p.ok) ps) ≡ m.failed + length ps)
unfolding tally_all select
tally_all_counts [] m = (refl, omega arith, omega arith)
tally_all_counts (p ∷ ps) m = elim (Bool-cases p.ok) [
  | inl good ↦
      let (a, b, c) = tally_all_counts ps (tally true m) in
      rw good (a, omega (arith, b), omega (arith, c))
  | inr bad ↦
      let (a, b, c) = tally_all_counts ps (tally false m) in
      rw bad (a, omega (arith, b), omega (arith, c))
]

-- In the summary, `scattered` is the number of partials, `succeeded` that of the ones that are ok, and
-- `succeeded` and `failed` add up to all of them.
pub summarize_counts :
    (ps : List Partial)
    → ((summarize ps).scattered ≡ length ps)
      × ((summarize ps).succeeded ≡ length (select (λ p. p.ok) ps))
      × ((summarize ps).succeeded + (summarize ps).failed ≡ length ps)
unfolding summarize
summarize_counts ps =
    let (a, b, c) =
      tally_all_counts ps (record { scattered = length ps; succeeded = 0; failed = 0 }) in
    (a, omega (arith, b), omega (arith, b, c))

-- A leaf counts as ok exactly if it answered with a 2xx status and valid JSON. Whatever happens, the
-- partial names the leaf and how long the call took.
pub call_leaf_ok :
    (valid : Bytes → Bool) (probe : Bytes → Option Bytes) (ep : Bytes) (latency : ℕ) (c : LeafCall)
    → let p = call_leaf valid probe ep latency c in
      ((p.ok ≡ true)
        ↔ (status : ℕ) × (body : Bytes) × (c ≡ answered status body)
          × (200 ≤ status)
          × (status < 300)
          × (valid body ≡ true))
      × (p.endpoint ≡ ep)
      × (p.latency_ms ≡ latency)
unfolding call_leaf failed_partial
call_leaf_ok valid probe ep latency (bad_request e) = ((λ h. cc, λ h. cc), refl, refl)
call_leaf_ok valid probe ep latency timed_out = ((λ h. cc, λ h. cc), refl, refl)
call_leaf_ok valid probe ep latency (call_failed e) = ((λ h. cc, λ h. cc), refl, refl)
call_leaf_ok valid probe ep latency (unreadable status e) = ((λ h. cc, λ h. cc), refl, refl)
call_leaf_ok valid probe ep latency (answered status body) =
    elim (Bool-cases (ltb status 200 || leb 300 status)) [
      | inl bad ↦ rw bad ((λ h. cc, λ (st, b, e, lo, hi, v). ranged st (cc) lo hi bad), refl, refl)
      | inr good ↦ elim (Bool-cases (valid body)) [
        | inl json ↦
            rw (good, json)
              ((λ h. (status, body, refl, ground arith, ground arith, json), λ h. refl), refl, refl)
        | inr text ↦ rw (good, text) ((λ h. cc, λ (st, b, e, lo, hi, v). cc), refl, refl)
      ]
    ]
  where
    ranged :
        (st : ℕ)
        → status ≡ st
        → 200 ≤ st
        → st < 300
        → (ltb status 200 || leb 300 status) ≡ true
        → false ≡ true
    ranged st e lo hi bad = ground arith
