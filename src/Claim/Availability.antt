-- ===== src/Claim/Availability.antt =====
-- When a refused subject may claim again: what `nextAvailableAt` promises and what holds then.
use instant_grant_core.Prelude.{
  ℕ, zero, suc, ◌+◌, ◌-◌, ◌≤◌, ◌<◌, ◌≡◌, refl, inl, inr, true, false, Option, none, some, List, [],
  ◌∷◌, leb, length, get_elem?, keep_if, All, Bool-cases, subst, arith,
}
use instant_grant_core.Claim.State.{ClaimHistoryEntry}
use instant_grant_core.Claim.RoundTrip.{Sorted}
use instant_grant_core.Claim.Quota.{ClaimPolicy, window_ms, in_window, available_after, quota_of}

abbrev pub limited_policy : ℕ → ℕ → ClaimPolicy
limited_policy days most = record {
  claim_interval_days = days;
  max_claims_per_interval = some most;
}

-- How many entries are not older than `a`.
abbrev pub count_from : ℕ → List ClaimHistoryEntry → ℕ
count_from a history = length (keep_if (λ e. leb a e.at) history)

get_elem?-keep_if :
    (a b i : ℕ) (h : List ClaimHistoryEntry) (e : ClaimHistoryEntry)
    → All (λ f. b ≤ f.at) h
    → get_elem? (keep_if (λ f. leb a f.at) h) i ≡ some e
    → (a ≤ e.at) × (b ≤ e.at)
get_elem?-keep_if a b i [] e all h = cc
get_elem?-keep_if a b zero (x ∷ xs) e all h = ground (arith, get_elem?-keep_if a b 0 xs e all.1)
get_elem?-keep_if a b (suc i) (x ∷ xs) e all h =
    ground (arith, get_elem?-keep_if a b (suc i) xs e all.1, get_elem?-keep_if a b i xs e all.1)

pub count_from_whole :
    (a : ℕ) (h : List ClaimHistoryEntry) → All (λ f. a ≤ f.at) h → count_from a h ≡ length h
count_from_whole a [] all = refl
count_from_whole a (x ∷ xs) all = ground (arith, count_from_whole a xs all.1)

pub count_from-le-length : (a : ℕ) (h : List ClaimHistoryEntry) → count_from a h ≤ length h
count_from-le-length a [] = omega arith
count_from-le-length a (x ∷ xs) = ground (arith, count_from-le-length a xs)

All-weaken :
    (a b : ℕ) (h : List ClaimHistoryEntry) → a ≤ b → All (λ f. b ≤ f.at) h → All (λ f. a ≤ f.at) h
All-weaken a b [] le all = tt
All-weaken a b (x ∷ xs) le all = (omega arith, All-weaken a b xs le all.1)

count_at_head :
    (a : ℕ) (x : ClaimHistoryEntry) (xs : List ClaimHistoryEntry)
    → a ≤ x.at
    → All (λ f. x.at ≤ f.at) xs
    → (count_from a (x ∷ xs) ≤ count_from x.at (x ∷ xs) + 0)
      × (count_from (x.at + 1) (x ∷ xs) + 0 + 1 ≤ count_from a (x ∷ xs))
count_at_head a x xs h all =
    let whole = count_from_whole x.at xs all in
    let within = count_from_whole a xs (All-weaken a x.at xs h all) in
    let younger = count_from-le-length (x.at + 1) xs in
    let sup : leb a x.at ≡ true = ground arith in
    let self : leb x.at x.at ≡ true = ground arith in
    let next : leb (x.at + 1) x.at ≡ false = ground arith in
    rw (sup, self, next) (omega (arith, whole, within, younger))

-- The entry at position `i` of the window: as many entries as the rest of the window are not older
-- than it, and fewer are younger.
count_at :
    (a i : ℕ) (h : List ClaimHistoryEntry) (e : ClaimHistoryEntry)
    → Sorted h
    → get_elem? (keep_if (λ f. leb a f.at) h) i ≡ some e
    → (count_from a h ≤ count_from e.at h + i) × (count_from (e.at + 1) h + i + 1 ≤ count_from a h)
count_at a i [] e s h = cc
count_at a zero (x ∷ xs) e s h = elim (Bool-cases (leb a x.at)) [
  | inl inside ↦
      let same : x ≡ e = ground arith in
      subst
        (λ f.
          (count_from a (x ∷ xs) ≤ count_from f.at (x ∷ xs) + 0)
          × (count_from (f.at + 1) (x ∷ xs) + 0 + 1 ≤ count_from a (x ∷ xs)))
        same (count_at_head a x xs (ground arith) s.0)
  | inr outside ↦
      let found : get_elem? (keep_if (λ f. leb a f.at) xs) 0 ≡ some e = ground arith in
      ground (arith, count_at a 0 xs e s.1 found, get_elem?-keep_if a x.at 0 xs e s.0 found)
]
count_at a (suc i) (x ∷ xs) e s h = elim (Bool-cases (leb a x.at)) [
  | inl inside ↦
      let found : get_elem? (keep_if (λ f. leb a f.at) xs) i ≡ some e = ground arith in
      ground (arith, count_at a i xs e s.1 found, get_elem?-keep_if a x.at i xs e s.0 found)
  | inr outside ↦
      let found : get_elem? (keep_if (λ f. leb a f.at) xs) (suc i) ≡ some e = ground arith in
      ground
        (arith, count_at a (suc i) xs e s.1 found, get_elem?-keep_if a x.at (suc i) xs e s.0 found)
]

retry_counts :
    (w now most t : ℕ) (h : List ClaimHistoryEntry) (e : ClaimHistoryEntry)
    → Sorted h
    → most ≤ count_from (now - w) h
    → get_elem? (keep_if (λ f. leb (now - w) f.at) h) (count_from (now - w) h - most) ≡ some e
    → t ≡ e.at + w
    → (most ≤ count_from (t - w) h) × (count_from (t + 1 - w) h < most)
retry_counts w now most t h e s full found at =
    let counts = count_at (now - w) (count_from (now - w) h - most) h e s found in
    let here : t - w ≡ e.at = omega arith in
    let next : t + 1 - w ≡ e.at + 1 = omega arith in rw (here, next) (omega (arith, counts))

-- `available_after` names a time only for an entry that is there.
available_after-some :
    (w t : ℕ) (o : Option ClaimHistoryEntry)
    → available_after w o ≡ some t
    → (e : ClaimHistoryEntry) × (o ≡ some e) × (t ≡ e.at + w)
available_after-some w t none h = cc
available_after-some w t (some e) h = (e, refl, ground arith)

-- With a limit, whenever a history that is oldest first yields a time `nextAvailableAt`, a claim is
-- still refused at that very millisecond and is allowed at the next one, if none is added.
pub next_available_at-exact :
    (days most now t : ℕ) (history : List ClaimHistoryEntry)
    → Sorted history
    → (quota_of (limited_policy days most) history now).next_available_at ≡ some t
    → ((quota_of (limited_policy days most) history t).can_claim_now ≡ false)
      × ((quota_of (limited_policy days most) history (t + 1)).can_claim_now ≡ true)
unfolding quota_of in_window
next_available_at-exact days most now t history s h =
    let w = window_ms days in
    let full : most ≤ count_from (now - w) history = ground arith in
    let named =
      available_after-some w t
        (get_elem? (keep_if (λ f. leb (now - w) f.at) history)
          (count_from (now - w) history - most))
        (ground arith) in
    ground (arith, retry_counts w now most t history named.0 s full named.1 named.2)
