-- ===== src/Claim/WellFormed.antt =====
-- What a new claim keeps of a stored record: order, positive times, readable codes and the bound on
-- the history.
use instant_grant_core.Prelude.{
  ℕ, zero, suc, ◌+◌, ◌-◌, ◌≤◌, ◌<◌, min, ◌≡◌, refl, ◌≢◌, inl, inr, Option, none, some, List, [],
  ◌∷◌, ◌++◌, Text, leb, ltb, length, length-append, length-drop, drop, All, All-append, All-drop,
  Bool-cases, arith,
}
use instant_grant_core.Claim.State.{
  ClaimHistoryEntry, PendingClaimEntry, ClaimState, insert_by_at, sort_by_at,
}
use instant_grant_core.Claim.RoundTrip.{IsCode, IsEntry, Sorted, IsStored}
use instant_grant_core.Claim.Availability.{count_from, count_from_whole, count_from-le-length}
use instant_grant_core.Claim.Store.{
  pending_entry, trim_history, push_claim, max_stored_claim_history,
}

module _ {ℓ} (P : ClaimHistoryEntry → Type ℓ) where
  All-insert_by_at :
      (e : ClaimHistoryEntry) (es : List ClaimHistoryEntry)
      → P e
      → All P es
      → All P (insert_by_at e es)
  unfolding insert_by_at
  All-insert_by_at e [] p all = (p, tt)
  All-insert_by_at e (f ∷ fs) p all = elim (Bool-cases (leb e.at f.at)) [
    | inl before ↦ rw before (p, all)
    | inr after ↦ rw after (all.0, All-insert_by_at e fs p all.1)
  ]

  All-sort_by_at : (es : List ClaimHistoryEntry) → All P es → All P (sort_by_at es)
  unfolding sort_by_at
  All-sort_by_at [] all = all
  All-sort_by_at (e ∷ es) all = All-insert_by_at e (sort_by_at es) all.0 (All-sort_by_at es all.1)

All-from :
    (a b : ℕ) (h : List ClaimHistoryEntry) → a ≤ b → All (λ f. b ≤ f.at) h → All (λ f. a ≤ f.at) h
All-from a b [] le all = tt
All-from a b (x ∷ xs) le all = (omega arith, All-from a b xs le all.1)

insert_by_at-Sorted :
    (e : ClaimHistoryEntry) (es : List ClaimHistoryEntry) → Sorted es → Sorted (insert_by_at e es)
unfolding insert_by_at
insert_by_at-Sorted e [] s = (tt, tt)
insert_by_at-Sorted e (f ∷ fs) s = elim (Bool-cases (leb e.at f.at)) [
  | inl before ↦ rw before ((ground arith, All-from e.at f.at fs (ground arith) s.0), s)
  | inr after ↦
      rw after
        (All-insert_by_at (λ g. f.at ≤ g.at) e fs (ground arith) s.0, insert_by_at-Sorted e fs s.1)
]

pub sort_by_at-IsSorted : (es : List ClaimHistoryEntry) → Sorted (sort_by_at es)
unfolding sort_by_at
sort_by_at-IsSorted [] = tt
sort_by_at-IsSorted (e ∷ es) = insert_by_at-Sorted e (sort_by_at es) (sort_by_at-IsSorted es)

drop-Sorted : (n : ℕ) (es : List ClaimHistoryEntry) → Sorted es → Sorted (drop n es)
drop-Sorted zero es s = s
drop-Sorted (suc n) [] s = s
drop-Sorted (suc n) (e ∷ es) s = drop-Sorted n es s.1

length-insert_by_at :
    (e : ClaimHistoryEntry) (es : List ClaimHistoryEntry)
    → length (insert_by_at e es) ≡ suc (length es)
unfolding insert_by_at
length-insert_by_at e [] = refl
length-insert_by_at e (f ∷ fs) = ground (arith, length-insert_by_at e fs)

pub length-sort_by_at : (es : List ClaimHistoryEntry) → length (sort_by_at es) ≡ length es
unfolding sort_by_at
length-sort_by_at [] = refl
length-sort_by_at (e ∷ es) =
    omega (arith, length-insert_by_at e (sort_by_at es), length-sort_by_at es)

pub count_from-insert_by_at :
    (a : ℕ) (e : ClaimHistoryEntry) (es : List ClaimHistoryEntry)
    → count_from a (insert_by_at e es) ≡ count_from a (e ∷ es)
unfolding insert_by_at
count_from-insert_by_at a e [] = refl
count_from-insert_by_at a e (f ∷ fs) = ground (arith, count_from-insert_by_at a e fs)

pub count_from-sort_by_at :
    (a : ℕ) (es : List ClaimHistoryEntry) → count_from a (sort_by_at es) ≡ count_from a es
unfolding sort_by_at
count_from-sort_by_at a [] = refl
count_from-sort_by_at a (e ∷ es) =
    ground (arith, count_from-insert_by_at a e (sort_by_at es), count_from-sort_by_at a es)

pub count_from-append :
    (a : ℕ) (es fs : List ClaimHistoryEntry)
    → count_from a (es ++ fs) ≡ count_from a es + count_from a fs
count_from-append a [] fs = omega arith
count_from-append a (e ∷ es) fs = ground (arith, count_from-append a es fs)

-- Of a history that is oldest first, dropping entries in front drops the oldest.
pub count_from-drop :
    (a n : ℕ) (es : List ClaimHistoryEntry)
    → Sorted es
    → count_from a (drop n es) ≡ min (count_from a es) (length es - n)
count_from-drop a zero es s = omega (arith, count_from-le-length a es)
count_from-drop a (suc n) [] s = omega arith
count_from-drop a (suc n) (e ∷ es) s = elim (Bool-cases (leb a e.at)) [
  | inl inside ↦
      let all = count_from_whole a es (All-from a e.at es (ground arith) s.0) in
      rw inside (omega (arith, all, count_from-drop a n es s.1))
  | inr outside ↦ rw outside (omega (arith, count_from-drop a n es s.1))
]

trim_history-Sorted : (es : List ClaimHistoryEntry) → Sorted es → Sorted (trim_history es)
unfolding trim_history
trim_history-Sorted es s = elim (Bool-cases (ltb max_stored_claim_history (length es))) [
  | inl long ↦ rw long (drop-Sorted (length es - max_stored_claim_history) es s)
  | inr short ↦ rw short s
]

trim_history-All {ℓ} :
    (P : ClaimHistoryEntry → Type ℓ) (es : List ClaimHistoryEntry)
    → All P es
    → All P (trim_history es)
unfolding trim_history
trim_history-All P es all = elim (Bool-cases (ltb max_stored_claim_history (length es))) [
  | inl long ↦ rw long (All-drop P (length es - max_stored_claim_history) es all)
  | inr short ↦ rw short all
]

pub length-trim_history :
    (es : List ClaimHistoryEntry) → length (trim_history es) ≡ min (length es) 500
unfolding trim_history
length-trim_history es = ground (arith, length-drop (length es - 500) es)

pub count_from-trim_history :
    (a : ℕ) (es : List ClaimHistoryEntry)
    → Sorted es
    → count_from a (trim_history es) ≡ min (count_from a es) 500
unfolding trim_history
count_from-trim_history a es s = elim (Bool-cases (ltb max_stored_claim_history (length es))) [
  | inl long ↦ rw long (ground (arith, count_from-drop a (length es - 500) es s))
  | inr short ↦ rw short (ground (arith, count_from-le-length a es))
]

-- A code that `addClaim` is given: none, or one that is trimmed and not empty.
abbrev pub IsIssued : Option Text → Type 0
IsIssued none = Unit {0}
IsIssued (some code) = IsCode code

pending_entry-some :
    (now : ℕ) (code : Option Text) (p : PendingClaimEntry)
    → IsIssued code
    → pending_entry now code ≡ some p
    → (p.at ≡ now) × IsCode p.code
pending_entry-some now none p k e = cc
pending_entry-some now (some code) p k e =
    let same : p.code ≡ code = ground (arith, k.0, k.1) in (ground arith, rw same k)

added-IsEntry :
    (now : ℕ) (code : Option Text)
    → 0 < now
    → IsIssued code
    → IsEntry (record { at = now; code = code })
added-IsEntry now none h k = (h, λ c e. cc)
added-IsEntry now (some c) h k = (h, λ d e. let same : d ≡ c = cc in rw same k)

pub push_claim-nonempty :
    (state : ClaimState) (now : ℕ) (code : Option Text) → (push_claim state now code).history ≢ []
unfolding push_claim
push_claim-nonempty state now code nothing =
    let grown = state.history ++ record { at = now; code = code } ∷ [] in
    let empty : length (trim_history (sort_by_at grown)) ≡ 0 = rw nothing in
    omega (
      arith,
      empty,
      length-trim_history (sort_by_at grown),
      length-sort_by_at grown,
      length-append state.history (record { at = now; code = code } ∷ []),
    )

-- A claim at a positive time, without a code or with a trimmed one, keeps the record well formed:
-- the history oldest first with positive times, a pending entry only beside a claim.
pub push_claim-IsStored :
    (state : ClaimState) (now : ℕ) (code : Option Text)
    → IsStored state
    → 0 < now
    → IsIssued code
    → IsStored (push_claim state now code)
unfolding push_claim
push_claim-IsStored state now code w h k = record {
  entries = trim_history-All IsEntry _ (
      All-sort_by_at IsEntry _
        (All-append IsEntry state.history _ w.entries (added-IsEntry now code h k, tt)));
  sorted = trim_history-Sorted _ (sort_by_at-IsSorted _);
  pending_at = λ p e. omega (arith, (pending_entry-some now code p k e).0);
  pending_code = λ p e. (pending_entry-some now code p k e).1;
  pending_claim = λ p e nothing. absurd (push_claim-nonempty state now code nothing);
}
