-- ===== src/Audit/Walks.antt =====
-- The walk over a window of the audit log ends, whatever the rows hold.
use instant_grant_core.Prelude.{
  ℕ, zero, suc, ◌+◌, ◌≤◌, ◌<◌, true, false, not, some, List, [], ◌∷◌, Text, text_eq, text_eq_sound,
  text_eq_refl, keep_if, length, length-keep_if-le, ◌≡◌, refl, inl, inr, Bool-cases, Option-cases,
  arith,
}
use instant_grant_core.Audit.Entry.{AuditEvent}
use instant_grant_core.Audit.Append.{genesis}
use instant_grant_core.Audit.Chain.{ChainKind, Walk, has_hash, find_by_hash, is_visited, walk_back}
use instant_grant_core.Audit.Verify.{walk_from}

find_by_hash-has_hash :
    (hash : Text) (es : List AuditEvent) (e : AuditEvent)
    → find_by_hash hash es ≡ some e
    → has_hash e.entry_hash es ≡ true
find_by_hash-has_hash hash [] e h = cc
find_by_hash-has_hash hash (f ∷ es) e h = elim (Option-cases (find_by_hash hash es)) [
  | inr (g, there) ↦ ground (arith, there, find_by_hash-has_hash hash es g there)
  | inl gone ↦ elim (Bool-cases (text_eq f.entry_hash hash)) [
    | inl here ↦ ground (arith, gone, here, text_eq_refl f.entry_hash)
    | inr other ↦ ground (arith, gone, other)
  ]
]

-- The entries that a walk has not visited.
abbrev left : List Text → List AuditEvent → ℕ
left visited es = length (keep_if (λ e. not (is_visited e.entry_hash visited)) es)

left-visit-le :
    (h : Text) (visited : List Text) (es : List AuditEvent)
    → left (h ∷ visited) es ≤ left visited es
left-visit-le h visited [] = omega arith
left-visit-le h visited (e ∷ es) = ground (arith, left-visit-le h visited es)

-- A visit to an entry of the window leaves fewer.
left-visit :
    (h : Text) (visited : List Text) (es : List AuditEvent)
    → has_hash h es ≡ true
    → is_visited h visited ≡ false
    → left (h ∷ visited) es < left visited es
left-visit h visited [] inside new = cc
left-visit h visited (e ∷ es) inside new = elim (Bool-cases (text_eq e.entry_hash h)) [
  | inl here ↦
      let same : e.entry_hash ≡ h = text_eq_sound e.entry_hash h here in
      let new' : is_visited e.entry_hash visited ≡ false = rw same new in
      let here' : is_visited e.entry_hash (h ∷ visited) ≡ true = rw (same, text_eq_refl h) refl in
      ground (arith, left-visit-le h visited es)
  | inr other ↦ ground (arith, left-visit h visited es)
]

module _ (kind : ChainKind) (window : List AuditEvent) where
  -- Enough fuel is one step more than the entries that are left.
  walk_back-ends :
      (fuel : ℕ) (visited : List Text) (oldest current : AuditEvent)
      → has_hash current.entry_hash window ≡ true
      → left visited window < fuel
      → length visited + left visited window ≤ length window
      → (walk : Walk) × (walk_back kind fuel window visited oldest current ≡ some walk)
        × (length walk.visited ≤ length window)
  unfolding walk_back
  walk_back-ends zero visited oldest current inside enough once = absurd (omega arith)
  walk_back-ends (suc fuel) visited oldest current inside enough once =
      elim (Bool-cases (is_visited current.entry_hash visited)) [
        | inl again ↦ rw again (_, refl, omega arith)
        | inr new ↦
            let fewer = left-visit current.entry_hash visited window inside new in
            elim (Bool-cases (text_eq (kind.prev current) genesis)) [
              | inl first ↦ rw (new, first) (_, refl, omega arith)
              | inr later ↦ elim (Option-cases (find_by_hash (kind.prev current) window)) [
                | inl gone ↦ rw (new, later, gone) (_, refl, omega arith)
                | inr (before, there) ↦
                    rw (new, later, there)
                      (walk_back-ends fuel (current.entry_hash ∷ visited) current before
                        (find_by_hash-has_hash (kind.prev current) window before there)
                        (omega arith) (omega arith))
              ]
            ]
      ]

  -- The walk of a check ends, from any entry of any window, whatever hashes the entries have and
  -- name, and visits no more hashes than the window has entries.
  pub walk_from-ends :
      (head : AuditEvent)
      → has_hash head.entry_hash window ≡ true
      → (walk : Walk) × (walk_from kind window head ≡ some walk)
        × (length walk.visited ≤ length window)
  walk_from-ends head inside =
      let fits : left [] window ≤ length window =
        length-keep_if-le (λ e. not (is_visited e.entry_hash [])) window in
      walk_back-ends (suc (length window)) [] head head inside (omega arith) (omega arith)
