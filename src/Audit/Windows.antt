-- ===== src/Audit/Windows.antt =====
-- A window of entries that are linked as they were appended has no issue.
use instant_grant_core.Prelude.{
  ℕ, zero, suc, ◌+◌, ◌≤◌, ◌<◌, Bool, true, false, not, none, some, List, [], ◌∷◌, Text, text_eq,
  text_eq_sound, text_eq_refl, any, All, keep_if, length, ◌≡◌, refl, subst, inl, inr, ap,
  Bool-cases, arith,
}
use instant_grant_core.Audit.Entry.{AuditEvent}
use instant_grant_core.Audit.Append.{genesis}
use instant_grant_core.Audit.Chain.{
  ChainKind, Walk, has_hash, find_by_hash, is_visited, walk_back, duplicate_issues, is_child,
  child_count, parents, fork_issues, is_external, outside_issues, link_issues, chain_heads,
}
use instant_grant_core.Audit.Verify.{walk_from, walk_issues}

pub text_eq_comm : (s t : Text) → text_eq s t ≡ text_eq t s
text_eq_comm s t = elim (Bool-cases (text_eq s t)) [
  | inl same ↦ rw (text_eq_sound s t same) refl
  | inr other ↦ elim (Bool-cases (text_eq t s)) [
    | inl same ↦ rw (text_eq_sound t s same) refl
    | inr other' ↦ rw (other, other') refl
  ]
]

-- The hash of the newest entry, or what the oldest one names.
abbrev pub top_or : Text → List AuditEvent → Text
top_or z [] = z
top_or z (e ∷ es) = e.entry_hash

find_by_hash-none :
    (h : Text) (es : List AuditEvent) → has_hash h es ≡ false → find_by_hash h es ≡ none
find_by_hash-none h [] absent = refl
find_by_hash-none h (e ∷ es) absent = ground (arith, find_by_hash-none h es)

find_by_hash-first :
    (e : AuditEvent) (es : List AuditEvent)
    → has_hash e.entry_hash es ≡ false
    → find_by_hash e.entry_hash (e ∷ es) ≡ some e
find_by_hash-first e es own =
    rw (find_by_hash-none e.entry_hash es own, text_eq_refl e.entry_hash) refl

length-keep_none {ℓ} :
    {A : Type ℓ} (p : A → Bool) (xs : List A) → any p xs ≡ false → length (keep_if p xs) ≡ 0
length-keep_none p [] h = refl
length-keep_none p (x ∷ xs) h = ground (arith, length-keep_none p xs)

-- A hash that no entry has, seen or visited in front of others that none of them has.
has_hash-All :
    (e : AuditEvent) (seen es : List AuditEvent)
    → has_hash e.entry_hash es ≡ false
    → All (λ f. has_hash f.entry_hash seen ≡ false) es
    → All (λ f. has_hash f.entry_hash (e ∷ seen) ≡ false) es
has_hash-All e seen [] absent h = tt
has_hash-All e seen (f ∷ es) absent (new, h) = (
  ground (arith, text_eq_comm e.entry_hash f.entry_hash),
  has_hash-All e seen es (ground arith) h,
)

visited-All :
    (e : AuditEvent) (visited : List Text) (es : List AuditEvent)
    → has_hash e.entry_hash es ≡ false
    → All (λ f. is_visited f.entry_hash visited ≡ false) es
    → All (λ f. is_visited f.entry_hash (e.entry_hash ∷ visited) ≡ false) es
visited-All e visited [] absent h = tt
visited-All e visited (f ∷ es) absent (new, h) = (
  ground (arith, text_eq_comm e.entry_hash f.entry_hash),
  visited-All e visited es (ground arith) h,
)

All-not_visited : (es : List AuditEvent) → All (λ f. is_visited f.entry_hash [] ≡ false) es
All-not_visited [] = tt
All-not_visited (e ∷ es) = (refl, All-not_visited es)

module _ (kind : ChainKind) where
  open kind use {prev}

  -- From the newest entry on, each names the next; `z` is what the oldest names.
  abbrev pub IsWindow : Text → List AuditEvent → Type 0
  IsWindow z [] = Unit {0}
  IsWindow z (e ∷ es) =
      (prev e ≡ top_or z es)
      × (has_hash e.entry_hash es ≡ false)
      × (text_eq z e.entry_hash ≡ false)
      × (text_eq e.entry_hash genesis ≡ false)
      × IsWindow z es

  top-ne :
      (z h : Text) (es : List AuditEvent)
      → text_eq z h ≡ false
      → has_hash h es ≡ false
      → text_eq (top_or z es) h ≡ false
  top-ne z h [] other absent = other
  top-ne z h (e ∷ es) other absent = ground arith

  -- No entry of a window names a hash that is neither `z` nor an entry's.
  pub no_child :
      (z h : Text) (es : List AuditEvent)
      → IsWindow z es
      → text_eq z h ≡ false
      → has_hash h es ≡ false
      → any (is_child kind h) es ≡ false
  no_child z h [] w other absent = refl
  no_child z h (e ∷ es) (names, own, not_z, not_genesis, w) other absent =
      let older : has_hash h es ≡ false = ground arith in
      let not_named : text_eq (prev e) h ≡ false = rw names (top-ne z h es other older) in
      ground (arith, no_child z h es w other older)

  -- No entry names the newest.
  pub newest_no_child :
      (z : Text) (e : AuditEvent) (es : List AuditEvent)
      → IsWindow z (e ∷ es)
      → any (is_child kind e.entry_hash) (e ∷ es) ≡ false
  newest_no_child z e es (names, absent, other, later, w) =
      let not_named : text_eq (prev e) e.entry_hash ≡ false =
        rw names (top-ne z e.entry_hash es other absent) in
      ground (arith, no_child z e.entry_hash es w other absent)

  -- No two entries name the same.
  child_count-le_one :
      (z h : Text) (es : List AuditEvent) → IsWindow z es → child_count kind h es ≤ 1
  child_count-le_one z h [] w = omega arith
  child_count-le_one z h (e ∷ []) w = ground arith
  child_count-le_one z h (e ∷ f ∷ es) (names, own, not_z, not_genesis, w) =
      elim (Bool-cases (is_child kind h e)) [
        | inr stranger ↦ rw stranger (child_count-le_one z h (f ∷ es) w)
        | inl child ↦
            let same : f.entry_hash ≡ h = text_eq_sound f.entry_hash h (ground (arith, names)) in
            let none_newer : any (is_child kind h) (f ∷ es) ≡ false =
              subst (λ x. any (is_child kind x) (f ∷ es) ≡ false) same (newest_no_child z f es w) in
            rw child (ground (arith, length-keep_none (is_child kind h) (f ∷ es)))
      ]

  fork_issues-none :
      (z : Text) (es : List AuditEvent) (hashes : List Text)
      → IsWindow z es
      → fork_issues kind es hashes ≡ []
  unfolding fork_issues
  fork_issues-none z es [] w = refl
  fork_issues-none z es (h ∷ hashes) w =
      ground (arith, child_count-le_one z h es w, fork_issues-none z es hashes w)

  -- Among the entries of a window's older part only the oldest may name one that is not in it.
  outside_issues-none :
      (z : Text) (window es : List AuditEvent)
      → IsWindow z es
      → ((h : Text) → has_hash h es ≡ true → has_hash h window ≡ true)
      → outside_issues kind (keep_if (is_external kind window) es) ≡ []
  outside_issues-none z window [] w inside = refl
  outside_issues-none z window (e ∷ []) w inside = ground arith
  outside_issues-none z window (e ∷ f ∷ es) (names, own, not_z, not_genesis, w) inside =
      let next : has_hash (prev e) window ≡ true =
        rw names (inside f.entry_hash (ground (arith, text_eq_refl f.entry_hash))) in
      let internal : is_external kind window e ≡ false = ground arith in
      rw internal
        (outside_issues-none z window (f ∷ es) w (λ h there. inside h (ground (arith, there))))

  duplicate_issues-none :
      (z : Text) (seen es : List AuditEvent)
      → IsWindow z es
      → All (λ f. has_hash f.entry_hash seen ≡ false) es
      → duplicate_issues kind seen es ≡ []
  unfolding duplicate_issues
  duplicate_issues-none z seen [] w new = refl
  duplicate_issues-none z seen (e ∷ es) (names, own, not_z, not_genesis, w) (fresh, new) =
      rw fresh (duplicate_issues-none z (e ∷ seen) es w (has_hash-All e seen es own new))

  All-no_hash : (es : List AuditEvent) → All (λ f. has_hash f.entry_hash [] ≡ false) es
  All-no_hash [] = tt
  All-no_hash (e ∷ es) = (refl, All-no_hash es)

  pub link_issues-none :
      (z : Text) (es : List AuditEvent) → IsWindow z es → link_issues kind es ≡ []
  unfolding link_issues
  link_issues-none z es w =
      rw
        (
          duplicate_issues-none z [] es w (All-no_hash es),
          fork_issues-none z es (parents kind es [] es) w,
          outside_issues-none z es es w (λ h there. there),
        )
        refl

  -- Every entry but the newest is named, by the one after it.
  named_heads-none :
      (z : Text) (window : List AuditEvent) (newer : AuditEvent) (es : List AuditEvent)
      → IsWindow z (newer ∷ es)
      → ((h : Text)
          → any (is_child kind h) (newer ∷ es) ≡ true
          → any (is_child kind h) window ≡ true)
      → keep_if (λ e. not (any (is_child kind e.entry_hash) window)) es ≡ []
  named_heads-none z window newer [] w inside = refl
  named_heads-none z window newer (e ∷ es) (names, own, not_z, not_genesis, w) inside =
      let later : text_eq e.entry_hash genesis ≡ false = w.3 in
      let child : is_child kind e.entry_hash newer ≡ true =
        rw (names, later, text_eq_refl e.entry_hash) refl in
      let named : any (is_child kind e.entry_hash) window ≡ true =
        inside e.entry_hash (ground (arith, child)) in
      rw named (named_heads-none z window e es w (λ h there. inside h (ground (arith, there))))

  pub chain_heads-newest :
      (z : Text) (e : AuditEvent) (es : List AuditEvent)
      → IsWindow z (e ∷ es)
      → chain_heads kind (e ∷ es) ≡ e ∷ []
  unfolding chain_heads
  chain_heads-newest z e es w =
      rw (newest_no_child z e es w)
        (ap (λ l. e ∷ l) (named_heads-none z (e ∷ es) e es w (λ h there. there)))

  -- The walk from a window's newest entry, or from a later one on the way.
  walk_back-All :
      (z : Text) (window : List AuditEvent) (fuel : ℕ) (visited : List Text) (oldest e : AuditEvent)
      (es : List AuditEvent)
      → IsWindow z (e ∷ es)
      → ((h : Text) (f : AuditEvent) → find_by_hash h es ≡ some f → find_by_hash h window ≡ some f)
      → find_by_hash z window ≡ none
      → All (λ f. is_visited f.entry_hash visited ≡ false) (e ∷ es)
      → length es < fuel
      → (walk : Walk) × (walk_back kind fuel window visited oldest e ≡ some walk)
        × (walk.came_round ≡ none)
        × (length walk.visited ≡ length visited + length (e ∷ es))
  unfolding walk_back
  walk_back-All z window zero visited oldest e es w inside outside new enough = absurd (omega arith)
  walk_back-All z window (suc fuel) visited oldest e [] (names, own, not_z, not_genesis, w) inside
        outside (fresh, new) enough =
      elim (Bool-cases (text_eq z genesis)) [
        | inl first ↦ rw (fresh, names, first) (_, refl, refl, omega arith)
        | inr later ↦
            let later' : text_eq (prev e) genesis ≡ false = rw names later in
            let gone : find_by_hash (prev e) window ≡ none = rw names outside in
            rw (fresh, later', gone) (_, refl, refl, omega arith)
      ]
  walk_back-All z window (suc fuel) visited oldest e (f ∷ es) (names, own, not_z, not_genesis, w)
        inside outside (fresh, new) enough =
      let before : find_by_hash (prev e) window ≡ some f =
        rw names (inside f.entry_hash f (find_by_hash-first f es w.1)) in
      let later : text_eq (prev e) genesis ≡ false = rw names (w.3) in
      let (walk, ends, straight, all_visited) =
        walk_back-All z window fuel (e.entry_hash ∷ visited) e f es w
          (λ h g there. inside h g (rw there refl)) outside (visited-All e visited (f ∷ es) own new)
          (omega arith) in
      (walk, rw (fresh, later, before) ends, straight, omega arith)

  not_in_window : (z : Text) (es : List AuditEvent) → IsWindow z es → has_hash z es ≡ false
  not_in_window z [] w = refl
  not_in_window z (e ∷ es) (names, own, not_z, not_genesis, w) =
      ground (arith, text_eq_comm z e.entry_hash, not_in_window z es w)

  -- The check of a window finds no issue on the walk from its newest entry.
  pub walk_issues-none :
      (z : Text) (e : AuditEvent) (es : List AuditEvent)
      → IsWindow z (e ∷ es)
      → walk_issues kind (e ∷ es) e (walk_from kind (e ∷ es) e) ≡ []
  walk_issues-none z e es w =
      let (walk, ends, straight, all_visited) =
        walk_back-All z (e ∷ es) (suc (length (e ∷ es))) [] e e es w (λ h f there. rw there refl)
          (find_by_hash-none z (e ∷ es) (not_in_window z (e ∷ es) w)) (All-not_visited (e ∷ es))
          (omega arith) in
      rw (ends, straight) (ground arith)
