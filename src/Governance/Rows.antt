-- ===== src/Governance/Rows.antt =====
-- Rows of proposals: who has approved them, and how sorting and choosing keep that.
use instant_grant_core.Governance.Reading.{
  parse_approval, merge_approval, merge_approvals, parsed_row,
}
use instant_grant_core.Governance.ReadingLaws.{parsed_row-unanimous, parse_status-executed}
use instant_grant_core.Prelude.{
  sym, ap, refl, ltb, is_empty, text_eq, trim, ℕ, ◌≡◌, refl, subst, inl, inr, Bool, true, false,
  ◌||◌, not, some, List, [], ◌∷◌, Text, text_eq, text_eq_refl, text_eq_sound, all, keep_if, leb,
  All, All-append, Bool-cases, arith,
}
use instant_grant_core.Governance.Proposal.{
  Approval, is_executed, Proposal, includes, has_approved, is_unanimous, insert_newest,
  newest_first, insert_approval, sort_approvals,
}
use instant_grant_core.Governance.Process.{first, choose, approved_by}

module _ {ℓ} (P : Approval → Type ℓ) where
  All-insert_approval :
      (a : Approval) (bs : List Approval) → P a → All P bs → All P (insert_approval a bs)
  unfolding insert_approval
  All-insert_approval a [] p h = (p, tt)
  All-insert_approval a (b ∷ rest) p h = elim (Bool-cases (leb a.approved_at b.approved_at)) [
    | inl before ↦ rw before (p, h)
    | inr after ↦ rw after (h.0, All-insert_approval a rest p h.1)
  ]

  pub All-sort_approvals : (bs : List Approval) → All P bs → All P (sort_approvals bs)
  unfolding sort_approvals
  All-sort_approvals [] h = h
  All-sort_approvals (a ∷ bs) h =
      All-insert_approval a (sort_approvals bs) h.0 (All-sort_approvals bs h.1)

module _ {ℓ} (P : Proposal → Type ℓ) where
  All-insert_newest :
      (p : Proposal) (ps : List Proposal) → P p → All P ps → All P (insert_newest p ps)
  unfolding insert_newest
  All-insert_newest p [] h all = (h, tt)
  All-insert_newest p (q ∷ qs) h all = elim (Bool-cases (leb q.created_at p.created_at)) [
    | inl before ↦ rw before (h, all)
    | inr after ↦ rw after (all.0, All-insert_newest p qs h all.1)
  ]

  pub All-newest_first : (ps : List Proposal) → All P ps → All P (newest_first ps)
  unfolding newest_first
  All-newest_first [] all = all
  All-newest_first (p ∷ ps) all =
      All-insert_newest p (newest_first ps) all.0 (All-newest_first ps all.1)

  pub All-keep_if :
      (test : Proposal → Bool) (ps : List Proposal)
      → All P ps
      → All (λ p. P p × (test p ≡ true)) (keep_if test ps)
  All-keep_if test [] all = tt
  All-keep_if test (p ∷ ps) all = elim (Bool-cases (test p)) [
    | inl kept ↦ rw kept ((all.0, kept), All-keep_if test ps all.1)
    | inr left ↦ rw left (All-keep_if test ps all.1)
  ]

  All-kept : (test : Proposal → Bool) (ps : List Proposal) → All P ps → All P (keep_if test ps)
  All-kept test [] all = tt
  All-kept test (p ∷ ps) all = elim (Bool-cases (test p)) [
    | inl kept ↦ rw kept (all.0, All-kept test ps all.1)
    | inr left ↦ rw left (All-kept test ps all.1)
  ]

  first-All : (ps : List Proposal) (p : Proposal) → All P ps → first ps ≡ some p → P p
  first-All [] p all h = cc
  first-All (q ∷ qs) p all h = let same : q ≡ p = cc in subst P same all.0

  pub choose-All :
      (ids : List Text) (ps : List Proposal) (p : Proposal)
      → All P ps
      → choose ids ps ≡ some p
      → P p
  choose-All [] ps p all h = first-All ps p all h
  choose-All (id ∷ ids) ps p all h = first-All _ p (All-kept _ ps all) h

pub includes-cons :
    (id a : Text) (ids : List Text) → includes id ids ≡ true → includes id (a ∷ ids) ≡ true
includes-cons id a ids h = ground arith

-- Every approval is by one of the actors, under its trimmed id, and an executed proposal has all that it requires.
abbrev pub ByActors : List Text → Approval → Type 0
ByActors actors a = (includes a.actor_id actors ≡ true) × (trim a.actor_id ≡ a.actor_id)

pub record IsRow (actors : List Text) (p : Proposal) : Type 0 where
  pub approvals : All (ByActors actors) p.approvals
  pub complete : (not (is_executed p.status) || is_unanimous p) ≡ true

ByActors-cons :
    (actor : Text) (actors : List Text) (bs : List Approval)
    → All (ByActors actors) bs
    → All (ByActors (actor ∷ actors)) bs
ByActors-cons actor actors [] h = tt
ByActors-cons actor actors (b ∷ bs) h =
    ((includes-cons b.actor_id actor actors h.0.0, h.0.1), ByActors-cons actor actors bs h.1)

pub IsRow-cons :
    (actor : Text) (actors : List Text) (p : Proposal) → IsRow actors p → IsRow (actor ∷ actors) p
IsRow-cons actor actors p h = record {
  approvals = ByActors-cons actor actors p.approvals h.approvals;
  complete = h.complete;
}

pub approved_by-IsRow :
    (actor : Text) (actors : List Text) (now : ℕ) (p : Proposal)
    → trim actor ≡ actor
    → is_executed p.status ≡ false
    → IsRow actors p
    → IsRow (actor ∷ actors) (approved_by actor now p)
unfolding approved_by
approved_by-IsRow actor actors now p clean open_still h = record {
  approvals = All-sort_approvals (ByActors (actor ∷ actors)) _ (
      All-append (ByActors (actor ∷ actors)) p.approvals _
        (ByActors-cons actor actors p.approvals h.approvals)
        (((rw (text_eq_refl actor)), clean), tt));
  complete = rw open_still;
}

all-includes :
    (test : Text → Bool) (ids : List Text) (id : Text)
    → all test ids ≡ true
    → includes id ids ≡ true
    → test id ≡ true
all-includes test [] id h asked = cc
all-includes test (j ∷ ids) id h asked = elim (Bool-cases (text_eq j id)) [
  | inl same ↦
      let e : j ≡ id = text_eq_sound j id same in subst (λ x. test x ≡ true) e (ground arith)
  | inr other ↦
      all-includes test ids id (ground arith)
        (let f : includes id (j ∷ ids) ≡ includes id ids = rw other refl in cc)
]

has_approved-actor :
    (actors : List Text) (bs : List Approval) (id : Text)
    → All (ByActors actors) bs
    → has_approved id bs ≡ true
    → includes id actors ≡ true
has_approved-actor actors [] id h approved = cc
has_approved-actor actors (b ∷ bs) id h approved = elim (Bool-cases (text_eq b.actor_id id)) [
  | inl same ↦ subst (λ x. includes x actors ≡ true) (text_eq_sound b.actor_id id same) h.0.0
  | inr other ↦
      has_approved-actor actors bs id h.1
        (let f : has_approved id (b ∷ bs) ≡ has_approved id bs = rw other refl in cc)
]

-- Whoever an executed proposal of an honest row requires is an actor.
pub IsRow-approver :
    (actors : List Text) (p : Proposal) (id : Text)
    → IsRow actors p
    → is_executed p.status ≡ true
    → includes id p.required_approver_ids ≡ true
    → includes id actors ≡ true
IsRow-approver actors p id row done asked =
    let unanimous : is_unanimous p ≡ true = rw done at row.complete in
    has_approved-actor actors p.approvals id row.approvals
      (all-includes (λ id. has_approved id p.approvals) p.required_approver_ids id unanimous asked)

-- A parsed approval is by the same actor.
merge_approval-ByActors :
    (actors : List Text) (a : Approval) (merged : List Approval)
    → ByActors actors a
    → All (ByActors actors) merged
    → All (ByActors actors) (merge_approval a merged)
unfolding merge_approval
merge_approval-ByActors actors a [] here h = (here, tt)
merge_approval-ByActors actors a (b ∷ rest) here h =
    elim (Bool-cases (text_eq b.actor_id a.actor_id)) [
      | inl same ↦ elim (Bool-cases (ltb b.approved_at a.approved_at)) [
        | inl later ↦ rw (same, later) (here, h.1)
        | inr earlier ↦ rw (same, earlier) h
      ]
      | inr other ↦ rw other (h.0, merge_approval-ByActors actors a rest here h.1)
    ]

merge_approvals-ByActors :
    (actors : List Text) (merged bs : List Approval)
    → All (ByActors actors) merged
    → All (ByActors actors) bs
    → All (ByActors actors) (merge_approvals merged bs)
unfolding merge_approvals parse_approval
merge_approvals-ByActors actors merged [] h k = h
merge_approvals-ByActors actors merged (b ∷ bs) h k =
    elim (Bool-cases (is_empty (trim b.actor_id))) [
      | inl blank ↦ rw blank (merge_approvals-ByActors actors merged bs h k.1)
      | inr there ↦
          let b' : Approval = record { actor_id = trim b.actor_id; approved_at = b.approved_at } in
          let here : ByActors actors b' =
            (subst (λ x. includes x actors ≡ true) (sym k.0.1) k.0.0, ap trim k.0.1) in
          rw there (
            merge_approvals-ByActors actors (merge_approval b' merged) bs
              (merge_approval-ByActors actors b' merged here h) k.1)
    ]

ByActors-clean :
    (actors : List Text) (bs : List Approval)
    → All (ByActors actors) bs
    → All (λ b. trim b.actor_id ≡ b.actor_id) bs
ByActors-clean actors [] h = tt
ByActors-clean actors (b ∷ bs) h = (h.0.1, ByActors-clean actors bs h.1)

-- What is read of an honest row is honest.
pub parsed_row-IsRow :
    (actors : List Text) (p : Proposal) → IsRow actors p → IsRow actors (parsed_row p)
parsed_row-IsRow actors p row = record {
  approvals =
      All-sort_approvals (ByActors actors) _
        (merge_approvals-ByActors actors [] p.approvals tt row.approvals);
  complete = elim (Bool-cases (is_executed p.status)) [
    | inl done ↦
        let all_in : is_unanimous p ≡ true = rw done at row.complete in
        rw (parse_status-executed p.status, done)
          (parsed_row-unanimous p (ByActors-clean actors p.approvals row.approvals) all_in)
    | inr waiting ↦ rw (parse_status-executed p.status, waiting) refl
  ];
}
