-- ===== src/Governance/ReadingLaws.antt =====
-- What reading keeps of a row: who has approved it, and its status.
use instant_grant_core.Prelude.{
  ◌≡◌, refl, subst, ◌∙◌, ap, inl, inr, Bool, true, false, ◌||◌, not, Option, none, some, List, [],
  ◌∷◌, Text, text_eq, text_eq_iff, text_eq_sound, trim, is_empty, all, keep_if, All, Bool-cases,
  Option-cases, arith,
}
use instant_grant_core.Governance.Proposal.{
  Approval, Proposal, ProposalStatus, pending, executed, is_executed, has_approved, is_unanimous,
  sort_approvals, insert_approval,
}
use instant_grant_core.Governance.Reading.{
  parse_approval, merge_approval, merge_parsed, merge_approvals, parse_status, is_blank_row,
  parsed_row, parse_proposal, read_row, read_rows,
}

has_approved-merge_approval :
    (id : Text) (a : Approval) (merged : List Approval)
    → has_approved id (merge_approval a merged) ≡ (has_approved id merged || text_eq a.actor_id id)
unfolding merge_approval
has_approved-merge_approval id a [] = ground arith
has_approved-merge_approval id a (b ∷ rest) = ground (
  arith,
  text_eq_iff b.actor_id a.actor_id,
  text_eq_iff b.actor_id id,
  text_eq_iff a.actor_id id,
  has_approved-merge_approval id a rest,
)

has_approved-insert_approval :
    (id : Text) (a : Approval) (bs : List Approval)
    → has_approved id (insert_approval a bs) ≡ (text_eq a.actor_id id || has_approved id bs)
unfolding insert_approval
has_approved-insert_approval id a [] = refl
has_approved-insert_approval id a (b ∷ rest) =
    ground (arith, has_approved-insert_approval id a rest)

has_approved-sort_approvals :
    (id : Text) (bs : List Approval) → has_approved id (sort_approvals bs) ≡ has_approved id bs
unfolding sort_approvals
has_approved-sort_approvals id [] = refl
has_approved-sort_approvals id (b ∷ bs) = ground (
  arith,
  has_approved-insert_approval id b (sort_approvals bs),
  has_approved-sort_approvals id bs,
)

-- The approval of an actor whose id is trimmed, unless the id is blank.
has_approved-merge_parsed :
    (id : Text) (a : Approval) (merged : List Approval)
    → is_empty (trim id) ≡ false
    → trim a.actor_id ≡ a.actor_id
    → has_approved id (merge_parsed (parse_approval a) merged)
      ≡ (has_approved id merged || text_eq a.actor_id id)
unfolding parse_approval
has_approved-merge_parsed id a merged named clean = elim (Bool-cases (is_empty (trim a.actor_id))) [
  | inl blank ↦
      let other : text_eq a.actor_id id ≡ false = elim (Bool-cases (text_eq a.actor_id id)) [
        | inl same ↦
            let blank' : is_empty (trim id) ≡ true =
              subst (λ x. is_empty (trim x) ≡ true) (text_eq_sound a.actor_id id same) blank in
            cc
        | inr different ↦ different
      ] in
      rw (blank, other) (ground arith)
  | inr there ↦
      let b : Approval = record { actor_id = trim a.actor_id; approved_at = a.approved_at } in
      rw there (
        has_approved-merge_approval id b merged
        ∙ ap (λ x. has_approved id merged || text_eq x id) clean)
]

has_approved-merge_approvals :
    (id : Text) (merged bs : List Approval)
    → is_empty (trim id) ≡ false
    → All (λ b. trim b.actor_id ≡ b.actor_id) bs
    → has_approved id (merge_approvals merged bs) ≡ (has_approved id merged || has_approved id bs)
unfolding merge_approvals
has_approved-merge_approvals id merged [] named clean = ground arith
has_approved-merge_approvals id merged (b ∷ bs) named clean = ground (
  arith,
  has_approved-merge_approvals id (merge_parsed (parse_approval b) merged) bs named clean.1,
  has_approved-merge_parsed id b merged named clean.0,
)

all-kept :
    (ids : List Text) (before after : Text → Bool)
    → ((id : Text) → is_empty (trim id) ≡ false → before id ≡ true → after id ≡ true)
    → all before ids ≡ true
    → all after (keep_if (λ id. not (is_empty (trim id))) ids) ≡ true
all-kept [] before after step h = refl
all-kept (id ∷ ids) before after step h = elim (Bool-cases (is_empty (trim id))) [
  | inl blank ↦ rw blank (all-kept ids before after step (ground arith))
  | inr named ↦
      let here = step id named (ground arith) in
      let rest = all-kept ids before after step (ground arith) in rw (named, here, rest) refl
]

-- A row that all its required approvers have approved is read as such a row.
pub parsed_row-unanimous :
    (p : Proposal)
    → All (λ b. trim b.actor_id ≡ b.actor_id) p.approvals
    → is_unanimous p ≡ true
    → is_unanimous (parsed_row p) ≡ true
parsed_row-unanimous p clean h =
    all-kept p.required_approver_ids (λ id. has_approved id p.approvals)
      (λ id. has_approved id (sort_approvals (merge_approvals [] p.approvals)))
      (λ id named approved.
        has_approved-sort_approvals id (merge_approvals [] p.approvals)
        ∙ (has_approved-merge_approvals id [] p.approvals named clean ∙ approved))
      h

pub parse_status-executed : (s : ProposalStatus) → is_executed (parse_status s) ≡ is_executed s
parse_status-executed pending = refl
parse_status-executed (executed at by) = refl

pub parse_proposal-parsed_row : (p q : Proposal) → parse_proposal p ≡ some q → q ≡ parsed_row p
unfolding parse_proposal
parse_proposal-parsed_row p q h = elim (Bool-cases (is_blank_row p)) [
  | inl blank ↦ let nothing : none ≡ some q = rw blank at h in cc
  | inr there ↦ let same : some (parsed_row p) ≡ some q = rw there at h in cc
]

pub read_row-some :
    (o : Option Proposal) (q : Proposal)
    → read_row o ≡ some q
    → (p : Proposal) × (o ≡ some p) × (q ≡ parsed_row p)
unfolding read_row
read_row-some none q h = cc
read_row-some (some p) q h = (p, refl, parse_proposal-parsed_row p q h)

pub All-read_rows {ℓ} :
    (P : Proposal → Type ℓ) (ps : List Proposal)
    → All P ps
    → All (λ q. (p : Proposal) × P p × (q ≡ parsed_row p)) (read_rows ps)
unfolding read_rows
All-read_rows P [] h = tt
All-read_rows P (p ∷ ps) h = elim (Option-cases (parse_proposal p)) [
  | inl unread ↦
      let e : read_rows (p ∷ ps) ≡ read_rows ps = rw (unread, read_rows) refl in
      rw e (All-read_rows P ps h.1)
  | inr (q, read) ↦
      let e : read_rows (p ∷ ps) ≡ q ∷ read_rows ps = rw (read, read_rows) refl in
      rw e ((p, h.0, parse_proposal-parsed_row p q read), All-read_rows P ps h.1)
]
