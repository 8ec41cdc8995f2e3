-- ===== src/Governance/View.antt =====
-- What a client is shown of a proposal (api-worker/src/storeDO.ts, parseGovernanceReason and
-- governanceProposalView).
use instant_grant_core.Prelude.{
  ℕ, zero, suc, ◌≤◌, ◌≡◌, refl, inl, inr, Bool, false, not, ◌==◌, List, [], ◌∷◌, Text, trim,
  is_empty, length, keep_if, all, Bool-cases, if◌then◌else◌, arith, min,
}
use instant_grant_core.Js.{Value, string}
use instant_grant_core.Governance.Proposal.{
  GovernanceAction, Approval, Proposal, ProposalStatus, has_approved, is_unanimous,
}

-- `s.slice(0, n)`
abbrev slice_to : ℕ → Text → Text
slice_to zero s = []
slice_to (suc n) [] = []
slice_to (suc n) (c ∷ s) = c ∷ slice_to n s

abbrev given_text : Value → Text
given_text (string s) = trim s
given_text _ = []

unfoldable pub parse_governance_reason : Value → Text → Text
parse_governance_reason raw fallback =
    slice_to 300 (if is_empty (given_text raw) then fallback else given_text raw)

pub record ProposalView : Type 0 where
  pub proposal_id : Text
  pub action_type : GovernanceAction
  pub target_id : Text
  pub reason : Text
  pub status : ProposalStatus
  pub created_at : ℕ
  pub requested_by : Text
  pub approved_count : ℕ
  pub required_count : ℕ
  pub required_approver_ids : List Text
  pub approvals : List Approval
  pub missing_approvers : List Text
  pub unanimous_approved : Bool

unfoldable pub missing_approvers_of : Proposal → List Text
missing_approvers_of p = keep_if (λ id. not (has_approved id p.approvals)) p.required_approver_ids

unfoldable pub governance_proposal_view : Proposal → ProposalView
governance_proposal_view p = record {
  proposal_id = p.proposal_id;
  action_type = p.action_type;
  target_id = p.target_id;
  reason = p.reason;
  status = p.status;
  created_at = p.created_at;
  requested_by = p.requested_by;
  approved_count = length p.approvals;
  required_count = length p.required_approver_ids;
  required_approver_ids = p.required_approver_ids;
  approvals = p.approvals;
  missing_approvers = missing_approvers_of p;
  unanimous_approved = length (missing_approvers_of p) == 0;
}

nobody_missing :
    (approvals : List Approval) (ids : List Text)
    → (length (keep_if (λ id. not (has_approved id approvals)) ids) == 0)
      ≡ all (λ id. has_approved id approvals) ids
nobody_missing approvals [] = refl
nobody_missing approvals (id ∷ ids) = elim (Bool-cases (has_approved id approvals)) [
  | inl approved ↦ rw approved (nobody_missing approvals ids)
  | inr waiting ↦ rw waiting (ground arith)
]

-- A proposal is shown as unanimously approved exactly when a request would run its action: the
-- view's count of missing approvers and the decision's test of all approvers agree.
pub governance_proposal_view-unanimous :
    (p : Proposal) → (governance_proposal_view p).unanimous_approved ≡ is_unanimous p
unfolding governance_proposal_view missing_approvers_of
governance_proposal_view-unanimous p = nobody_missing p.approvals p.required_approver_ids

length-slice_to : (n : ℕ) (s : Text) → length (slice_to n s) ≡ min n (length s)
length-slice_to zero s = omega arith
length-slice_to (suc n) [] = omega arith
length-slice_to (suc n) (c ∷ s) = omega (arith, length-slice_to n s)

length-some : (s : Text) → is_empty s ≡ false → 1 ≤ length s
length-some [] h = cc
length-some (c ∷ s) h = omega arith

slice_bounds :
    (s : Text)
    → is_empty s ≡ false
    → (1 ≤ length (slice_to 300 s)) × (length (slice_to 300 s) ≤ 300)
slice_bounds s h = rw (length-slice_to 300 s) (omega (arith, length-some s h), omega arith)

-- A reason has at most 300 characters and, with a fallback that is not empty, at least one.
pub length-parse_governance_reason :
    (raw : Value) (fallback : Text)
    → is_empty fallback ≡ false
    → (1 ≤ length (parse_governance_reason raw fallback))
      × (length (parse_governance_reason raw fallback) ≤ 300)
unfolding parse_governance_reason
length-parse_governance_reason raw fallback given = elim (Bool-cases (is_empty (given_text raw))) [
  | inl nothing ↦ rw nothing (slice_bounds fallback given)
  | inr something ↦ rw something (slice_bounds (given_text raw) something)
]
