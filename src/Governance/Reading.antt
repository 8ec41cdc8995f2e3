-- ===== src/Governance/Reading.antt =====
-- Reading stored proposals (api-worker/src/storeDO.ts, parseAdminSecurityGovernanceApproval and
-- parseAdminSecurityGovernanceProposal). Rows are written by the program alone, so each has its
-- fields; what the reading trims, drops and merges is modelled.
use instant_grant_core.Prelude.{
  Bool, ◌||◌, not, Option, none, some, List, [], ◌∷◌, text_eq, trim, is_empty, ltb, keep_if,
  if◌then◌else◌,
}
use instant_grant_core.Governance.Proposal.{
  Approval, Proposal, ProposalStatus, pending, executed, sort_approvals,
}

unfoldable pub parse_approval : Approval → Option Approval
parse_approval a =
    if is_empty (trim a.actor_id)
    then none
    else some (record { actor_id = trim a.actor_id; approved_at = a.approved_at })

-- One approval for each actor, the latest, in the place of its first.
unfoldable pub merge_approval : Approval → List Approval → List Approval
merge_approval a [] = a ∷ []
merge_approval a (b ∷ rest) =
    let later = merge_approval a rest in
    if text_eq b.actor_id a.actor_id
    then (if ltb b.approved_at a.approved_at then a ∷ rest else b ∷ rest)
    else b ∷ later

abbrev pub merge_parsed : Option Approval → List Approval → List Approval
merge_parsed none merged = merged
merge_parsed (some a) merged = merge_approval a merged

unfoldable pub merge_approvals : List Approval → List Approval → List Approval
merge_approvals merged [] = merged
merge_approvals merged (a ∷ rest) = merge_approvals (merge_parsed (parse_approval a) merged) rest

abbrev pub parse_status : ProposalStatus → ProposalStatus
parse_status pending = pending
parse_status (executed at by) = executed at (trim by)

abbrev pub is_blank_row : Proposal → Bool
is_blank_row p =
    is_empty (trim p.proposal_id)
    || is_empty (trim p.target_id)
    || is_empty (trim p.reason)
    || is_empty (trim p.requested_by)

abbrev pub parsed_row : Proposal → Proposal
parsed_row p = record {
  proposal_id = trim p.proposal_id;
  action_type = p.action_type;
  target_id = trim p.target_id;
  reason = trim p.reason;
  created_at = p.created_at;
  requested_by = trim p.requested_by;
  required_approver_ids = keep_if (λ id. not (is_empty (trim id))) p.required_approver_ids;
  approvals = sort_approvals (merge_approvals [] p.approvals);
  status = parse_status p.status;
}

unfoldable pub parse_proposal : Proposal → Option Proposal
parse_proposal p = if is_blank_row p then none else some (parsed_row p)

unfoldable pub read_row : Option Proposal → Option Proposal
read_row none = none
read_row (some p) = parse_proposal p

unfoldable pub read_rows : List Proposal → List Proposal
read_rows [] = []
read_rows (p ∷ rows) =
    let rest = read_rows rows in elim (parse_proposal p) [ none ↦ rest | some q ↦ q ∷ rest ]
