-- ===== src/Invites/Operators.antt =====
-- The operators who decide on invites (api-worker/src/storeDO.ts, OperatorIdentity,
-- isInviteConsensusEligibleOperator, toInviteConsensusOperator and listInviteConsensusOperators) and
-- who of them has approved.
use instant_grant_core.Prelude.{
  Bool, true, false, ◌&&◌, not, Option, none, some, List, [], ◌∷◌, Text, codes, text_eq, is_empty,
  any, all, keep_if, if◌then◌else◌,
}
use instant_grant_core.Invites.Proposal.{
  Role, Source, invite, demo, InviteConsensusOperator, AdminInviteApproval, AdminInviteProposal,
  default_name,
}

pub record OperatorIdentity : Type 0 where
  pub role : Role
  pub source : Source
  pub admin_id : Text
  pub name : Text
  pub actor_id : Text

abbrev is_master_source : Source → Bool
is_master_source Source.master = true
is_master_source _ = false

abbrev is_master_role : Role → Bool
is_master_role Role.master = true
is_master_role _ = false

unfoldable pub has_admin_invite_issuance_authority : OperatorIdentity → Bool
has_admin_invite_issuance_authority op = is_master_source op.source && is_master_role op.role

abbrev consensus_operator : OperatorIdentity → Source → InviteConsensusOperator
consensus_operator op source = record {
  actor_id = op.actor_id;
  admin_id = op.admin_id;
  role = op.role;
  source = source;
  name = if is_empty op.name then default_name op.role else op.name;
}

unfoldable pub to_invite_consensus_operator : OperatorIdentity → Option InviteConsensusOperator
to_invite_consensus_operator op = elim op.source [
  | Source.master ↦ some (consensus_operator op Source.master)
  | invite ↦ some (consensus_operator op invite)
  | demo ↦ none
]

-- Whether a master's password is configured is an argument.
unfoldable pub list_invite_consensus_operators : Bool → List InviteConsensusOperator
list_invite_consensus_operators false = []
list_invite_consensus_operators true =
    record {
      actor_id = codes "master";
      admin_id = codes "master";
      role = Role.master;
      source = Source.master;
      name = codes "Master Operator";
    }
    ∷ []

abbrev pub is_actor : Text → AdminInviteApproval → Bool
is_actor id a = text_eq a.operator.actor_id id

abbrev pub is_required : List InviteConsensusOperator → AdminInviteApproval → Bool
is_required operators a = any (λ o. text_eq o.actor_id a.operator.actor_id) operators

abbrev pub approvals_by :
    List InviteConsensusOperator → AdminInviteProposal → List AdminInviteApproval
approvals_by operators p = keep_if (is_required operators) p.approvals

abbrev has_approved : List AdminInviteApproval → InviteConsensusOperator → Bool
has_approved approvals o = any (is_actor o.actor_id) approvals

abbrev pub is_approved_by_all : List InviteConsensusOperator → AdminInviteProposal → Bool
is_approved_by_all operators p = all (has_approved (approvals_by operators p)) operators

abbrev pub invite_missing_approvers :
    List InviteConsensusOperator → AdminInviteProposal → List InviteConsensusOperator
invite_missing_approvers operators p =
    keep_if (λ o. not (has_approved (approvals_by operators p) o)) operators
