-- ===== src/Invites/Proposal.antt =====
-- Proposals of invites and how they are read from storage (api-worker/src/storeDO.ts). Times are texts
-- in the ISO form, which are in order as texts.
use instant_grant_core.Prelude.{
  Bool, ◌||◌, Option, none, some, List, [], ◌∷◌, Text, codes, text_eq, trim, is_empty,
  if◌then◌else◌,
}
use instant_grant_core.Js.{Value, string, object, array, Items, nil, cons, Fields, get_field}
use instant_grant_core.Audit.Canonical.{text_lt}

pub data Role : Type 0 where
  master admin : Role

pub data Source : Type 0 where
  master invite demo : Source

-- An operator who takes part: the source is the master or an invite.
pub record InviteConsensusOperator : Type 0 where
  pub actor_id : Text
  pub admin_id : Text
  pub role : Role
  pub source : Source
  pub name : Text

pub record AdminInviteApproval : Type 0 where
  pub operator : InviteConsensusOperator
  pub approved_at : Text

pub data AdminInviteProposalStatus : Type 0 where
  pending issued cancelled : AdminInviteProposalStatus

pub record AdminInviteProposal : Type 0 where
  pub proposal_id : Text
  pub name : Text
  pub created_at : Text
  pub requested_by : InviteConsensusOperator
  pub approvals : List AdminInviteApproval
  pub status : AdminInviteProposalStatus
  pub issued_code : Option Text
  pub issued_admin_id : Option Text
  pub issued_at : Option Text
  pub issued_by_actor_id : Option Text
  pub cancelled_at : Option Text
  pub cancelled_by_actor_id : Option Text
  pub cancelled_reason : Option Text

-- `typeof raw === 'string' ? raw.trim() : ''`
abbrev pub text_or_empty : Value → Text
text_or_empty (string s) = trim s
text_or_empty _ = []

abbrev pub text_or_none : Value → Option Text
text_or_none v = if is_empty (text_or_empty v) then none else some (text_or_empty v)

abbrev pub default_name : Role → Text
default_name master = codes "Master Operator"
default_name admin = codes "Unknown Admin"

abbrev name_or_default : Text → Role → Text
name_or_default name role = if is_empty name then default_name role else name

abbrev role_of : Text → Role
role_of t = if text_eq t (codes "master") then Role.master else admin

abbrev source_of : Text → Source
source_of t = if text_eq t (codes "master") then Source.master else invite

-- An operator as an approval or a request holds it.
abbrev operator_of : Fields → Option InviteConsensusOperator
operator_of o =
    let actor_id = text_or_empty (get_field (codes "actorId") o) in
    let admin_id = text_or_empty (get_field (codes "adminId") o) in
    let role = role_of (text_or_empty (get_field (codes "role") o)) in
    if is_empty actor_id || is_empty admin_id
    then none
    else some (record {
      actor_id = actor_id;
      admin_id = admin_id;
      role = role;
      source = source_of (text_or_empty (get_field (codes "source") o));
      name = name_or_default (text_or_empty (get_field (codes "name") o)) role;
    })

abbrev approval_at : Text → Option InviteConsensusOperator → Option AdminInviteApproval
approval_at at none = none
approval_at at (some op) =
    if is_empty at then none else some (record { operator = op; approved_at = at })

unfoldable pub parse_admin_invite_approval : Value → Option AdminInviteApproval
parse_admin_invite_approval (object o) =
    approval_at (text_or_empty (get_field (codes "approvedAt") o)) (operator_of o)
parse_admin_invite_approval _ = none

abbrev pub same_actor : AdminInviteApproval → AdminInviteApproval → Bool
same_actor a b = text_eq a.operator.actor_id b.operator.actor_id

-- One approval for each actor, the latest one.
abbrev merge_invite_approval :
    AdminInviteApproval → List AdminInviteApproval → List AdminInviteApproval
merge_invite_approval a [] = a ∷ []
merge_invite_approval a (b ∷ bs) =
    let rest = merge_invite_approval a bs in
    if same_actor b a
    then (if text_lt b.approved_at a.approved_at then a ∷ bs else b ∷ bs)
    else b ∷ rest

abbrev merge_parsed :
    Option AdminInviteApproval → List AdminInviteApproval → List AdminInviteApproval
merge_parsed none bs = bs
merge_parsed (some a) bs = merge_invite_approval a bs

abbrev parse_approvals : Items → List AdminInviteApproval → List AdminInviteApproval
parse_approvals nil bs = bs
parse_approvals (cons v vs) bs =
    parse_approvals vs (merge_parsed (parse_admin_invite_approval v) bs)

abbrev approvals_of : Value → List AdminInviteApproval
approvals_of (array vs) = parse_approvals vs []
approvals_of _ = []

-- The oldest first; equal times keep their order.
abbrev insert_approval : AdminInviteApproval → List AdminInviteApproval → List AdminInviteApproval
insert_approval a [] = a ∷ []
insert_approval a (b ∷ bs) =
    let rest = insert_approval a bs in
    if text_lt b.approved_at a.approved_at then b ∷ rest else a ∷ b ∷ bs

unfoldable pub sort_invite_approvals : List AdminInviteApproval → List AdminInviteApproval
sort_invite_approvals [] = []
sort_invite_approvals (a ∷ rest) = insert_approval a (sort_invite_approvals rest)

abbrev status_of : Text → AdminInviteProposalStatus
status_of t =
    if text_eq t (codes "issued")
    then issued
    else (if text_eq t (codes "cancelled") then cancelled else pending)

abbrev epoch : Text
epoch = codes "1970-01-01T00:00:00.000Z"

abbrev requester_of : Value → Option InviteConsensusOperator
requester_of (object o) = operator_of o
requester_of _ = none

abbrev text_or : Text → Option Text → Text
text_or t none = t
text_or t (some s) = s

abbrev parsed_proposal : Text → Fields → Option InviteConsensusOperator → Option AdminInviteProposal
parsed_proposal id o none = none
parsed_proposal id o (some requester) =
    if is_empty (text_or_empty (get_field (codes "name") o))
    then none
    else some (record {
      proposal_id = id;
      name = text_or_empty (get_field (codes "name") o);
      created_at = text_or epoch (text_or_none (get_field (codes "createdAt") o));
      requested_by = requester;
      approvals = sort_invite_approvals (approvals_of (get_field (codes "approvals") o));
      status = status_of (text_or_empty (get_field (codes "status") o));
      issued_code = text_or_none (get_field (codes "issuedCode") o);
      issued_admin_id = text_or_none (get_field (codes "issuedAdminId") o);
      issued_at = text_or_none (get_field (codes "issuedAt") o);
      issued_by_actor_id = text_or_none (get_field (codes "issuedByActorId") o);
      cancelled_at = text_or_none (get_field (codes "cancelledAt") o);
      cancelled_by_actor_id = text_or_none (get_field (codes "cancelledByActorId") o);
      cancelled_reason = text_or_none (get_field (codes "cancelledReason") o);
    })

unfoldable pub parse_admin_invite_proposal_record : Text → Value → Option AdminInviteProposal
unfolding parse_admin_invite_approval sort_invite_approvals
parse_admin_invite_proposal_record id (object o) =
    parsed_proposal id o (requester_of (get_field (codes "requestedBy") o))
parse_admin_invite_proposal_record id _ = none
