-- ===== src/Invites/Decide.antt =====
-- Approving and rejecting a proposal of an invite (api-worker/src/storeDO.ts,
-- approveAdminInviteProposal, rejectAdminInviteProposal and the two requests that call them). The
-- clock and the random code and id are arguments.
use instant_grant_core.Prelude.{
  ℕ, Bool, true, Option, none, some, List, [], ◌∷◌, ◌++◌, Text, text_eq, trim, is_empty, any,
  length, leb, ltb, if◌then◌else◌,
}
use instant_grant_core.Limits.Issue.{
  SecurityIssueLimitState, IssueResult, enforce_admin_invite_issue_limit,
}
use instant_grant_core.Invites.Proposal.{
  InviteConsensusOperator, AdminInviteApproval, AdminInviteProposalStatus, pending, issued,
  cancelled, AdminInviteProposal, sort_invite_approvals,
}
use instant_grant_core.Invites.Operators.{
  invite_missing_approvers, list_invite_consensus_operators, is_approved_by_all,
  has_admin_invite_issuance_authority, OperatorIdentity, to_invite_consensus_operator, approvals_by,
  is_actor,
}

pub record AdminCodeRecord : Type 0 where
  pub admin_id : Text
  pub name : Text
  pub created_at : Text
  pub revoked_at : Option Text
  pub revoked_by : Option Text

-- The rows of proposals by their ids and of codes, and the limiter of invites.
pub record InviteRows : Type 0 where
  pub proposals : Text → Option AdminInviteProposal
  pub admin_codes : Text → Option AdminCodeRecord
  pub issue_limit : Option SecurityIssueLimitState

pub record Consensus : Type 0 where
  pub proposal_id : Text
  pub approved_count : ℕ
  pub required_count : ℕ
  pub unanimous_approved : Bool
  pub approved_by : List AdminInviteApproval

pub data InviteAnswer : Type 0 where
  forbidden_issuer forbidden_approver proposal_cancelled server_config : InviteAnswer
  incomplete already_issued reason_required reason_too_long not_found : InviteAnswer
  limited : (retry_after_sec : ℕ) → InviteAnswer
  pending_approval :
      AdminInviteProposal
      → (approvals : List AdminInviteApproval) (required missing : List InviteConsensusOperator)
      → InviteAnswer
  active : (code admin_id name created_at : Text) (consensus : Consensus) → InviteAnswer
  rejected :
      (proposal_id name : Text) (cancelled_at cancelled_by_actor_id reason : Option Text)
      → InviteAnswer

abbrev put_at {ℓ} : {A : Type ℓ} → Text → A → (Text → Option A) → Text → Option A
put_at k v rows j = if text_eq k j then some v else rows j

abbrev pub put_proposal : AdminInviteProposal → InviteRows → InviteRows
put_proposal p rows = record rows { proposals = put_at p.proposal_id p rows.proposals }

-- What a proposal that was issued before answers.
abbrev issued_answer :
    List InviteConsensusOperator
    → AdminInviteProposal
    → Option Text
    → Option Text
    → Option Text
    → InviteAnswer
issued_answer operators p (some code) (some admin_id) (some at) =
    active code admin_id p.name at (record {
      proposal_id = p.proposal_id;
      approved_count = length (approvals_by operators p);
      required_count = length operators;
      unanimous_approved = leb (length operators) (length (approvals_by operators p));
      approved_by = approvals_by operators p;
    })
issued_answer operators p _ _ _ = incomplete

unfoldable pub add_approval :
    InviteConsensusOperator → Text → AdminInviteProposal → AdminInviteProposal
add_approval approver at p = if any (is_actor approver.actor_id) p.approvals then p else record p {
  approvals =
      sort_invite_approvals (p.approvals ++ record { operator = approver; approved_at = at } ∷ []);
}

abbrev pub issue_code :
    List InviteConsensusOperator
    → OperatorIdentity
    → AdminInviteProposal
    → Text
    → Text
    → Text
    → InviteRows
    → InviteRows × InviteAnswer
issue_code operators op p code admin_id at rows = (
  put_proposal
      (record p {
        status = issued;
        issued_code = some code;
        issued_admin_id = some admin_id;
        issued_at = some at;
        issued_by_actor_id = some op.actor_id;
      })
      (record rows {
        admin_codes =
            put_at code
              (record {
                admin_id = admin_id;
                name = p.name;
                created_at = at;
                revoked_at = none;
                revoked_by = none;
              })
              rows.admin_codes;
      }),
  active code admin_id p.name at (record {
    proposal_id = p.proposal_id;
    approved_count = length (approvals_by operators p);
    required_count = length operators;
    unanimous_approved = true;
    approved_by = approvals_by operators p;
  }),
)

-- What the request finds around it: the environment, the clock and the random ids.
pub record Around : Type 0 where
  pub password_configured : Bool
  pub invites_per_day : Option Text
  pub now_ms : ℕ
  pub at : Text
  pub code : Text
  pub admin_id : Text

abbrev pub under_limit :
    Around
    → List InviteConsensusOperator
    → OperatorIdentity
    → AdminInviteProposal
    → InviteRows
    → IssueResult
    → InviteRows × InviteAnswer
under_limit a operators op p rows limit =
    let counted = record rows { issue_limit = limit.stored } in
    if limit.limited
    then (put_proposal p counted, limited limit.retry_after_sec)
    else issue_code operators op p a.code a.admin_id a.at counted

abbrev pub with_approval :
    Around
    → List InviteConsensusOperator
    → OperatorIdentity
    → AdminInviteProposal
    → InviteRows
    → InviteRows × InviteAnswer
with_approval a operators op p rows =
    if is_approved_by_all operators p
    then under_limit a operators op p rows
        (enforce_admin_invite_issue_limit a.invites_per_day rows.issue_limit a.now_ms)
    else (
      put_proposal p rows,
      pending_approval p (approvals_by operators p) operators
          (invite_missing_approvers operators p),
    )

abbrev pub by_approver :
    Around
    → List InviteConsensusOperator
    → OperatorIdentity
    → AdminInviteProposal
    → InviteRows
    → Option InviteConsensusOperator
    → InviteRows × InviteAnswer
by_approver a operators op p rows none = (rows, forbidden_approver)
by_approver a operators op p rows (some approver) =
    with_approval a operators op (add_approval approver a.at p) rows

abbrev pub by_status :
    Around
    → List InviteConsensusOperator
    → OperatorIdentity
    → AdminInviteProposal
    → InviteRows
    → AdminInviteProposalStatus
    → InviteRows × InviteAnswer
by_status a operators op p rows cancelled = (rows, proposal_cancelled)
by_status a [] op p rows status = (rows, server_config)
by_status a (o ∷ os) op p rows issued =
    (rows, issued_answer (o ∷ os) p p.issued_code p.issued_admin_id p.issued_at)
by_status a (o ∷ os) op p rows pending =
    by_approver a (o ∷ os) op p rows (to_invite_consensus_operator op)

unfoldable pub approve_admin_invite_proposal :
    Around → OperatorIdentity → AdminInviteProposal → InviteRows → InviteRows × InviteAnswer
approve_admin_invite_proposal a op p rows =
    if has_admin_invite_issuance_authority op
    then by_status a (list_invite_consensus_operators a.password_configured) op p rows p.status
    else (rows, forbidden_issuer)

abbrev rejection : AdminInviteProposal → InviteAnswer
rejection p =
    rejected p.proposal_id p.name p.cancelled_at p.cancelled_by_actor_id p.cancelled_reason

abbrev pub cancel :
    OperatorIdentity
    → Text
    → Text
    → AdminInviteProposal
    → InviteRows
    → AdminInviteProposalStatus
    → InviteRows × InviteAnswer
cancel op reason at p rows issued = (rows, already_issued)
cancel op reason at p rows cancelled = (rows, rejection p)
cancel op reason at p rows pending =
    let p' : AdminInviteProposal = record p {
      status = cancelled;
      cancelled_at = some at;
      cancelled_by_actor_id = some op.actor_id;
      cancelled_reason = some reason;
    } in
    (put_proposal p' rows, rejection p')

unfoldable pub reject_admin_invite_proposal :
    OperatorIdentity → AdminInviteProposal → Text → Text → InviteRows → InviteRows × InviteAnswer
reject_admin_invite_proposal op p reason at rows =
    if has_admin_invite_issuance_authority op
    then (if is_empty (trim reason)
        then (rows, reason_required)
        else (if ltb 300 (length (trim reason))
            then (rows, reason_too_long)
            else cancel op (trim reason) at p rows p.status))
    else (rows, forbidden_issuer)
