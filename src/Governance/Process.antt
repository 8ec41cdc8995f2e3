-- ===== src/Governance/Process.antt =====
-- One governance request (api-worker/src/storeDO.ts, registerAdminSecurityOperator,
-- getActiveOperatorCommunityIds and processAdminSecurityGovernanceAction). The lock makes a request
-- one step. What the action does to the rest of the program is the argument `execute`; a fresh
-- proposal id and the clock are arguments too.
use instant_grant_core.Prelude.{
  ℕ, Bool, true, false, ◌&&◌, not, Option, none, some, List, [], ◌∷◌, ◌++◌, Text, text_eq, trim,
  is_empty, any, keep_if, if◌then◌else◌,
}
use instant_grant_core.Governance.Reading.{read_row, read_rows}
use instant_grant_core.Governance.Proposal.{
  GovernanceAction, action_eq, pending, executed, is_executed, Proposal, includes, has_approved,
  is_unanimous, normalize_ids, id_set, ProposalTable, newest_first, sort_approvals,
}

pub data Role : Type 0 where
  admin master unknown : Role

abbrev pub is_master : Role → Bool
is_master master = true
is_master _ = false

pub record Actor : Type 0 where
  pub actor_id : Text
  pub role : Role

pub data LogAction : Type 0 where
  proposal_created proposal_approved proposal_executed : LogAction

pub record LogEntry : Type 0 where
  pub action : LogAction
  pub actor_id : Text
  pub target_id : Text
  pub proposal_id : Text

pub record GovernanceRequest : Type 0 where
  pub actor : Actor
  pub action_type : GovernanceAction
  pub target_id : Text
  pub reason : Text
  pub proposal_id : Option Text
  pub required_approver_ids : List Text

pub data Answer {ℓ} (R : Type ℓ) : Type ℓ where
  not_found mismatch : Answer R
  already_executed : Proposal → Answer R
  forbidden : Text → Answer R
  pending_consensus : Proposal → Answer R
  success : R → Proposal → Answer R

abbrev is_registered : Text → List Actor → Bool
is_registered id operators = any (λ o. text_eq o.actor_id id) operators

-- Only a master who is not there yet is added.
unfoldable pub register_operator : Actor → List Actor → List Actor
register_operator actor operators =
    if is_master actor.role && not (is_registered actor.actor_id operators)
    then operators ++ actor ∷ []
    else operators

abbrev active_ids : List Text → List Actor → List Text
active_ids revoked [] = []
active_ids revoked (o ∷ operators) =
    let rest = active_ids revoked operators in
    if is_master o.role && not (includes o.actor_id revoked) then o.actor_id ∷ rest else rest

unfoldable pub community_ids : Actor → List Text → List Actor → List Text
community_ids actor revoked operators = id_set (active_ids revoked operators ++ actor.actor_id ∷ [])

abbrev log_of : LogAction → GovernanceRequest → Proposal → LogEntry
log_of action q p = record {
  action = action;
  actor_id = q.actor.actor_id;
  target_id = q.target_id;
  proposal_id = p.proposal_id;
}

abbrev pub trimmed : Option Text → Text
trimmed none = []
trimmed (some t) = trim t

abbrev same_ids : List Text → List Text → Bool
same_ids [] [] = true
same_ids [] (k ∷ ks) = false
same_ids (j ∷ js) [] = false
same_ids (j ∷ js) (k ∷ ks) = text_eq j k && same_ids js ks

abbrev pub is_candidate : GovernanceRequest → Proposal → Bool
is_candidate q p =
    not (is_executed p.status)
    && action_eq p.action_type q.action_type
    && text_eq p.target_id q.target_id

abbrev pub first : List Proposal → Option Proposal
first [] = none
first (p ∷ rest) = some p

-- With required approvers named, a candidate must name the same.
abbrev pub choose : List Text → List Proposal → Option Proposal
choose [] candidates = first candidates
choose (id ∷ ids) candidates =
    first (keep_if (λ p. same_ids p.required_approver_ids (id ∷ ids)) candidates)

unfoldable pub new_proposal : GovernanceRequest → Text → ℕ → List Text → Proposal
new_proposal q id now required = record {
  proposal_id = id;
  action_type = q.action_type;
  target_id = q.target_id;
  reason = q.reason;
  created_at = now;
  requested_by = q.actor.actor_id;
  required_approver_ids = required;
  approvals = [];
  status = pending;
}

-- The clock at the start of a request and after its action.
pub record Clock : Type 0 where
  pub started : ℕ
  pub finished : ℕ

-- The actor's approval added to the others, in the order of their times.
unfoldable pub approved_by : Text → ℕ → Proposal → Proposal
approved_by actor_id now p = record p {
  approvals =
      sort_approvals (p.approvals ++ record { actor_id = actor_id; approved_at = now } ∷ []);
}

-- The storage of proposals, the operators that the rest of the program has revoked, and what an
-- action does to that rest.
module _ {ℓ κ} (table : ProposalTable) {W : Type ℓ} {R : Type κ} (revoked : W → List Text)
    (execute : GovernanceRequest → W → W × R) where
  open table use {Table, get, put, list}

  -- The rows that a request reads and writes; the log has its newest entry first.
  pub record GovernanceState : Type ℓ where
    pub proposals : Table
    pub operators : List Actor
    pub log : List LogEntry
    pub world : W

  abbrev put_with_log : LogAction → GovernanceRequest → Proposal → GovernanceState → GovernanceState
  put_with_log action q p s = record s {
    proposals = put s.proposals p;
    log = log_of action q p ∷ s.log;
  }

  unfoldable pub find_pending : GovernanceRequest → GovernanceState → Option Proposal
  find_pending q s =
      choose (normalize_ids q.required_approver_ids)
        (keep_if (is_candidate q) (newest_first (read_rows (list s.proposals))))

  -- Without named approvers the active operators and the requester are required.
  unfoldable pub create_proposal :
      GovernanceRequest → Text → Clock → GovernanceState → GovernanceState × Proposal
  create_proposal q id now s = elim (normalize_ids q.required_approver_ids) [
    | [] ↦
        let operators = register_operator q.actor s.operators in
        let p = new_proposal q id now.started (community_ids q.actor (revoked s.world) operators) in
        (put_with_log proposal_created q p (record s { operators = operators }), p)
    | j ∷ js ↦
        let p = new_proposal q id now.started (j ∷ js) in (put_with_log proposal_created q p s, p)
  ]

  -- The actor's approval, once.
  unfoldable pub approve :
      GovernanceRequest → Clock → GovernanceState → Proposal → GovernanceState × Proposal
  approve q now s p = if has_approved q.actor.actor_id p.approvals then (s, p) else (
    put_with_log proposal_approved q (approved_by q.actor.actor_id now.started p) s,
    approved_by q.actor.actor_id now.started p,
  )

  -- The action itself, and the proposal's last write.
  unfoldable pub finish :
      GovernanceRequest → Clock → GovernanceState → Proposal → GovernanceState × Answer R
  finish q now s p =
      let p' = record p { status = executed now.finished q.actor.actor_id } in
      if is_unanimous p
      then (
        put_with_log proposal_executed q p' (record s { world = (execute q s.world).0 }),
        success (execute q s.world).1 p',
      )
      else (s, pending_consensus p)

  unfoldable pub decide :
      GovernanceRequest → Clock → GovernanceState → Proposal → GovernanceState × Answer R
  decide q now s p =
      if includes q.actor.actor_id p.required_approver_ids
      then finish q now (approve q now s p).0 (approve q now s p).1
      else (s, forbidden p.proposal_id)

  -- A request that names its proposal.
  unfoldable pub process_named :
      GovernanceRequest → Clock → GovernanceState → Option Proposal → GovernanceState × Answer R
  process_named q now s none = (s, not_found)
  process_named q now s (some p) =
      if action_eq p.action_type q.action_type && text_eq p.target_id q.target_id
      then (if is_executed p.status then (s, already_executed p) else decide q now s p)
      else (s, mismatch)

  unfoldable pub process_pending :
      GovernanceRequest
      → Text
      → Clock
      → GovernanceState
      → Option Proposal
      → GovernanceState × Answer R
  process_pending q id now s none =
      decide q now (create_proposal q id now s).0 (create_proposal q id now s).1
  process_pending q id now s (some p) = decide q now s p

  unfoldable pub process_governance_action :
      GovernanceRequest → Text → Clock → GovernanceState → GovernanceState × Answer R
  process_governance_action q id now s =
      if is_empty (trimmed q.proposal_id)
      then process_pending q id now s (find_pending q s)
      else process_named q now s (read_row (get s.proposals (trimmed q.proposal_id)))
