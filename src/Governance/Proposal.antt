-- ===== src/Governance/Proposal.antt =====
-- Governance proposals and their rows in storage (api-worker/src/storeDO.ts,
-- AdminSecurityGovernanceActionType to AdminSecurityGovernanceProposalRecord,
-- listAdminSecurityGovernanceProposals and getAdminSecurityGovernanceProposal). Times are
-- milliseconds, whose order is that of the ISO texts that the program compares.
use instant_grant_core.Prelude.{
  ℕ, Bool, true, false, ◌&&◌, ◌||◌, ◌==◌, not, Option, some, List, [], ◌∷◌, Text, text_eq, trim,
  is_empty, ltb, leb, any, all, All, ◌≡◌, keep_if, map, if◌then◌else◌,
}

pub data GovernanceAction : Type 0 where
  unlock_admin revoke_admin_access restore_admin_access : GovernanceAction
  revoke_operator restore_operator : GovernanceAction
  freeze_user unfreeze_user delete_user restore_user : GovernanceAction

-- The number of an action, to compare by.
abbrev action_code : GovernanceAction → ℕ
action_code unlock_admin = 0
action_code revoke_admin_access = 1
action_code restore_admin_access = 2
action_code revoke_operator = 3
action_code restore_operator = 4
action_code freeze_user = 5
action_code unfreeze_user = 6
action_code delete_user = 7
action_code restore_user = 8

abbrev pub action_eq : GovernanceAction → GovernanceAction → Bool
action_eq a b = action_code a == action_code b

pub record Approval : Type 0 where
  pub actor_id : Text
  pub approved_at : ℕ

pub data ProposalStatus : Type 0 where
  pending : ProposalStatus
  executed : (at : ℕ) (by_actor_id : Text) → ProposalStatus

pub record Proposal : Type 0 where
  pub proposal_id : Text
  pub action_type : GovernanceAction
  pub target_id : Text
  pub reason : Text
  pub created_at : ℕ
  pub requested_by : Text
  pub required_approver_ids : List Text
  pub approvals : List Approval
  pub status : ProposalStatus

abbrev pub is_executed : ProposalStatus → Bool
is_executed pending = false
is_executed (executed at by) = true

-- `ids.includes(id)`
abbrev pub includes : Text → List Text → Bool
includes id ids = any (λ j. text_eq j id) ids

-- `approvals.some((item) => item.actorId === id)`
abbrev pub has_approved : Text → List Approval → Bool
has_approved id approvals = any (λ a. text_eq a.actor_id id) approvals

-- `requiredApproverIds.every((item) => approvedIds.has(item))`
abbrev pub is_unanimous : Proposal → Bool
is_unanimous p = all (λ id. has_approved id p.approvals) p.required_approver_ids

-- The order of JavaScript strings.
unfoldable pub text_lt : Text → Text → Bool
text_lt [] [] = false
text_lt [] (d ∷ t) = true
text_lt (c ∷ s) [] = false
text_lt (c ∷ s) (d ∷ t) = ltb c d || (c == d && text_lt s t)

-- `Array.from(new Set(ids)).sort()`
unfoldable pub insert_id : Text → List Text → List Text
insert_id id [] = id ∷ []
insert_id id (j ∷ ids) =
    let rest = insert_id id ids in
    if text_eq j id then j ∷ ids else (if text_lt id j then id ∷ j ∷ ids else j ∷ rest)

unfoldable pub id_set : List Text → List Text
id_set [] = []
id_set (id ∷ ids) = insert_id id (id_set ids)

-- `ids.map((item) => item.trim()).filter((item) => item.length > 0)`, as a sorted set.
unfoldable pub normalize_ids : List Text → List Text
normalize_ids ids = id_set (keep_if (λ id. not (is_empty id)) (map trim ids))

-- The stored rows of proposals: each is written under its own id, a read shows the last write, and a
-- listing shows what reads show.
pub record ProposalTable : Type 1 where
  pub Table : Type 0
  pub get : Table → Text → Option Proposal
  pub put : Table → Proposal → Table
  pub list : Table → List Proposal
  pub get-put :
      (t : Table) (p : Proposal) (id : Text)
      → get (put t p) id ≡ (if text_eq p.proposal_id id then some p else get t id)
  pub get-own : (t : Table) (id : Text) (p : Proposal) → get t id ≡ some p → p.proposal_id ≡ id
  pub get-list : (t : Table) → All (λ p. get t p.proposal_id ≡ some p) (list t)

-- `sort((a, b) => b.createdAt.localeCompare(a.createdAt))`
unfoldable pub insert_newest : Proposal → List Proposal → List Proposal
insert_newest p [] = p ∷ []
insert_newest p (q ∷ rows) =
    let rest = insert_newest p rows in
    if leb q.created_at p.created_at then p ∷ q ∷ rows else q ∷ rest

unfoldable pub newest_first : List Proposal → List Proposal
newest_first [] = []
newest_first (p ∷ rows) = insert_newest p (newest_first rows)

-- `approvals.sort((a, b) => a.approvedAt.localeCompare(b.approvedAt))`
unfoldable pub insert_approval : Approval → List Approval → List Approval
insert_approval a [] = a ∷ []
insert_approval a (b ∷ rest) =
    let later = insert_approval a rest in
    if leb a.approved_at b.approved_at then a ∷ b ∷ rest else b ∷ later

unfoldable pub sort_approvals : List Approval → List Approval
sort_approvals [] = []
sort_approvals (a ∷ rest) = insert_approval a (sort_approvals rest)
