-- ===== src/Invites/Settled.antt =====
-- A proposal is decided once, and a code is made only where it may be.
use instant_grant_core.Prelude.{
  Bool, true, false, Option, none, some, List, [], ◌∷◌, Text, text_eq, text_eq_sound, trim,
  is_empty, any, length, ltb, ◌≡◌, ◌∙◌, ◌⊎◌, refl, sym, subst, inl, inr, Bool-cases, Option-cases,
}
use instant_grant_core.Limits.Issue.{IssueResult, enforce_admin_invite_issue_limit}
use instant_grant_core.Invites.Proposal.{
  InviteConsensusOperator, AdminInviteProposal, AdminInviteProposalStatus, pending, issued,
  cancelled,
}
use instant_grant_core.Invites.Operators.{
  OperatorIdentity, has_admin_invite_issuance_authority, to_invite_consensus_operator,
  list_invite_consensus_operators, is_actor, is_approved_by_all,
}
use instant_grant_core.Invites.Decide.{
  InviteRows, InviteAnswer, Around, not_found, add_approval, under_limit, with_approval,
  by_approver, by_status, approve_admin_invite_proposal, cancel, reject_admin_invite_proposal,
}

abbrev pub is_settled : AdminInviteProposalStatus → Bool
is_settled pending = false
is_settled _ = true

-- What must hold where an approval makes a code.
abbrev pub MayIssue :
    Around
    → List InviteConsensusOperator
    → OperatorIdentity
    → AdminInviteProposal
    → AdminInviteProposalStatus
    → InviteRows
    → Type 0
MayIssue a operators op p status rows =
    (status ≡ pending)
    × ((enforce_admin_invite_issue_limit a.invites_per_day rows.issue_limit a.now_ms).limited
        ≡ false)
    × (approver : InviteConsensusOperator) × (to_invite_consensus_operator op ≡ some approver)
    × (is_approved_by_all operators (add_approval approver a.at p) ≡ true)

by_status-MayIssue :
    (a : Around) (operators : List InviteConsensusOperator) (op : OperatorIdentity)
    (p : AdminInviteProposal) (rows : InviteRows) (status : AdminInviteProposalStatus)
    → ((by_status a operators op p rows status).0.admin_codes ≡ rows.admin_codes)
      ⊎ MayIssue a operators op p status rows
by_status-MayIssue a operators op p rows cancelled = inl refl
by_status-MayIssue a [] op p rows issued = inl refl
by_status-MayIssue a [] op p rows pending = inl refl
by_status-MayIssue a (o ∷ os) op p rows issued = inl refl
by_status-MayIssue a (o ∷ os) op p rows pending =
    let limit = enforce_admin_invite_issue_limit a.invites_per_day rows.issue_limit a.now_ms in
    elim (Option-cases (to_invite_consensus_operator op)) [
      | inl outside ↦ rw outside (inl refl)
      | inr (approver, inside) ↦
          elim (Bool-cases (is_approved_by_all (o ∷ os) (add_approval approver a.at p))) [
            | inr waits ↦ rw (inside, waits) (inl refl)
            | inl agreed ↦ elim (Bool-cases limit.limited) [
              | inl full ↦ rw (inside, agreed, full) (inl refl)
              | inr room ↦ inr (refl, room, approver, inside, agreed)
            ]
          ]
    ]

-- A code is made only where it may be: an approval leaves the codes as they are, or the operator has
-- the authority to issue invites, the proposal was pending, all whose approval is required have
-- approved once the operator has, and the limit of invites has room.
pub approve_admin_invite_proposal-MayIssue :
    (a : Around) (op : OperatorIdentity) (p : AdminInviteProposal) (rows : InviteRows)
    → ((approve_admin_invite_proposal a op p rows).0.admin_codes ≡ rows.admin_codes)
      ⊎ ((has_admin_invite_issuance_authority op ≡ true)
          × MayIssue a (list_invite_consensus_operators a.password_configured) op p p.status rows)
unfolding approve_admin_invite_proposal
approve_admin_invite_proposal-MayIssue a op p rows =
    elim (Bool-cases (has_admin_invite_issuance_authority op)) [
      | inr stranger ↦ rw stranger (inl refl)
      | inl issuer ↦
          let required = list_invite_consensus_operators a.password_configured in
          elim (by_status-MayIssue a required op p rows p.status) [
            | inl same ↦ rw issuer (inl same)
            | inr may ↦ inr (issuer, may)
          ]
    ]

-- A decision on the proposal of an id.
pub data Decision : Type 0 where
  approving : (a : Around) (op : OperatorIdentity) (proposal_id : Text) → Decision
  rejecting : (op : OperatorIdentity) (proposal_id reason at : Text) → Decision

abbrev pub on_proposal :
    Text
    → InviteRows
    → (AdminInviteProposal → InviteRows × InviteAnswer)
    → Option AdminInviteProposal
    → InviteRows × InviteAnswer
on_proposal id rows act none = (rows, not_found)
on_proposal id rows act (some p) = act (record p { proposal_id = id })

abbrev pub decide_on : Decision → InviteRows → InviteRows × InviteAnswer
decide_on (approving a op id) rows =
    on_proposal id rows (λ p. approve_admin_invite_proposal a op p rows) (rows.proposals id)
decide_on (rejecting op id reason at) rows =
    on_proposal id rows (λ p. reject_admin_invite_proposal op p reason at rows) (rows.proposals id)

abbrev pub decide_all : List Decision → InviteRows → InviteRows
decide_all [] rows = rows
decide_all (d ∷ ds) rows = decide_all ds (decide_on d rows).0

-- What a decision does to the other proposals, and to one that is settled.
abbrev Spares : AdminInviteProposal → InviteRows → InviteRows → Type 0
Spares p rows rows' =
    ((j : Text) → text_eq p.proposal_id j ≡ false → rows'.proposals j ≡ rows.proposals j)
    × (is_settled p.status ≡ true → rows' ≡ rows)

under_limit-elsewhere :
    (a : Around) (operators : List InviteConsensusOperator) (op : OperatorIdentity)
    (p : AdminInviteProposal) (rows : InviteRows) (limit : IssueResult) (j : Text)
    → text_eq p.proposal_id j ≡ false
    → (under_limit a operators op p rows limit).0.proposals j ≡ rows.proposals j
under_limit-elsewhere a operators op p rows limit j other = elim (Bool-cases limit.limited) [
  | inl full ↦ rw (full, other) refl
  | inr room ↦ rw (room, other) refl
]

with_approval-elsewhere :
    (a : Around) (operators : List InviteConsensusOperator) (op : OperatorIdentity)
    (p : AdminInviteProposal) (rows : InviteRows) (j : Text)
    → text_eq p.proposal_id j ≡ false
    → (with_approval a operators op p rows).0.proposals j ≡ rows.proposals j
with_approval-elsewhere a operators op p rows j other =
    elim (Bool-cases (is_approved_by_all operators p)) [
      | inr waits ↦ rw (waits, other) refl
      | inl agreed ↦ rw agreed (under_limit-elsewhere a operators op p rows _ j other)
    ]

add_approval-proposal_id :
    (o : InviteConsensusOperator) (at : Text) (p : AdminInviteProposal)
    → (add_approval o at p).proposal_id ≡ p.proposal_id
unfolding add_approval
add_approval-proposal_id o at p = elim (Bool-cases (any (is_actor o.actor_id) p.approvals)) [
  | inl before ↦ rw before refl
  | inr new ↦ rw new refl
]

by_approver-elsewhere :
    (a : Around) (operators : List InviteConsensusOperator) (op : OperatorIdentity)
    (p : AdminInviteProposal) (rows : InviteRows) (o : Option InviteConsensusOperator) (j : Text)
    → text_eq p.proposal_id j ≡ false
    → (by_approver a operators op p rows o).0.proposals j ≡ rows.proposals j
by_approver-elsewhere a operators op p rows none j other = refl
by_approver-elsewhere a operators op p rows (some approver) j other =
    with_approval-elsewhere a operators op (add_approval approver a.at p) rows j
      (rw (add_approval-proposal_id approver a.at p) other)

by_status-Spares :
    (a : Around) (operators : List InviteConsensusOperator) (op : OperatorIdentity)
    (p : AdminInviteProposal) (rows : InviteRows) (status : AdminInviteProposalStatus)
    → ((j : Text)
        → text_eq p.proposal_id j ≡ false
        → (by_status a operators op p rows status).0.proposals j ≡ rows.proposals j)
      × (is_settled status ≡ true → (by_status a operators op p rows status).0 ≡ rows)
by_status-Spares a operators op p rows cancelled = ((λ j other. refl), (λ settled. refl))
by_status-Spares a [] op p rows issued = ((λ j other. refl), (λ settled. refl))
by_status-Spares a [] op p rows pending = ((λ j other. refl), (λ settled. refl))
by_status-Spares a (o ∷ os) op p rows issued = ((λ j other. refl), (λ settled. refl))
by_status-Spares a (o ∷ os) op p rows pending = (
  (λ j other. by_approver-elsewhere a (o ∷ os) op p rows (to_invite_consensus_operator op) j other),
  (λ settled. cc),
)

approve-Spares :
    (a : Around) (op : OperatorIdentity) (p : AdminInviteProposal) (rows : InviteRows)
    → Spares p rows (approve_admin_invite_proposal a op p rows).0
unfolding approve_admin_invite_proposal
approve-Spares a op p rows = elim (Bool-cases (has_admin_invite_issuance_authority op)) [
  | inr stranger ↦ rw stranger ((λ j other. refl), (λ settled. refl))
  | inl issuer ↦ rw issuer (by_status-Spares a _ op p rows p.status)
]

cancel-Spares :
    (op : OperatorIdentity) (reason at : Text) (p : AdminInviteProposal) (rows : InviteRows)
    (status : AdminInviteProposalStatus)
    → ((j : Text)
        → text_eq p.proposal_id j ≡ false
        → (cancel op reason at p rows status).0.proposals j ≡ rows.proposals j)
      × (is_settled status ≡ true → (cancel op reason at p rows status).0 ≡ rows)
cancel-Spares op reason at p rows issued = ((λ j other. refl), (λ settled. refl))
cancel-Spares op reason at p rows cancelled = ((λ j other. refl), (λ settled. refl))
cancel-Spares op reason at p rows pending = ((λ j other. rw other refl), (λ settled. cc))

reject-Spares :
    (op : OperatorIdentity) (p : AdminInviteProposal) (reason at : Text) (rows : InviteRows)
    → Spares p rows (reject_admin_invite_proposal op p reason at rows).0
unfolding reject_admin_invite_proposal
reject-Spares op p reason at rows = elim (Bool-cases (has_admin_invite_issuance_authority op)) [
  | inr stranger ↦ rw stranger ((λ j other. refl), (λ settled. refl))
  | inl issuer ↦ elim (Bool-cases (is_empty (trim reason))) [
    | inl missing ↦ rw (issuer, missing) ((λ j other. refl), (λ settled. refl))
    | inr given ↦ elim (Bool-cases (ltb 300 (length (trim reason)))) [
      | inl long ↦ rw (issuer, given, long) ((λ j other. refl), (λ settled. refl))
      | inr fits ↦ rw (issuer, given, fits) (cancel-Spares op (trim reason) at p rows p.status)
    ]
  ]
]

on_proposal-settled :
    (id : Text) (rows : InviteRows) (act : AdminInviteProposal → InviteRows × InviteAnswer)
    (settled_id : Text) (p : AdminInviteProposal)
    → ((q : AdminInviteProposal) → Spares q rows (act q).0)
    → rows.proposals settled_id ≡ some p
    → is_settled p.status ≡ true
    → (on_proposal id rows act (rows.proposals id)).0.proposals settled_id ≡ some p
on_proposal-settled id rows act settled_id p spares there settled =
    elim (Option-cases (rows.proposals id)) [
      | inl gone ↦ rw gone there
      | inr (q, found) ↦ elim (Bool-cases (text_eq id settled_id)) [
        | inr other ↦ rw found ((spares (record q { proposal_id = id })).0 settled_id other ∙ there)
        | inl same ↦
            let at_id : rows.proposals id ≡ some p =
              subst (λ t. rows.proposals t ≡ some p) (sym (text_eq_sound id settled_id same))
                there in
            rw at_id (
              subst (λ r. r.proposals settled_id ≡ some p)
                (sym ((spares (record p { proposal_id = id })).1 settled)) there)
      ]
    ]

-- A proposal is decided once: whatever decisions follow, by whomever and on whichever proposals, one
-- that is issued or cancelled stays as it is.
pub decide_all-settled :
    (ds : List Decision) (rows : InviteRows) (proposal_id : Text) (p : AdminInviteProposal)
    → rows.proposals proposal_id ≡ some p
    → is_settled p.status ≡ true
    → (decide_all ds rows).proposals proposal_id ≡ some p
decide_all-settled [] rows id p there settled = there
decide_all-settled (approving a op j ∷ ds) rows id p there settled =
    decide_all-settled ds (decide_on (approving a op j) rows).0 id p
      (on_proposal-settled j rows (λ q. approve_admin_invite_proposal a op q rows) id p
        (λ q. approve-Spares a op q rows) there settled)
      settled
decide_all-settled (rejecting op j reason at ∷ ds) rows id p there settled =
    decide_all-settled ds (decide_on (rejecting op j reason at) rows).0 id p
      (on_proposal-settled j rows (λ q. reject_admin_invite_proposal op q reason at rows) id p
        (λ q. reject-Spares op q reason at rows) there settled)
      settled
