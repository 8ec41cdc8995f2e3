-- ===== src/Governance/Effects.antt =====
-- What one governance request does to the rest of the program, and what it leaves alone.
use instant_grant_core.Governance.Reading.{read_row}
use instant_grant_core.Prelude.{
  ◌≡◌, refl, ◌∙◌, inl, inr, true, ◌&&◌, some, List, Text, text_eq, text_eq_refl, Bool-cases,
  Option-cases, is_empty,
}
use instant_grant_core.Governance.Proposal.{
  executed, is_executed, Proposal, includes, has_approved, is_unanimous, ProposalTable, action_eq,
}
use instant_grant_core.Governance.Process.{
  Clock, GovernanceRequest, Answer, not_found, mismatch, already_executed, forbidden,
  pending_consensus, success, trimmed, approved_by, GovernanceState, find_pending, approve, finish,
  decide, process_named, process_pending, process_governance_action,
}
use instant_grant_core.Governance.Honest.{create-row}

module _ {ℓ} (table : ProposalTable) {W : Type ℓ} {R : Type ℓ} (revoked : W → List Text)
    (execute : GovernanceRequest → W → W × R) where
  open table use {Table, get, put, list, get-put, get-own, get-list}

  -- The world after a request, by its answer: a success has all required approvals, the requester's
  -- among them, its row and its action; any other answer changes nothing.
  abbrev pub Warranted :
      GovernanceRequest → W → GovernanceState table revoked execute × Answer R → Type ℓ
  Warranted q w (s, success r p) =
      (is_unanimous p ≡ true)
      × (includes q.actor.actor_id p.required_approver_ids ≡ true)
      × (get s.proposals p.proposal_id ≡ some p)
      × (is_executed p.status ≡ true)
      × (s.world ≡ (execute q w).0)
      × (r ≡ (execute q w).1)
  Warranted q w (s, not_found) = s.world ≡ w
  Warranted q w (s, mismatch) = s.world ≡ w
  Warranted q w (s, already_executed p) = s.world ≡ w
  Warranted q w (s, forbidden id) = s.world ≡ w
  Warranted q w (s, pending_consensus p) = s.world ≡ w

  approve-world :
      (q : GovernanceRequest) (now : Clock) (s : GovernanceState table revoked execute)
      (p : Proposal)
      → (approve table revoked execute q now s p).0.world ≡ s.world
  unfolding approve
  approve-world q now s p = elim (Bool-cases (has_approved q.actor.actor_id p.approvals)) [
    | inl before ↦ rw before refl
    | inr after ↦ rw after refl
  ]

  approve-required :
      (q : GovernanceRequest) (now : Clock) (s : GovernanceState table revoked execute)
      (p : Proposal)
      → (approve table revoked execute q now s p).1.required_approver_ids ≡ p.required_approver_ids
  unfolding approve approved_by
  approve-required q now s p = elim (Bool-cases (has_approved q.actor.actor_id p.approvals)) [
    | inl before ↦ rw before refl
    | inr after ↦ rw after refl
  ]

  pub approve-id :
      (q : GovernanceRequest) (now : Clock) (s : GovernanceState table revoked execute)
      (p : Proposal)
      → (approve table revoked execute q now s p).1.proposal_id ≡ p.proposal_id
  unfolding approve approved_by
  approve-id q now s p = elim (Bool-cases (has_approved q.actor.actor_id p.approvals)) [
    | inl before ↦ rw before refl
    | inr after ↦ rw after refl
  ]

  finish-Warranted :
      (q : GovernanceRequest) (now : Clock) (w : W) (s : GovernanceState table revoked execute)
      (p : Proposal)
      → s.world ≡ w
      → includes q.actor.actor_id p.required_approver_ids ≡ true
      → Warranted q w (finish table revoked execute q now s p)
  unfolding finish
  finish-Warranted q now w s p same asked = elim (Bool-cases (is_unanimous p)) [
    | inl all_in ↦
        let p' = record p { status = executed now.finished q.actor.actor_id } in
        let own : get (put s.proposals p') p.proposal_id ≡ some p' =
          get-put s.proposals p' p.proposal_id ∙ (rw (text_eq_refl p.proposal_id) refl) in
        rw (all_in, same) (all_in, asked, own, refl, refl, refl)
    | inr waiting ↦ rw waiting same
  ]

  decide-Warranted :
      (q : GovernanceRequest) (now : Clock) (w : W) (s : GovernanceState table revoked execute)
      (p : Proposal)
      → s.world ≡ w
      → Warranted q w (decide table revoked execute q now s p)
  unfolding decide
  decide-Warranted q now w s p same =
      elim (Bool-cases (includes q.actor.actor_id p.required_approver_ids)) [
        | inl asked ↦ rw asked (
            finish-Warranted q now w _ _ (approve-world q now s p ∙ same)
              (rw (approve-required q now s p) asked))
        | inr stranger ↦ rw stranger same
      ]

  named-Warranted :
      (q : GovernanceRequest) (id : Text) (now : Clock) (s : GovernanceState table revoked execute)
      → Warranted q s.world
          (process_named table revoked execute q now s (read_row (get s.proposals id)))
  unfolding process_named
  named-Warranted q id now s = elim (Option-cases (read_row (get s.proposals id))) [
    | inl nothing ↦ rw nothing refl
    | inr (p, found) ↦
        elim (Bool-cases
          (action_eq p.action_type q.action_type && text_eq p.target_id q.target_id)) [
            | inl fits ↦ elim (Bool-cases (is_executed p.status)) [
              | inl done ↦ rw (found, fits, done) refl
              | inr waiting ↦ rw (found, fits, waiting) (decide-Warranted q now s.world s p refl)
            ]
            | inr differs ↦ rw (found, differs) refl
          ]
  ]

  pending-Warranted :
      (q : GovernanceRequest) (id : Text) (now : Clock) (s : GovernanceState table revoked execute)
      → Warranted q s.world (
          process_pending table revoked execute q id now s (find_pending table revoked execute q s))
  unfolding process_pending
  pending-Warranted q id now s = elim (Option-cases (find_pending table revoked execute q s)) [
    | inl nothing ↦
        rw nothing
          (decide-Warranted q now s.world _ _ (create-row table revoked execute q id now s).3)
    | inr (p, found) ↦ rw found (decide-Warranted q now s.world s p refl)
  ]

  -- After one governance request, answered by success with a proposal, each of the proposal's
  -- required approvers has an approval in it, the requester is one of them, the proposal is stored
  -- as executed, and the rest of the program and the result are those of one run of the action.
  -- After any other answer the rest of the program is as it was.
  pub process_governance_action-Warranted :
      (q : GovernanceRequest) (id : Text) (now : Clock) (s : GovernanceState table revoked execute)
      → Warranted q s.world (process_governance_action table revoked execute q id now s)
  unfolding process_governance_action
  process_governance_action-Warranted q id now s =
      elim (Bool-cases (is_empty (trimmed q.proposal_id))) [
        | inl unnamed ↦ rw unnamed (pending-Warranted q id now s)
        | inr named ↦ rw named (named-Warranted q (trimmed q.proposal_id) now s)
      ]
