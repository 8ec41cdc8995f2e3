-- ===== src/Governance/Keyed.antt =====
-- Rows stay under trimmed keys.
use instant_grant_core.Prelude.{
  trim, ◌≡◌, subst, inl, inr, ◌&&◌, some, List, Text, text_eq, text_eq_sound, Bool-cases,
  Option-cases, is_empty,
}
use instant_grant_core.Governance.Proposal.{
  is_executed, Proposal, includes, has_approved, is_unanimous, ProposalTable, action_eq,
}
use instant_grant_core.Governance.Process.{
  Clock, GovernanceRequest, trimmed, new_proposal, approved_by, GovernanceState, find_pending,
  approve, finish, decide, process_named, process_pending, process_governance_action,
}
use instant_grant_core.Governance.Honest.{
  IsReadFrom, read_row-found, create-row, find_pending-found,
}
use instant_grant_core.Governance.Reading.{read_row}
use instant_grant_core.Claim.KeyLaws.{trim_idem}

module _ {ℓ} (table : ProposalTable) {W : Type ℓ} {R : Type ℓ} (revoked : W → List Text)
    (execute : GovernanceRequest → W → W × R) where
  open table use {Table, get, put, list, get-put, get-own, get-list}

  abbrev pub IsKeyed : Table → Type 0
  IsKeyed t = (id : Text) (row : Proposal) → get t id ≡ some row → trim id ≡ id

  put-IsKeyed :
      (t : Table) (p : Proposal)
      → trim p.proposal_id ≡ p.proposal_id
      → IsKeyed t
      → IsKeyed (put t p)
  put-IsKeyed t p clean keyed id row found = elim (Bool-cases (text_eq p.proposal_id id)) [
    | inl same ↦ subst (λ i. trim i ≡ i) (text_eq_sound p.proposal_id id same) clean
    | inr other ↦ keyed id row (let f = get-put t p id in cc)
  ]

  -- The state's keys and the key that the proposal would be written under.
  abbrev IsTidy : GovernanceState table revoked execute × Proposal → Type 0
  IsTidy (s, p) = IsKeyed s.proposals × (trim p.proposal_id ≡ p.proposal_id)

  approve-IsTidy :
      (q : GovernanceRequest) (now : Clock) (s : GovernanceState table revoked execute)
      (p : Proposal)
      → IsTidy (s, p)
      → IsTidy (approve table revoked execute q now s p)
  unfolding approve approved_by
  approve-IsTidy q now s p tidy = elim (Bool-cases (has_approved q.actor.actor_id p.approvals)) [
    | inl before ↦ rw before tidy
    | inr after ↦ rw after (put-IsKeyed s.proposals _ tidy.1 tidy.0, tidy.1)
  ]

  finish-IsKeyed :
      (q : GovernanceRequest) (now : Clock) (s : GovernanceState table revoked execute)
      (p : Proposal)
      → IsTidy (s, p)
      → IsKeyed (finish table revoked execute q now s p).0.proposals
  unfolding finish
  finish-IsKeyed q now s p tidy = elim (Bool-cases (is_unanimous p)) [
    | inl all_in ↦ rw all_in (put-IsKeyed s.proposals _ tidy.1 tidy.0)
    | inr waiting ↦ rw waiting tidy.0
  ]

  decide-IsKeyed :
      (q : GovernanceRequest) (now : Clock) (s : GovernanceState table revoked execute)
      (p : Proposal)
      → IsTidy (s, p)
      → IsKeyed (decide table revoked execute q now s p).0.proposals
  unfolding decide
  decide-IsKeyed q now s p tidy =
      elim (Bool-cases (includes q.actor.actor_id p.required_approver_ids)) [
        | inl asked ↦ rw asked (finish-IsKeyed q now _ _ (approve-IsTidy q now s p tidy))
        | inr stranger ↦ rw stranger tidy.0
      ]

  read-clean :
      (t : Table) (p : Proposal)
      → IsReadFrom table revoked execute t p
      → trim p.proposal_id ≡ p.proposal_id
  read-clean t p (row, found, read) = rw read (trim_idem row.proposal_id)

  named-IsKeyed :
      (q : GovernanceRequest) (i : Text) (now : Clock) (s : GovernanceState table revoked execute)
      → IsKeyed s.proposals
      → IsKeyed
          (process_named table revoked execute q now s (read_row (get s.proposals i))).0.proposals
  unfolding process_named
  named-IsKeyed q i now s keyed = elim (Option-cases (read_row (get s.proposals i))) [
    | inl nothing ↦ rw nothing keyed
    | inr (p, found) ↦
        elim (Bool-cases
          (action_eq p.action_type q.action_type && text_eq p.target_id q.target_id)) [
            | inl fits ↦ elim (Bool-cases (is_executed p.status)) [
              | inl over ↦ rw (found, fits, over) keyed
              | inr waiting ↦
                  let clean =
                    read-clean s.proposals p
                      (read_row-found table revoked execute s.proposals i p found) in
                  rw (found, fits, waiting) (decide-IsKeyed q now s p (keyed, clean))
            ]
            | inr differs ↦ rw (found, differs) keyed
          ]
  ]

  pending-IsKeyed :
      (q : GovernanceRequest) (fresh : Text) (now : Clock)
      (s : GovernanceState table revoked execute)
      → trim fresh ≡ fresh
      → IsKeyed s.proposals
      → IsKeyed
          (process_pending table revoked execute q fresh now s
            (find_pending table revoked execute q s)).0.proposals
  unfolding process_pending new_proposal
  pending-IsKeyed q fresh now s clean keyed =
      elim (Option-cases (find_pending table revoked execute q s)) [
        | inl nothing ↦
            let made = create-row table revoked execute q fresh now s in
            let keyed' =
              put-IsKeyed s.proposals (new_proposal q fresh now.started made.0) clean keyed in
            rw nothing (decide-IsKeyed q now _ _ (rw (made.1, made.2) (keyed', clean)))
        | inr (p, found) ↦
            let f = find_pending-found table revoked execute q s p found in
            rw found (decide-IsKeyed q now s p (keyed, read-clean s.proposals p f.0))
      ]

  pub process-IsKeyed :
      (q : GovernanceRequest) (fresh : Text) (now : Clock)
      (s : GovernanceState table revoked execute)
      → trim fresh ≡ fresh
      → IsKeyed s.proposals
      → IsKeyed (process_governance_action table revoked execute q fresh now s).0.proposals
  unfolding process_governance_action
  process-IsKeyed q fresh now s clean keyed = elim (Bool-cases (is_empty (trimmed q.proposal_id))) [
    | inl unnamed ↦ rw unnamed (pending-IsKeyed q fresh now s clean keyed)
    | inr named ↦ rw named (named-IsKeyed q (trimmed q.proposal_id) now s keyed)
  ]
