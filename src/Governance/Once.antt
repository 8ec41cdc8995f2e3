-- ===== src/Governance/Once.antt =====
-- An executed proposal keeps its row: it is not executed again.
use instant_grant_core.Prelude.{
  ap, ◌∙◌, trim, ◌≡◌, sym, subst, inl, inr, true, false, ◌&&◌, some, List, [], ◌∷◌, Text, text_eq,
  text_eq_sound, All, Bool-cases, Option-cases, is_empty,
}
use instant_grant_core.Governance.Proposal.{
  is_executed, Proposal, includes, has_approved, is_unanimous, ProposalTable, action_eq,
}
use instant_grant_core.Governance.Process.{
  Clock, GovernanceRequest, trimmed, new_proposal, approved_by, GovernanceState, find_pending,
  approve, finish, decide, process_named, process_pending, process_governance_action,
}
use instant_grant_core.Governance.Honest.{
  IsReadFrom, read_row-found, create-row, find_pending-found, is_candidate-waiting,
}
use instant_grant_core.Governance.Consensus.{process_all}
use instant_grant_core.Governance.Effects.{approve-id}
use instant_grant_core.Governance.Reading.{read_row}
use instant_grant_core.Governance.ReadingLaws.{parse_status-executed}
use instant_grant_core.Governance.Keyed.{IsKeyed, process-IsKeyed}

module _ {ℓ} (table : ProposalTable) {W : Type ℓ} {R : Type ℓ} (revoked : W → List Text)
    (execute : GovernanceRequest → W → W × R) where
  open table use {Table, get, put, list, get-put, get-own, get-list}

  -- A row that is stored under an id and stays there when another proposal is written.
  put-other :
      (t : Table) (p : Proposal) (id : Text) (row : Proposal)
      → text_eq p.proposal_id id ≡ false
      → get t id ≡ some row
      → get (put t p) id ≡ some row
  put-other t p id row other stored = let f = get-put t p id in cc

  approve-other :
      (q : GovernanceRequest) (now : Clock) (s : GovernanceState table revoked execute)
      (p : Proposal) (id : Text) (row : Proposal)
      → text_eq p.proposal_id id ≡ false
      → get s.proposals id ≡ some row
      → get (approve table revoked execute q now s p).0.proposals id ≡ some row
  unfolding approve approved_by
  approve-other q now s p id row other stored =
      elim (Bool-cases (has_approved q.actor.actor_id p.approvals)) [
        | inl before ↦ rw before stored
        | inr after ↦ rw after (put-other s.proposals _ id row other stored)
      ]

  finish-other :
      (q : GovernanceRequest) (now : Clock) (s : GovernanceState table revoked execute)
      (p : Proposal) (id : Text) (row : Proposal)
      → text_eq p.proposal_id id ≡ false
      → get s.proposals id ≡ some row
      → get (finish table revoked execute q now s p).0.proposals id ≡ some row
  unfolding finish
  finish-other q now s p id row other stored = elim (Bool-cases (is_unanimous p)) [
    | inl all_in ↦ rw all_in (put-other s.proposals _ id row other stored)
    | inr waiting ↦ rw waiting stored
  ]

  decide-other :
      (q : GovernanceRequest) (now : Clock) (s : GovernanceState table revoked execute)
      (p : Proposal) (id : Text) (row : Proposal)
      → text_eq p.proposal_id id ≡ false
      → get s.proposals id ≡ some row
      → get (decide table revoked execute q now s p).0.proposals id ≡ some row
  unfolding decide
  decide-other q now s p id row other stored =
      elim (Bool-cases (includes q.actor.actor_id p.required_approver_ids)) [
        | inl asked ↦ rw asked (
            finish-other q now _ _ id row (rw (approve-id table revoked execute q now s p) other)
              (approve-other q now s p id row other stored))
        | inr stranger ↦ rw stranger stored
      ]

  -- A waiting proposal is not read from the row of the executed one.
  waiting-other :
      (t : Table) (p : Proposal) (id : Text) (row : Proposal)
      → IsKeyed table revoked execute t
      → IsReadFrom table revoked execute t p
      → is_executed p.status ≡ false
      → get t id ≡ some row
      → is_executed row.status ≡ true
      → text_eq p.proposal_id id ≡ false
  waiting-other t p id row keyed (own, found, read) waiting stored done =
      elim (Bool-cases (text_eq p.proposal_id id)) [
        | inl same ↦
            let at_id : own.proposal_id ≡ id =
              sym (keyed own.proposal_id own found)
              ∙ (sym (ap (λ r. r.proposal_id) read) ∙ text_eq_sound p.proposal_id id same) in
            let found' : get t id ≡ some own = subst (λ i. get t i ≡ some own) at_id found in
            let e : own ≡ row = cc in
            let done' : is_executed p.status ≡ true =
              ap (λ r. is_executed r.status) read
              ∙ (parse_status-executed own.status ∙ (ap (λ r. is_executed r.status) e ∙ done)) in
            cc
        | inr other ↦ other
      ]

  named-kept :
      (q : GovernanceRequest) (i : Text) (now : Clock) (s : GovernanceState table revoked execute)
      (id : Text) (row : Proposal)
      → IsKeyed table revoked execute s.proposals
      → get s.proposals id ≡ some row
      → is_executed row.status ≡ true
      → get
          (process_named table revoked execute q now s (read_row (get s.proposals i))).0.proposals
          id
        ≡ some row
  unfolding process_named
  named-kept q i now s id row keyed stored done =
      elim (Option-cases (read_row (get s.proposals i))) [
        | inl nothing ↦ rw nothing stored
        | inr (p, found) ↦
            elim (Bool-cases
              (action_eq p.action_type q.action_type && text_eq p.target_id q.target_id)) [
                | inl fits ↦ elim (Bool-cases (is_executed p.status)) [
                  | inl over ↦ rw (found, fits, over) stored
                  | inr waiting ↦
                      let from = read_row-found table revoked execute s.proposals i p found in
                      rw (found, fits, waiting)
                        (decide-other q now s p id row
                          (waiting-other s.proposals p id row keyed from waiting stored done)
                          stored)
                ]
                | inr differs ↦ rw (found, differs) stored
              ]
      ]

  pending-kept :
      (q : GovernanceRequest) (fresh : Text) (now : Clock)
      (s : GovernanceState table revoked execute) (id : Text) (row : Proposal)
      → IsKeyed table revoked execute s.proposals
      → get s.proposals id ≡ some row
      → is_executed row.status ≡ true
      → text_eq fresh id ≡ false
      → get
          (process_pending table revoked execute q fresh now s
            (find_pending table revoked execute q s)).0.proposals
          id
        ≡ some row
  unfolding process_pending new_proposal
  pending-kept q fresh now s id row keyed stored done new =
      elim (Option-cases (find_pending table revoked execute q s)) [
        | inl nothing ↦
            let made = create-row table revoked execute q fresh now s in
            let p' = new_proposal q fresh now.started made.0 in
            let stored' = put-other s.proposals p' id row new stored in
            rw nothing (decide-other q now _ _ id row (rw (made.2) new) (rw (made.1) stored'))
        | inr (p, found) ↦
            let f = find_pending-found table revoked execute q s p found in
            rw found (
              decide-other q now s p id row
                (waiting-other s.proposals p id row keyed f.0
                  (is_candidate-waiting table revoked execute q p f.1) stored done)
                stored)
      ]

  -- One governance request on rows whose keys are trimmed, whose fresh id is not that of a stored, executed proposal, leaves this
  -- proposal's row as it is.
  pub process-executed :
      (q : GovernanceRequest) (fresh : Text) (now : Clock)
      (s : GovernanceState table revoked execute) (id : Text) (row : Proposal)
      → IsKeyed table revoked execute s.proposals
      → get s.proposals id ≡ some row
      → is_executed row.status ≡ true
      → text_eq fresh id ≡ false
      → get (process_governance_action table revoked execute q fresh now s).0.proposals id
        ≡ some row
  unfolding process_governance_action
  process-executed q fresh now s id row keyed stored done new =
      elim (Bool-cases (is_empty (trimmed q.proposal_id))) [
        | inl unnamed ↦ rw unnamed (pending-kept q fresh now s id row keyed stored done new)
        | inr named ↦ rw named (named-kept q (trimmed q.proposal_id) now s id row keyed stored done)
      ]

  -- On rows whose keys are trimmed, as their ids are issued, after any requests whose fresh ids are
  -- trimmed and none of which is that of a stored, executed proposal: the proposal's row is as it
  -- was.
  pub process_all-executed :
      (requests : List (GovernanceRequest × Text × Clock))
      (s : GovernanceState table revoked execute) (id : Text) (row : Proposal)
      → IsKeyed table revoked execute s.proposals
      → get s.proposals id ≡ some row
      → is_executed row.status ≡ true
      → All (λ r. (trim r.1 ≡ r.1) × (text_eq r.1 id ≡ false)) requests
      → get (process_all table revoked execute requests s).proposals id ≡ some row
  process_all-executed [] s id row keyed stored done new = stored
  process_all-executed ((q, fresh, now) ∷ rest) s id row keyed stored done new =
      process_all-executed rest _ id row
        (process-IsKeyed table revoked execute q fresh now s new.0.0 keyed)
        (process-executed q fresh now s id row keyed stored done new.0.1) done new.1
