-- ===== src/Governance/Honest.antt =====
-- Honest rows: every approval is by an actor, and a request keeps this.
use instant_grant_core.Prelude.{
  sym, trim, ℕ, ◌≡◌, refl, subst, ◌⊎◌, inl, inr, true, false, ◌&&◌, some, List, [], ◌∷◌, Text,
  text_eq, Bool-cases, Option-cases, is_empty,
}
use instant_grant_core.Governance.Proposal.{
  is_executed, Proposal, includes, has_approved, is_unanimous, normalize_ids, ProposalTable,
  action_eq,
}
use instant_grant_core.Governance.Process.{
  Clock, GovernanceRequest, trimmed, is_candidate, new_proposal, GovernanceState, find_pending,
  create_proposal, approve, finish, decide, process_named, process_pending,
  process_governance_action,
}
use instant_grant_core.Governance.Reading.{parsed_row, read_row}
use instant_grant_core.Governance.ReadingLaws.{All-read_rows, read_row-some}
use instant_grant_core.Governance.Rows.{
  parsed_row-IsRow, All-newest_first, All-keep_if, choose-All, IsRow, IsRow-cons, approved_by-IsRow,
}

module _ {ℓ κ} (table : ProposalTable) {W : Type ℓ} {R : Type κ} (revoked : W → List Text)
    (execute : GovernanceRequest → W → W × R) where
  open table use {Table, get, put, list, get-put, get-own, get-list}

  abbrev pub IsHonest : List Text → Table → Type 0
  IsHonest actors t = (id : Text) (p : Proposal) → get t id ≡ some p → IsRow actors p

  put-IsHonest :
      (actors : List Text) (t : Table) (p : Proposal)
      → IsHonest actors t
      → IsRow actors p
      → IsHonest actors (put t p)
  put-IsHonest actors t p h row id p' found = elim (Bool-cases (text_eq p.proposal_id id)) [
    | inl same ↦ let e : p ≡ p' = let f = get-put t p id in cc in subst (IsRow actors) e row
    | inr other ↦ h id p' (let f = get-put t p id in cc)
  ]

  IsHonest-cons :
      (actor : Text) (actors : List Text) (t : Table)
      → IsHonest actors t
      → IsHonest (actor ∷ actors) t
  IsHonest-cons actor actors t h id p found = IsRow-cons actor actors p (h id p found)

  approve-IsHonest :
      (q : GovernanceRequest) (actors : List Text) (now : Clock)
      (s : GovernanceState table revoked execute) (p : Proposal)
      → IsHonest actors s.proposals
      → IsRow actors p
      → trim q.actor.actor_id ≡ q.actor.actor_id
      → is_executed p.status ≡ false
      → IsHonest (q.actor.actor_id ∷ actors) (approve table revoked execute q now s p).0.proposals
        × IsRow (q.actor.actor_id ∷ actors) (approve table revoked execute q now s p).1
  unfolding approve
  approve-IsHonest q actors now s p h row clean waiting =
      elim (Bool-cases (has_approved q.actor.actor_id p.approvals)) [
        | inl before ↦ rw before (
          IsHonest-cons q.actor.actor_id actors s.proposals h,
          IsRow-cons q.actor.actor_id actors p row,
        )
        | inr after ↦
            let row' = approved_by-IsRow q.actor.actor_id actors now.started p clean waiting row in
            rw after (
              put-IsHonest (q.actor.actor_id ∷ actors) s.proposals _
                  (IsHonest-cons q.actor.actor_id actors s.proposals h) row',
              row',
            )
      ]

  finish-IsHonest :
      (q : GovernanceRequest) (actors : List Text) (now : Clock)
      (s : GovernanceState table revoked execute) (p : Proposal)
      → IsHonest actors s.proposals
      → IsRow actors p
      → IsHonest actors (finish table revoked execute q now s p).0.proposals
  unfolding finish
  finish-IsHonest q actors now s p h row = elim (Bool-cases (is_unanimous p)) [
    | inl all_in ↦ rw all_in (
        put-IsHonest actors s.proposals _ h
          (record { approvals = row.approvals; complete = all_in }))
    | inr waiting ↦ rw waiting h
  ]

  decide-IsHonest :
      (q : GovernanceRequest) (actors : List Text) (now : Clock)
      (s : GovernanceState table revoked execute) (p : Proposal)
      → IsHonest actors s.proposals
      → IsRow actors p
      → trim q.actor.actor_id ≡ q.actor.actor_id
      → is_executed p.status ≡ false
      → IsHonest (q.actor.actor_id ∷ actors) (decide table revoked execute q now s p).0.proposals
  unfolding decide
  decide-IsHonest q actors now s p h row clean waiting =
      elim (Bool-cases (includes q.actor.actor_id p.required_approver_ids)) [
        | inl asked ↦
            let step = approve-IsHonest q actors now s p h row clean waiting in
            rw asked (finish-IsHonest q (q.actor.actor_id ∷ actors) now _ _ step.0 step.1)
        | inr stranger ↦ rw stranger (IsHonest-cons q.actor.actor_id actors s.proposals h)
      ]

  -- A stored row that a proposal is read from.
  abbrev pub IsReadFrom : Table → Proposal → Type 0
  IsReadFrom t p = (row : Proposal) × (get t row.proposal_id ≡ some row) × (p ≡ parsed_row row)

  -- A proposal that a request without an id takes up is read from its row, and waits.
  pub find_pending-found :
      (q : GovernanceRequest) (s : GovernanceState table revoked execute) (p : Proposal)
      → find_pending table revoked execute q s ≡ some p
      → IsReadFrom s.proposals p × (is_candidate q p ≡ true)
  unfolding find_pending
  find_pending-found q s p found =
      choose-All (λ p. IsReadFrom s.proposals p × (is_candidate q p ≡ true))
        (normalize_ids q.required_approver_ids) _ p
        (All-keep_if (IsReadFrom s.proposals) (is_candidate q) _ (
          All-newest_first (IsReadFrom s.proposals) _ (
            All-read_rows (λ row. get s.proposals row.proposal_id ≡ some row) (list s.proposals)
              (get-list s.proposals))))
        found

  -- A proposal that a request names is read from its row.
  pub read_row-found :
      (t : Table) (id : Text) (p : Proposal) → read_row (get t id) ≡ some p → IsReadFrom t p
  read_row-found t id p found =
      let (row, stored, same) = read_row-some (get t id) p found in
      (row, subst (λ k. get t k ≡ some row) (sym (get-own t id row stored)) stored, same)

  read-IsRow :
      (actors : List Text) (t : Table) (p : Proposal)
      → IsHonest actors t
      → IsReadFrom t p
      → IsRow actors p
  read-IsRow actors t p h from =
      let honest = parsed_row-IsRow actors from.0 (h from.0.proposal_id from.0 from.1) in
      subst (IsRow actors) (sym from.2) honest

  new_proposal-IsRow :
      (actors : List Text) (q : GovernanceRequest) (id : Text) (now : ℕ) (required : List Text)
      → IsRow actors (new_proposal q id now required)
  unfolding new_proposal
  new_proposal-IsRow actors q id now required = record { approvals = tt; complete = refl }

  List-cases {μ} :
      {A : Type μ} (xs : List A) → (xs ≡ []) ⊎ ((x : A) × (rest : List A) × (xs ≡ x ∷ rest))
  List-cases [] = inl refl
  List-cases (x ∷ xs) = inr (x, xs, refl)

  -- A creation writes a new row, whoever is required, and leaves the world alone.
  pub create-row :
      (q : GovernanceRequest) (id : Text) (now : Clock) (s : GovernanceState table revoked execute)
      → (required : List Text) × ((create_proposal table revoked execute q id now s).0.proposals
          ≡ put s.proposals (new_proposal q id now.started required))
        × ((create_proposal table revoked execute q id now s).1
            ≡ new_proposal q id now.started required)
        × ((create_proposal table revoked execute q id now s).0.world ≡ s.world)
  unfolding create_proposal new_proposal
  create-row q id now s = elim (List-cases (normalize_ids q.required_approver_ids)) [
    | inl nobody ↦ rw (nobody, create_proposal) (_, refl, refl, refl)
    | inr (j, js, named) ↦ rw (named, create_proposal) (j ∷ js, refl, refl, refl)
  ]

  -- A new proposal has its row, waits and has no approvals yet.
  create-IsHonest :
      (q : GovernanceRequest) (actors : List Text) (id : Text) (now : Clock)
      (s : GovernanceState table revoked execute)
      → IsHonest actors s.proposals
      → IsHonest actors (create_proposal table revoked execute q id now s).0.proposals
        × IsRow actors (create_proposal table revoked execute q id now s).1
        × (is_executed (create_proposal table revoked execute q id now s).1.status ≡ false)
  unfolding new_proposal
  create-IsHonest q actors id now s h =
      let made = create-row q id now s in
      let row = new_proposal-IsRow actors q id now.started made.0 in
      rw (made.1, made.2) (put-IsHonest actors s.proposals _ h row, row, refl)

  pub is_candidate-waiting :
      (q : GovernanceRequest) (p : Proposal)
      → is_candidate q p ≡ true
      → is_executed p.status ≡ false
  is_candidate-waiting q p h = elim (Bool-cases (is_executed p.status)) [
    | inl done ↦ let e : is_candidate q p ≡ false = rw done refl in cc
    | inr waiting ↦ waiting
  ]

  process_pending-IsHonest :
      (q : GovernanceRequest) (actors : List Text) (id : Text) (now : Clock)
      (s : GovernanceState table revoked execute)
      → trim q.actor.actor_id ≡ q.actor.actor_id
      → IsHonest actors s.proposals
      → IsHonest
          (q.actor.actor_id ∷ actors)
          (process_pending table revoked execute q id now s
            (find_pending table revoked execute q s)).0.proposals
  unfolding process_pending
  process_pending-IsHonest q actors id now s clean h =
      elim (Option-cases (find_pending table revoked execute q s)) [
        | inl nothing ↦
            let step = create-IsHonest q actors id now s h in
            rw nothing (decide-IsHonest q actors now _ _ step.0 step.1 clean step.2)
        | inr (p, found) ↦
            let f = find_pending-found q s p found in
            rw found (
              decide-IsHonest q actors now s p h (read-IsRow actors s.proposals p h f.0) clean
                (is_candidate-waiting q p f.1))
      ]

  process_named-IsHonest :
      (q : GovernanceRequest) (actors : List Text) (id : Text) (now : Clock)
      (s : GovernanceState table revoked execute)
      → trim q.actor.actor_id ≡ q.actor.actor_id
      → IsHonest actors s.proposals
      → IsHonest
          (q.actor.actor_id ∷ actors)
          (process_named table revoked execute q now s (read_row (get s.proposals id))).0.proposals
  unfolding process_named
  process_named-IsHonest q actors id now s clean h =
      let kept = IsHonest-cons q.actor.actor_id actors s.proposals h in
      elim (Option-cases (read_row (get s.proposals id))) [
        | inl nothing ↦ rw nothing kept
        | inr (p, found) ↦
            elim (Bool-cases
              (action_eq p.action_type q.action_type && text_eq p.target_id q.target_id)) [
                | inl fits ↦ elim (Bool-cases (is_executed p.status)) [
                  | inl done ↦ rw (found, fits, done) kept
                  | inr waiting ↦
                      rw (found, fits, waiting)
                        (decide-IsHonest q actors now s p h
                          (read-IsRow actors s.proposals p h
                            (read_row-found s.proposals id p found))
                          clean waiting)
                ]
                | inr differs ↦ rw (found, differs) kept
              ]
      ]

  pub process-IsHonest :
      (q : GovernanceRequest) (actors : List Text) (id : Text) (now : Clock)
      (s : GovernanceState table revoked execute)
      → trim q.actor.actor_id ≡ q.actor.actor_id
      → IsHonest actors s.proposals
      → IsHonest
          (q.actor.actor_id ∷ actors)
          (process_governance_action table revoked execute q id now s).0.proposals
  unfolding process_governance_action
  process-IsHonest q actors id now s clean h =
      elim (Bool-cases (is_empty (trimmed q.proposal_id))) [
        | inl unnamed ↦ rw unnamed (process_pending-IsHonest q actors id now s clean h)
        | inr named ↦
            rw named (process_named-IsHonest q actors (trimmed q.proposal_id) now s clean h)
      ]
