-- ===== src/Governance/Tests.antt =====
-- Two masters who freeze a user, and the theorems of the governance at inputs that meet their
-- hypotheses.
use instant_grant_core.Governance.Reading.{
  read_row, read_rows, parse_proposal, parse_approval, merge_approval, merge_approvals,
}
use instant_grant_core.Prelude.{
  subst, text_eq_sound, ℕ, ◌+◌, ◌≡◌, inl, inr, refl, true, false, Option, none, some, List, [], ◌∷◌,
  Text, codes, text_eq, text_eq_iff, text_eq_refl, All, Bool-cases, if◌then◌else◌, arith, trim,
  trim_start, trim_end, keep_before, is_space,
}
use instant_grant_core.Governance.Proposal.{
  freeze_user, executed, Proposal, ProposalTable, text_lt, insert_id, id_set, normalize_ids,
  insert_newest, newest_first, insert_approval, sort_approvals,
}
use instant_grant_core.Governance.Process.{
  Clock, master, GovernanceRequest, new_proposal, approved_by, register_operator, community_ids,
  GovernanceState, find_pending, create_proposal, approve, finish, decide, process_named,
  process_pending, process_governance_action,
}
use instant_grant_core.Governance.Consensus.{process_all, has_acted, process_all-consensus}
use instant_grant_core.Governance.Effects.{Warranted, process_governance_action-Warranted}
use instant_grant_core.Governance.Keyed.{IsKeyed}
use instant_grant_core.Governance.Once.{process_all-executed}

abbrev row_of : Text → List Proposal → Option Proposal
row_of id [] = none
row_of id (p ∷ rows) =
    let rest = row_of id rows in if text_eq p.proposal_id id then some p else rest

-- The newest row of an id stands first.
abbrev without : Text → List Proposal → List Proposal
without id [] = []
without id (p ∷ rows) =
    let rest = without id rows in if text_eq p.proposal_id id then rest else p ∷ rest

abbrev newest_rows : List Proposal → List Proposal
newest_rows [] = []
newest_rows (p ∷ rows) = p ∷ without p.proposal_id (newest_rows rows)

row_of-own :
    (rows : List Proposal) (id : Text) (p : Proposal) → row_of id rows ≡ some p → p.proposal_id ≡ id
row_of-own [] id p found = cc
row_of-own (q ∷ rows) id p found =
    ground (arith, text_eq_iff q.proposal_id id, row_of-own rows id p)

row_of-without :
    (rows : List Proposal) (p : Proposal) (listed : List Proposal)
    → All (λ q. row_of q.proposal_id rows ≡ some q) listed
    → All (λ q. row_of q.proposal_id (p ∷ rows) ≡ some q) (without p.proposal_id listed)
row_of-without rows p [] h = tt
row_of-without rows p (q ∷ qs) h = elim (Bool-cases (text_eq q.proposal_id p.proposal_id)) [
  | inl same ↦ rw same (row_of-without rows p qs h.1)
  | inr other ↦
      let other' : text_eq p.proposal_id q.proposal_id ≡ false =
        ground (
          arith,
          text_eq_iff q.proposal_id p.proposal_id,
          text_eq_iff p.proposal_id q.proposal_id,
        ) in
      rw other ((rw other' h.0), row_of-without rows p qs h.1)
]

row_of-newest_rows :
    (rows : List Proposal) → All (λ q. row_of q.proposal_id rows ≡ some q) (newest_rows rows)
row_of-newest_rows [] = tt
row_of-newest_rows (p ∷ rows) = (
  (rw (text_eq_refl p.proposal_id) refl),
  row_of-without rows p (newest_rows rows) (row_of-newest_rows rows),
)

abbrev in_memory : ProposalTable
in_memory = record {
  Table = List Proposal;
  get = λ rows id. row_of id rows;
  put = λ rows p. p ∷ rows;
  list = newest_rows;
  get-put = λ rows p id. refl;
  get-own = row_of-own;
  get-list = row_of-newest_rows;
}

-- The world is the number of actions that have run.
abbrev nobody_revoked : ℕ → List Text
nobody_revoked w = []

abbrev count_run : GovernanceRequest → ℕ → ℕ × ℕ
count_run q w = (w + 1, w)

abbrev at : ℕ → Clock
at now = record { started = now; finished = now + 1 }

abbrev freeze_by : Text → GovernanceRequest
freeze_by id = record {
  actor = record { actor_id = id; role = master };
  action_type = freeze_user;
  target_id = codes "u1";
  reason = codes "spam";
  proposal_id = none;
  required_approver_ids = codes "b" ∷ codes "a" ∷ [];
}

abbrev nothing_stored : GovernanceState in_memory nobody_revoked count_run
nothing_stored = record { proposals = []; operators = []; log = []; world = 0 }

abbrev both_request : List (GovernanceRequest × Text × Clock)
both_request =
    (freeze_by (codes "a"), codes "p1", at 10) ∷ (freeze_by (codes "b"), codes "p2", at 19) ∷ []

abbrev frozen : Proposal
frozen = record {
  proposal_id = codes "p1";
  action_type = freeze_user;
  target_id = codes "u1";
  reason = codes "spam";
  created_at = 10;
  requested_by = codes "a";
  required_approver_ids = codes "a" ∷ codes "b" ∷ [];
  approvals =
      record { actor_id = codes "a"; approved_at = 10 }
      ∷ record { actor_id = codes "b"; approved_at = 19 }
      ∷ [];
  status = executed 20 (codes "b");
}

governance : Unit {0}
unfolding read_row read_rows parse_proposal parse_approval merge_approval merge_approvals
    process_governance_action process_pending process_named decide finish approve create_proposal
    find_pending new_proposal approved_by register_operator community_ids normalize_ids id_set
    insert_id text_lt newest_first insert_newest sort_approvals insert_approval trim trim_start
    trim_end keep_before is_space
governance = tt

both_request_test :
    row_of
      (codes "p1")
      (process_all in_memory nobody_revoked count_run both_request nothing_stored).proposals
    ≡ some frozen
unfolding governance
both_request_test = refl

ran_once_test :
    (process_all in_memory nobody_revoked count_run both_request nothing_stored).world ≡ 1
unfolding governance
ran_once_test = refl

process_all-consensus_example : has_acted (codes "a") both_request ≡ true
unfolding governance
process_all-consensus_example =
    process_all-consensus in_memory nobody_revoked count_run both_request nothing_stored
      (codes "p1") frozen (codes "a") (λ id. refl) (refl, (refl, tt)) refl refl refl

abbrev half_way : GovernanceState in_memory nobody_revoked count_run
half_way =
    (process_governance_action in_memory nobody_revoked count_run (freeze_by (codes "a"))
      (codes "p1") (at 10) nothing_stored).0

process_governance_action-Warranted_example :
    Warranted in_memory nobody_revoked count_run (freeze_by (codes "b")) 0 (
      process_governance_action in_memory nobody_revoked count_run
        (freeze_by (codes "b"))
        (codes "p2")
        (at 19)
        half_way)
unfolding governance
process_governance_action-Warranted_example =
    process_governance_action-Warranted in_memory nobody_revoked count_run (freeze_by (codes "b"))
      (codes "p2") (at 19) half_way

frozen-IsKeyed : IsKeyed in_memory nobody_revoked count_run (frozen ∷ [])
unfolding governance
frozen-IsKeyed id row found = elim (Bool-cases (text_eq (codes "p1") id)) [
  | inl same ↦ subst (λ i. trim i ≡ i) (text_eq_sound (codes "p1") id same) refl
  | inr other ↦ let nothing : none ≡ some row = rw other at found in cc
]

process_all-executed_example :
    row_of
      (codes "p1")
      (process_all in_memory nobody_revoked count_run
        ((freeze_by (codes "b"), codes "p3", at 30) ∷ [])
        (record nothing_stored { proposals = frozen ∷ [] })).proposals
    ≡ some frozen
unfolding governance
process_all-executed_example =
    process_all-executed in_memory nobody_revoked count_run
      ((freeze_by (codes "b"), codes "p3", at 30) ∷ [])
      (record nothing_stored { proposals = frozen ∷ [] }) (codes "p1") frozen frozen-IsKeyed refl
      refl ((refl, refl), tt)
