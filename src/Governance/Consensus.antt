-- ===== src/Governance/Consensus.antt =====
-- Consensus: whoever an executed proposal requires has acted.
use instant_grant_core.Prelude.{
  All, trim, ◌≡◌, Bool, true, ◌||◌, none, some, List, [], ◌∷◌, Text, text_eq, any, arith,
}
use instant_grant_core.Governance.Proposal.{is_executed, Proposal, includes, ProposalTable}
use instant_grant_core.Governance.Process.{
  Clock, GovernanceRequest, GovernanceState, process_governance_action,
}
use instant_grant_core.Governance.Rows.{IsRow-approver}
use instant_grant_core.Governance.Honest.{IsHonest, process-IsHonest}

-- Whether one of the requests is by an actor.
abbrev pub has_acted : Text → List (GovernanceRequest × Text × Clock) → Bool
has_acted actor requests = any (λ r. text_eq r.0.actor.actor_id actor) requests

module _ {ℓ κ} (table : ProposalTable) {W : Type ℓ} {R : Type κ} (revoked : W → List Text)
    (execute : GovernanceRequest → W → W × R) where
  open table use {Table, get, put, list, get-put, get-own, get-list}

  -- Requests one after another, each with a fresh id and the clock's reading.
  abbrev pub process_all :
      List (GovernanceRequest × Text × Clock)
      → GovernanceState table revoked execute
      → GovernanceState table revoked execute
  process_all [] s = s
  process_all ((q, id, now) ∷ rest) s =
      process_all rest (process_governance_action table revoked execute q id now s).0

  abbrev pub actors_of : List (GovernanceRequest × Text × Clock) → List Text → List Text
  actors_of [] actors = actors
  actors_of ((q, id, now) ∷ rest) actors = actors_of rest (q.actor.actor_id ∷ actors)

  process_all-IsHonest :
      (requests : List (GovernanceRequest × Text × Clock)) (actors : List Text)
      (s : GovernanceState table revoked execute)
      → All (λ r. trim r.0.actor.actor_id ≡ r.0.actor.actor_id) requests
      → IsHonest table revoked execute actors s.proposals
      → IsHonest table revoked execute
          (actors_of requests actors)
          (process_all requests s).proposals
  process_all-IsHonest [] actors s clean h = h
  process_all-IsHonest ((q, id, now) ∷ rest) actors s clean h =
      process_all-IsHonest rest (q.actor.actor_id ∷ actors) _ clean.1
        (process-IsHonest table revoked execute q actors id now s clean.0 h)

  includes-actors_of :
      (actor : Text) (requests : List (GovernanceRequest × Text × Clock)) (actors : List Text)
      → includes actor (actors_of requests actors) ≡ true
      → (includes actor actors || has_acted actor requests) ≡ true
  includes-actors_of actor [] actors h = ground arith
  includes-actors_of actor (r ∷ rest) actors h =
      let later = includes-actors_of actor rest (r.0.actor.actor_id ∷ actors) h in ground arith

  -- From a table without rows, after any requests in any order by actors whose ids have no white
  -- space at their ends: whoever a stored, executed proposal requires is the actor of one of these
  -- requests.
  pub process_all-consensus :
      (requests : List (GovernanceRequest × Text × Clock))
      (s : GovernanceState table revoked execute) (id : Text) (p : Proposal) (approver : Text)
      → ((id : Text) → get s.proposals id ≡ none)
      → All (λ r. trim r.0.actor.actor_id ≡ r.0.actor.actor_id) requests
      → get (process_all requests s).proposals id ≡ some p
      → is_executed p.status ≡ true
      → includes approver p.required_approver_ids ≡ true
      → has_acted approver requests ≡ true
  process_all-consensus requests s id p approver bare clean found done asked =
      let honest = process_all-IsHonest requests [] s clean (λ i r stored. let b = bare i in cc) in
      let acted =
        IsRow-approver (actors_of requests []) p approver (honest id p found) done asked in
      let either = includes-actors_of approver requests [] acted in ground arith
