-- ===== src/Invites/Tests.antt =====
-- A proposal that the master approves, and the theorems at inputs that meet their hypotheses.
use instant_grant_core.Prelude.{
  Bool, true, false, Option, none, some, List, [], ◌∷◌, codes, text_eq, trim, trim_start, trim_end,
  keep_before, is_space, ◌≡◌, ◌⊎◌, refl, if◌then◌else◌,
}
use instant_grant_core.Js.{string, object, array, nil, cons, field, end}
use instant_grant_core.Limits.Issue.{
  enforce_admin_invite_issue_limit, consume_security_issue_limit, count_issue,
}
use instant_grant_core.Limits.Env.{parse_optional_bounded_int}
use instant_grant_core.Invites.Proposal.{
  Role, Source, AdminInviteProposal, pending, parse_admin_invite_approval, sort_invite_approvals,
  parse_admin_invite_proposal_record,
}
use instant_grant_core.Invites.Operators.{
  OperatorIdentity, has_admin_invite_issuance_authority, to_invite_consensus_operator,
  list_invite_consensus_operators,
}
use instant_grant_core.Invites.Decide.{
  InviteRows, InviteAnswer, active, Around, add_approval, approve_admin_invite_proposal,
  reject_admin_invite_proposal,
}
use instant_grant_core.Invites.Settled.{
  Decision, approving, rejecting, decide_on, decide_all, MayIssue,
  approve_admin_invite_proposal-MayIssue, decide_all-settled,
}

invites : Unit {0}
unfolding parse_admin_invite_approval sort_invite_approvals parse_admin_invite_proposal_record
    has_admin_invite_issuance_authority to_invite_consensus_operator list_invite_consensus_operators
    add_approval approve_admin_invite_proposal reject_admin_invite_proposal
    enforce_admin_invite_issue_limit parse_optional_bounded_int consume_security_issue_limit
    count_issue trim trim_start trim_end keep_before is_space
invites = tt

abbrev the_master : OperatorIdentity
the_master = record {
  role = Role.master;
  source = Source.master;
  admin_id = codes "master";
  name = [];
  actor_id = codes "master";
}

abbrev invited : OperatorIdentity
invited = record the_master {
  source = Source.invite;
  role = Role.admin;
  admin_id = codes "a1";
  actor_id = codes "admin:a1";
}

abbrev around : Around
around = record {
  password_configured = true;
  invites_per_day = none;
  now_ms = 0;
  at = codes "2026-02-01";
  code = codes "c0de";
  admin_id = codes "a2";
}

-- The proposal as it is read from a stored row.
abbrev read_proposal : Option AdminInviteProposal
read_proposal = parse_admin_invite_proposal_record (codes "p1") (
    object (
      field (codes "name") (string (codes " New admin ")) (
        field (codes "requestedBy")
          (object (
            field (codes "actorId") (string (codes "admin:a1"))
              (field (codes "adminId") (string (codes "a1")) end)))
          (field (codes "approvals") (array (cons (object end) nil)) end))))

abbrev proposal_or : AdminInviteProposal → Option AdminInviteProposal → AdminInviteProposal
proposal_or p none = p
proposal_or p (some q) = q

abbrev proposal : AdminInviteProposal
proposal = record {
  proposal_id = codes "p1";
  name = codes "New admin";
  created_at = codes "1970-01-01T00:00:00.000Z";
  requested_by = record {
    actor_id = codes "admin:a1";
    admin_id = codes "a1";
    role = Role.admin;
    source = Source.invite;
    name = codes "Unknown Admin";
  };
  approvals = [];
  status = pending;
  issued_code = none;
  issued_admin_id = none;
  issued_at = none;
  issued_by_actor_id = none;
  cancelled_at = none;
  cancelled_by_actor_id = none;
  cancelled_reason = none;
}

read_proposal_test : read_proposal ≡ some proposal
unfolding invites
read_proposal_test = refl

abbrev rows : InviteRows
rows = record {
  proposals = λ k. if text_eq k (codes "p1") then some proposal else none;
  admin_codes = λ k. none;
  issue_limit = none;
}

abbrev is_active : InviteAnswer → Bool
is_active (active code admin_id name created_at consensus) = true
is_active _ = false

master_issues_test : is_active (decide_on (approving around the_master (codes "p1")) rows).1 ≡ true
unfolding invites
master_issues_test = refl

invited_is_refused_test :
    is_active (decide_on (approving around invited (codes "p1")) rows).1 ≡ false
unfolding invites
invited_is_refused_test = refl

abbrev after : InviteRows
after = (decide_on (approving around the_master (codes "p1")) rows).0

abbrev issued_proposal : AdminInviteProposal
issued_proposal = proposal_or proposal (after.proposals (codes "p1"))

abbrev later : List Decision
later =
    approving around the_master (codes "p1")
    ∷ rejecting the_master (codes "p1") (codes "changed my mind") (codes "2026-02-02")
    ∷ approving around invited (codes "p2")
    ∷ []

decide_all-settled_example : (decide_all later after).proposals (codes "p1") ≡ some issued_proposal
unfolding invites
decide_all-settled_example = decide_all-settled later after (codes "p1") issued_proposal refl refl

approve_admin_invite_proposal-MayIssue_example :
    ((approve_admin_invite_proposal around the_master proposal rows).0.admin_codes
      ≡ rows.admin_codes)
    ⊎ ((has_admin_invite_issuance_authority the_master ≡ true)
        × MayIssue around
            (list_invite_consensus_operators around.password_configured)
            the_master
            proposal
            proposal.status
            rows)
approve_admin_invite_proposal-MayIssue_example =
    approve_admin_invite_proposal-MayIssue around the_master proposal rows
