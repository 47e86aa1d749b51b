-- ===== src/Approval/Examples.antt =====
-- One visitor who waits, is approved, and whose address is blocked afterwards.
use network_self_md.Prelude.{◌≡◌, refl, true, false, ◌⊎◌, List, [], ◌∷◌, codes, text_key, list_eq}
use network_self_md.Approval.{
  ApprovalQueueConfig, ApprovalQueue, new, add_visitor, approve, is_approved,
}
use network_self_md.Approval.Calls.{Call, adds, approves, blocks, step, run}
use network_self_md.Approval.Invariant.{IsOrderly, run-new-IsOrderly}
use network_self_md.Approval.Decisions.{MayApprove, step-approves}

abbrev config : ApprovalQueueConfig
config = record { max_pending = 2; auto_approve = false; session_timeout = 60 }

abbrev calls : List Call
calls =
    adds (codes "v") (codes "hi") (codes "ip") 1 10 (codes "t")
    ∷ approves (codes "v") (codes "t")
    ∷ blocks (codes "ip")
    ∷ []

run-new-IsOrderly_example : IsOrderly (run (new config) calls)
run-new-IsOrderly_example = run-new-IsOrderly config calls

abbrev waiting : ApprovalQueue
waiting = step (new config) (adds (codes "v") (codes "hi") (codes "ip") 1 10 (codes "t"))

approved_test : is_approved (step waiting (approves (codes "v") (codes "t"))) (codes "v") ≡ true
unfolding is_approved step new add_visitor approve list_eq
approved_test = refl

step-approves_example :
    (is_approved waiting (codes "v") ≡ true)
    ⊎ MayApprove waiting (codes "v") (approves (codes "v") (codes "t"))
step-approves_example =
    step-approves waiting (codes "v") (approves (codes "v") (codes "t")) approved_test
