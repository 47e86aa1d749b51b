-- ===== src/InboundQueue/Examples.antt =====
-- A queue of room for two messages, and its readers.
use network_self_md.Prelude.{◌≡◌, refl, ◌∙◌, List, [], ◌∷◌, ◌++◌, some, arith}
use network_self_md.Policy.Examples.{hello, aside}
use network_self_md.InboundQueue.{new, push, drain, on}
use network_self_md.InboundQueue.Laws.{QueueCall, pushes, drains, run, run-fifo}

abbrev calls : List QueueCall
calls = pushes hello ∷ drains (some 1) ∷ pushes aside ∷ []

drain_test : (run (on (new (some 2)) 7) [] calls).1 ≡ hello ∷ []
unfolding run new on push drain
drain_test = refl

run-fifo_example :
    (run (new (some 2)) [] calls).1 ++ (run (new (some 2)) [] calls).0.buf ≡ hello ∷ aside ∷ []
run-fifo_example = run-fifo (new (some 2)) [] calls (unfold new in omega arith) ∙ unfold new in refl
