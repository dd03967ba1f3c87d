-- ===== src/Tests/HistoryTests.antt =====
-- discovery/looplist.go: runs.
use xdiscovery.Prelude.{◌-ℤ◌, ◌+ℤ◌, ◌≡◌, refl, [], ◌∷◌, arith, pos}
use xdiscovery.Options.{DegradeOpts}
use xdiscovery.Float.{Ratio}
use xdiscovery.LoopList.{LoopList, del_timeout, push, push_all}
use xdiscovery.LoopList.Window.{IsSpaced}
use xdiscovery.LoopList.Spacing.{push-IsSpaced, push_all-shared}
use xdiscovery.Tests.{options, at, node_a, node_b}

-- Ten nanoseconds of history, a pause of three between two entries.
abbrev short : DegradeOpts Ratio
short = record options { threshold_contrast_interval = pos 10; endpoints_save_interval = pos 3 }

abbrev history : LoopList
history = at (pos 1) [] ∷ at (pos 5) (node_a ∷ []) ∷ at (pos 9) (node_b ∷ []) ∷ at (pos 14) [] ∷ []

pruned : del_timeout (pos 20) short history ≡ at (pos 9) (node_b ∷ []) ∷ at (pos 14) [] ∷ []
unfolding del_timeout
pruned = refl

push-IsSpaced_example : IsSpaced 3 (push (at (pos 15) []) short history)
unfolding ◌+ℤ◌
push-IsSpaced_example =
    push-IsSpaced short 3 (at (pos 15) []) history refl (omega arith) (omega arith) (omega arith)

-- Two lists a day apart, at clock readings in seconds.
push_all-shared_example :
    push_all
      (at (pos 1600086400) (node_b ∷ []) ∷ at (pos 1600172800) [] ∷ [])
      options
      (at (pos 1600000000) (node_a ∷ []) ∷ [])
    ≡ at (pos 1600000000) [] ∷ []
unfolding ◌-ℤ◌
push_all-shared_example =
    push_all-shared options 60000000000 (at (pos 1600000000) (node_a ∷ []))
      (at (pos 1600086400) (node_b ∷ []) ∷ at (pos 1600172800) [] ∷ []) refl (omega arith)
      ((omega arith, refl), ((omega arith, refl), tt))
