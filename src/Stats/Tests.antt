-- ===== src/Stats/Tests.antt =====
-- The property of the statistics at a concrete registry.
use codex_nos.Base.{[], ◌∷◌, CString, arith}
use codex_nos.Stats.{counter, register_item}
use codex_nos.Stats.Register.{IsStats, RegisterSpec, register_item_correct}

abbrev ipc : CString
ipc = 105 ∷ 112 ∷ 99 ∷ []

abbrev tx : CString
tx = 116 ∷ 120 ∷ []

nil-IsStats : IsStats []
nil-IsStats = record { fits = omega arith; unique = λ i j p q a b. absurd (omega arith) }

register_item_correct_example :
    RegisterSpec [] ipc tx (counter 9) (register_item [] ipc tx (counter 9))
    × IsStats (register_item [] ipc tx (counter 9)).1
register_item_correct_example =
    register_item_correct [] nil-IsStats ipc tx (counter 9) (omega arith) (omega arith)
