-- ===== src/Tests/Items.antt =====
-- The theorems on the linked list at concrete inputs.
use maestro_core.Base.{none, some, [], ◌∷◌, ◌≡◌, arith, ◌==◌, if◌then◌else◌}
use maestro_core.LinkedList.Chain.{Cells, Holds, item_add-Holds}
use maestro_core.LinkedList.Remove.{Removed, item_remove-Holds, items_dispose-Holds}
use maestro_core.LinkedList.{LinkedList, Items, done, item_add, items_dispose}

abbrev cells : Cells
cells = (10, 1) ∷ (20, 2) ∷ (30, 3) ∷ []

abbrev items : Items
items a =
    if a == 10
    then some (record { prev = none; next = some 20; item = 1 })
    else if a == 20
    then some (record { prev = some 10; next = some 30; item = 2 })
    else if a == 30
    then some (record { prev = some 20; next = none; item = 3 })
    else none

abbrev three : LinkedList
three = record { head = some 10; tail = some 30; count = 3 }

three-Holds : Holds three items cells
three-Holds = ground arith

item_add-Holds_run :
    (l : LinkedList) × (h : Items) × (item_add (some 40) 4 three items ≡ done l h)
    × Holds l h ((10, 1) ∷ (20, 2) ∷ (30, 3) ∷ (40, 4) ∷ [])
item_add-Holds_run = item_add-Holds 40 4 three items cells three-Holds (ground arith)

item_remove-Holds_example : Removed 20 three items ((10, 1) ∷ (30, 3) ∷ [])
item_remove-Holds_example =
    item_remove-Holds 20 2 ((10, 1) ∷ []) ((30, 3) ∷ []) three items three-Holds

items_dispose-Holds_run :
    (l : LinkedList) × (h : Items) × (items_dispose 4 three items ≡ some (done l h)) × Holds l h []
items_dispose-Holds_run = items_dispose-Holds 4 cells three items three-Holds (omega arith)
