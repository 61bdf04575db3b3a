-- ===== src/Store/Runs.antt =====
-- Concrete histories, and the theorem at one.
use ru_kt.Common.{ℕ, ◌≡◌, arith, List, [], ◌∷◌, ◌++◌, none}
use ru_kt.Tls.{Bytes}
use ru_kt.Store.{Column, get_label_history, put_history_batch}
use ru_kt.Store.Histories.{IsWide, AllWide, entries_for, get_label_history-put_history_batch}

abbrev empty : Column
empty k = none

abbrev alice : Bytes
alice = 97 ∷ []

abbrev bob : Bytes
bob = 98 ∷ []

-- Two versions of one label with another label's between them.
abbrev entries : List (Bytes × ℕ × ℕ)
entries = (alice, 0, 5) ∷ (bob, 0, 6) ∷ (alice, 1, 7) ∷ []

empty-IsWide : IsWide empty
unfolding IsWide get_label_history
empty-IsWide label = _

entries-AllWide : AllWide entries
unfolding AllWide
entries-AllWide =
    ((omega arith, omega arith), ((omega arith, omega arith), ((omega arith, omega arith), _)))

get_label_history-put_history_batch_example :
    get_label_history (put_history_batch empty entries) alice
    ≡ get_label_history empty alice ++ entries_for alice entries
get_label_history-put_history_batch_example =
    get_label_history-put_history_batch empty entries alice empty-IsWide entries-AllWide
