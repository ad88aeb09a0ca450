-- ===== src/Proto/Tests.antt =====
-- What is written to a connection at concrete inputs.
use nnel.Base.{◌≡◌, some, List, [], ◌∷◌, text, Text, arith}
use nnel.Proto.Stream.{new_ws_conn}
use nnel.Proto.Stream.Laws.{concat, drain, write_all, drain-write_all}

abbrev three_writes : List Text
three_writes = text "hello" ∷ [] ∷ text "world" ∷ []

drain-write_all_example :
    drain 20 (λ i. 3) (new_ws_conn (write_all three_writes (new_ws_conn [])).outgoing)
    ≡ some (concat three_writes)
unfolding concat
drain-write_all_example = drain-write_all three_writes (λ i. 3) 20 (λ i. omega arith) (omega arith)
