-- ===== src/Airplay/Ntp/Examples.antt =====
-- A query of the time at concrete values.
use openplay.Prelude.{some, [], List, ℕ, ◌∷◌, ◌≡◌, take, replicate, ◌++◌, arith}
use openplay.Airplay.Ntp.{ntp_packet_size, answer}
use openplay.Airplay.Ntp.Answer.{IsAnswerTo, answer-IsAnswerTo}

abbrev query : List ℕ
query = 35 ∷ replicate 39 0 ++ (1 ∷ 2 ∷ 3 ∷ 4 ∷ 5 ∷ 6 ∷ 7 ∷ 8 ∷ [])

answer-IsAnswerTo_sample :
    (response : List ℕ) × (answer query 77 ≡ some response)
    × IsAnswerTo (take ntp_packet_size query) response 77
answer-IsAnswerTo_sample = answer-IsAnswerTo query 77 (omega arith) (omega arith)
