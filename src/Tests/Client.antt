-- ===== src/Tests/Client.antt =====
-- The liteserver client at a concrete run of events.
use tonlibjson.Prelude.{ℕ, refl, Option, none, some, List, [], ◌∷◌, ◌++◌, inr}
use tonlibjson.Adnl.Packet.{Packet, is_pong_packet, starts_with}
use tonlibjson.Client.Actor.{
  AdnlMessageQuery, AdnlMessageAnswer, Messages, ClientActor, query, tick, received, run,
}
use tonlibjson.Client.Answers.{Answers, query-Answers}
use tonlibjson.Tests.Parameters.{toy_sha}

-- The id of an answer is its first byte, and the rest is what it answers.
abbrev toy_answer : List ℕ → Option AdnlMessageAnswer
toy_answer [] = none
toy_answer (b ∷ bs) = some (record { query_id = b ∷ []; answer = bs })

abbrev toy_messages : Messages
toy_messages = record { write_query = λ q. q.query_id ++ q.query; read_answer = toy_answer }

abbrev idle : ClientActor ℕ
idle = record { responses = []; answered = []; sent = [] }

abbrev toy_query : ℕ → AdnlMessageQuery
toy_query n = record { query_id = n ∷ []; query = 5 ∷ [] }

abbrev toy_packet : ℕ → Packet
toy_packet n = record { nonce = []; checksum = []; payload = n ∷ 7 ∷ [] }

query-Answers_example : Answers toy_sha toy_messages (1 ∷ []) 10 (7 ∷ []) (
    run toy_sha toy_messages idle (
      query (toy_query 1) 10 []
      ∷ query (toy_query 2) 20 []
      ∷ received (toy_packet 2)
      ∷ tick [] 3
      ∷ received (toy_packet 1)
      ∷ []))
unfolding is_pong_packet starts_with
query-Answers_example =
    query-Answers toy_sha toy_messages idle (toy_query 1) 10 []
      (query (toy_query 2) 20 [] ∷ received (toy_packet 2) ∷ tick [] 3 ∷ []) (toy_packet 1)
      (record { query_id = 1 ∷ []; answer = 7 ∷ [] }) (refl, (inr refl, (refl, tt))) refl refl refl
