-- ===== src/Tests/Udp.antt =====
-- The properties of UDP at concrete inputs.
use onyx_kernel.Prelude.{
  ℕ, ◌≡◌, refl, some, none, List, [], ◌∷◌, ◌++◌, replicate, length-replicate, arith,
}
use onyx_kernel.Net.Udp.{
  queue_bytes, empty_peer, empty_queue, bound_socket, udp_segment, udp_sum, Socks, handle_udp,
}
use onyx_kernel.Net.Udp.Queue.{IsQueue}
use onyx_kernel.Net.Udp.Refine.{Op, put, get, run, mail_run, run_lem}
use onyx_kernel.Net.Udp.First.{Delivered}
use onyx_kernel.Net.Udp.Deliver.{handle_udp-udp_segment}

empty_queue-IsQueue : IsQueue empty_queue
empty_queue-IsQueue = record {
  cells = length-replicate {A = ℕ} queue_bytes 0;
  length_slots = refl;
  peer_slots = refl;
  head_lt = omega arith;
  first_lt = omega arith;
  messages_le = omega arith;
  used_le = omega arith;
  whole = refl;
}

abbrev calls : List Op
calls = put (1 ∷ 2 ∷ 3 ∷ []) empty_peer ∷ put [] empty_peer ∷ get 2 ∷ get 2 ∷ get 2 ∷ []

run_lem_example : run empty_queue calls ≡ mail_run [] calls
run_lem_example = run_lem empty_queue calls empty_queue-IsQueue

abbrev ip_header : List ℕ
ip_header =
    69 ∷ 0 ∷ 0 ∷ 30 ∷ 0 ∷ 0 ∷ 0 ∷ 0 ∷ 64 ∷ 17 ∷ 0 ∷ 0 ∷ 10 ∷ 0 ∷ 2 ∷ 15 ∷ 10 ∷ 0 ∷ 2 ∷ 2 ∷ []

abbrev sender : List ℕ
sender = 10 ∷ 0 ∷ 2 ∷ 15 ∷ []

abbrev receiver : List ℕ
receiver = 10 ∷ 0 ∷ 2 ∷ 2 ∷ []

abbrev one_socket : Socks
one_socket = none ∷ some (bound_socket 53 0) ∷ []

handle_udp-udp_segment_example : Delivered 0 sender 50000 53 (7 ∷ 8 ∷ []) one_socket (
    handle_udp 0
      (replicate 14 0
        ++ (ip_header
            ++ udp_segment 50000 53 (udp_sum sender receiver 50000 53 (7 ∷ 8 ∷ [])) (7 ∷ 8 ∷ [])))
      14
      one_socket)
handle_udp-udp_segment_example =
    handle_udp-udp_segment 0 (replicate 14 0) ip_header sender receiver 50000 53 (7 ∷ 8 ∷ [])
      one_socket refl (omega arith) refl refl (omega arith) (omega arith) (omega arith)
      (omega arith) (omega arith) (omega arith) (empty_queue-IsQueue, tt)
