-- ===== src/MessageRing/Tests.antt =====
-- Runs of the ring of rng.c on small inputs.
use dpb_s_mgmt.Base.{◌≡◌, refl, true, List, [], ◌∷◌, arith, copy_in}
use dpb_s_mgmt.MessageRing.{
  Rng, added, write_done, get_n_msgs, is_ful, pingp_init, pingp_swap, fill, message_at_read,
}
use dpb_s_mgmt.MessageRing.Refine.{
  Op, writes, reads, counts, asks_full, message, number, flag, done, nothing, step, run, queue_run,
  IsValid, contents, run_queues,
}

-- Three slots of two bytes; the oldest message lies in the last one.
abbrev around : Rng
around = record {
  buf = 0 ∷ 0 ∷ 0 ∷ 0 ∷ 5 ∷ 6 ∷ [];
  msg_len = 2;
  max_msgs = 3;
  in_index = 0;
  out_index = 2;
}

around-IsValid : IsValid around
around-IsValid = (refl, omega arith, omega arith, omega arith, omega arith)

abbrev script : List Op
script = writes (7 ∷ 8 ∷ []) ∷ writes (9 ∷ 9 ∷ []) ∷ asks_full ∷ reads ∷ counts ∷ reads ∷ reads ∷ []

-- The second write finds the ring full.
second_write_dropped :
    run around script
    ≡ done
      ∷ done
      ∷ flag true
      ∷ message (5 ∷ 6 ∷ [])
      ∷ number 1
      ∷ message (7 ∷ 8 ∷ [])
      ∷ nothing
      ∷ []
unfolding run step write_done added get_n_msgs is_ful copy_in
second_write_dropped = refl

run_queues_example : run around script ≡ queue_run 2 (contents around) script
run_queues_example =
    run_queues around script around-IsValid (refl, (refl, (tt, (tt, (tt, (tt, (tt, tt)))))))

-- What is written to the pair of buffers is read behind the exchange.
swapped :
    message_at_read
      (pingp_swap (fill (3 ∷ 4 ∷ []) (pingp_init (record around { buf = 1 ∷ 2 ∷ 3 ∷ 4 ∷ [] }))))
    ≡ 3 ∷ 4 ∷ []
unfolding pingp_swap pingp_init copy_in
swapped = refl
