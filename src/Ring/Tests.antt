-- ===== src/Ring/Tests.antt =====
-- Runs of the ring of rBuf.c on small inputs.
use dpb_s_mgmt.Base.{◌≡◌, refl, List, [], ◌∷◌, arith, copy_in}
use dpb_s_mgmt.Ring.{RBuf, put, put_once, put_unwrapped, get, remove, n_bytes}
use dpb_s_mgmt.Ring.Contents.{IsValid, contents}
use dpb_s_mgmt.Ring.Put.{Appended, put-Appended}
use dpb_s_mgmt.Ring.Refine.{
  Op, puts, gets, removes, counts, number, bytes, run, queue_run, step, run_refines,
}

-- 8, then 9, with a place free before the end of the storage and one at its start
abbrev middle : RBuf
middle = record { buf = 7 ∷ 8 ∷ 9 ∷ 0 ∷ []; len = 4; in_index = 3; out_index = 1 }

middle-IsValid : IsValid middle
middle-IsValid = omega arith

contents-middle : contents middle ≡ 8 ∷ 9 ∷ []
contents-middle = refl

put_stops_when_full :
    put middle (1 ∷ 2 ∷ 3 ∷ [])
    ≡ (record { buf = 7 ∷ 8 ∷ 9 ∷ 1 ∷ []; len = 4; in_index = 0; out_index = 1 }, 1)
unfolding put put_unwrapped copy_in
put_stops_when_full = refl

put-Appended_example : Appended middle (1 ∷ 2 ∷ 3 ∷ []) (put middle (1 ∷ 2 ∷ 3 ∷ []))
put-Appended_example = put-Appended {r = middle} (1 ∷ 2 ∷ 3 ∷ []) middle-IsValid (omega arith)

abbrev script : List Op
script = puts (1 ∷ 2 ∷ []) ∷ removes 2 ∷ puts (3 ∷ 4 ∷ []) ∷ gets 9 ∷ counts ∷ []

run-middle :
    run middle script ≡ number 1 ∷ number 2 ∷ number 2 ∷ bytes (1 ∷ 3 ∷ 4 ∷ []) ∷ number 3 ∷ []
unfolding run step put put_once put_unwrapped get remove n_bytes copy_in
run-middle = refl

run_refines_example : run middle script ≡ queue_run 3 (8 ∷ 9 ∷ []) script
run_refines_example = run_refines script {r = middle} middle-IsValid (omega arith)
