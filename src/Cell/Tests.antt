-- ===== src/Cell/Tests.antt =====
-- Runs of the cell configuration, and its theorems at concrete inputs.
use dpb_s_mgmt.Base.{ℕ, zero, suc, ◌≡◌, refl, Bool, true, false, none, some, List, [], ◌∷◌, arith}
use dpb_s_mgmt.Cpri.{Header}
use dpb_s_mgmt.Cell.{
  Antenna, State, empty_manager, update_tx_control, notify_bbu_link, apply_tx_control, any_freq,
  result_success, any_sent, find_first, next,
}
use dpb_s_mgmt.Cell.Apply.{
  FreqConfig, CellConfig, wait_cycle, wait_change, apply_cell, establish_cell, save_freq, find_slot,
}
use dpb_s_mgmt.Cell.Frequency.{
  apply_freq, establish_freq, establish_checked, send_and_confirm, confirm, find_again, accept,
}
use dpb_s_mgmt.Cell.Jobs.{Job, run_job}
use dpb_s_mgmt.Cell.Consistent.{IsConsistent, empty-IsConsistent}
use dpb_s_mgmt.Cell.Upkeep.{Keeps, apply_cell-IsConsistent}
use dpb_s_mgmt.Cell.Invariant.{run_job-IsConsistent}
use dpb_s_mgmt.Cell.Transmit.{Obeys, Event, link, request, happens, history, history-silent}
use dpb_s_mgmt.Cell.Established.{IsEstablished, WasCommanded, apply_freq-IsEstablished}
use dpb_s_mgmt.Cell.Answer.{answer_ies-enough, run_job-answers}
use dpb_s_mgmt.Cell.Request.{create_response, answer_ies, answer_ie, first_ie, parse_cell_ie}

abbrev is_one : ℕ → Bool
is_one zero = false
is_one (suc n) = true

-- An antenna in business mode that does what it is told: its state is whether it transmits.
abbrev toy : Antenna Bool
toy = record {
  send_tx_control = λ n w. (true, is_one n);
  send_freq_band = λ dl ul bw w. (true, w);
  get_mode = λ w. (some 0, w);
}

abbrev at_rest : State Bool
at_rest = record { manager = empty_manager; bbu_link_ok = false; tx_on = false; antenna = false }

-- The link is lost between the look at it and the command: the antenna transmits without a link.
abbrev sending : State Bool
sending = record at_rest {
  manager = record empty_manager {
    cells =
        record { active = true; local_cell_id = 1; cell_power = 0; cell_type = 3; freq_count = 1 }
        ∷ [];
    freqs =
        (record {
          active = true;
          sent_to_antenna = true;
          local_cell_id = 1;
          beam_id = 0;
          dl_center_freq = 0;
          ul_center_freq = 0;
          beam_bandwidth = 0;
          ul_dl_config = 0;
          special_subframe = 0;
        }
          ∷ [])
        ∷ [];
  };
  bbu_link_ok = true;
}

late_start :
    let s = update_tx_control toy (notify_bbu_link toy false) sending in
    (s.bbu_link_ok ≡ false) × (s.antenna ≡ true)
unfolding update_tx_control notify_bbu_link apply_tx_control any_freq any_sent
late_start = (refl, refl)

-- A cell and a frequency in it.
abbrev cell_ie : List ℕ
cell_ie = 0xE2 ∷ 5 ∷ 14 ∷ 0 ∷ 0 ∷ 1 ∷ 0 ∷ 0 ∷ 0 ∷ 10 ∷ 0 ∷ 0 ∷ 1 ∷ 3 ∷ []

abbrev a_job : Job
a_job = record { paau_id = 0; bbu_id = 0; port_num = 0; serial_num = 5; payload = cell_ie }

abbrev a_header : Header
a_header = record {
  msg_id = 195;
  msg_length = 29;
  paau_id = 0;
  bbu_id = 0;
  port_num = 0;
  serial_num = 5;
}

abbrev a_cell : CellConfig
a_cell = record {
  cell_cfg_flag = 0;
  local_cell_id = 1;
  cell_power = 10;
  freq_count = 1;
  cell_type = 3;
}

abbrev a_freq : FreqConfig
a_freq = record {
  freq_cfg_flag = 0;
  local_cell_id = 1;
  beam_id = 2;
  dl_center_freq = 2000000;
  special_subframe = 0;
  sys_subframe_num = 0;
  beam_bandwidth = 20;
  ul_dl_config = 0;
  ul_center_freq = 1900000;
}

abbrev alone : State Bool → State Bool
alone s = s

alone-Keeps : Keeps alone
alone-Keeps s v = v

run_job-IsConsistent_example : IsConsistent (run_job toy alone alone a_job at_rest).0.manager
run_job-IsConsistent_example =
    run_job-IsConsistent toy alone alone alone-Keeps alone-Keeps a_job at_rest empty-IsConsistent

toy-Obeys : Obeys toy (λ w. w)
toy-Obeys = record {
  stop = λ w. refl;
  stopped = λ w. refl;
  lost = λ w e. cc;
  band = λ w dl ul bw. refl;
  mode = λ w. refl;
}

abbrev events : List Event
events = link true ∷ request a_job (false ∷ true ∷ []) ∷ link false ∷ []

link_down : (history toy events at_rest).bbu_link_ok ≡ false
unfolding history happens notify_bbu_link run_job create_response answer_ies first_ie answer_ie
    parse_cell_ie apply_cell
link_down = refl

history-silent_example : (history toy events at_rest).antenna ≡ false
history-silent_example = history-silent toy (λ w. w) toy-Obeys events at_rest refl refl link_down

abbrev with_cell : State Bool
with_cell = (apply_cell toy alone a_cell at_rest).1

with_cell-IsConsistent : IsConsistent with_cell.manager
with_cell-IsConsistent =
    apply_cell-IsConsistent toy alone alone alone-Keeps alone-Keeps a_cell at_rest
      empty-IsConsistent

is_success : (apply_freq toy alone alone a_freq with_cell).result ≡ result_success
unfolding apply_freq establish_freq establish_checked send_and_confirm confirm find_again accept
    apply_cell establish_cell save_freq find_slot find_first next wait_cycle wait_change
is_success = refl

apply_freq-IsEstablished_example :
    IsEstablished a_freq (apply_freq toy alone alone a_freq with_cell).state.manager
    × WasCommanded toy a_freq with_cell
apply_freq-IsEstablished_example =
    apply_freq-IsEstablished toy alone alone alone-Keeps (λ s. refl) a_freq with_cell
      with_cell-IsConsistent refl is_success

run_job-answers_example :
    (bytes : List ℕ) × ((run_job toy alone alone a_job at_rest).1 ≡ some bytes)
run_job-answers_example = run_job-answers toy alone alone a_job at_rest (omega arith)

answer_ies-enough_example :
    answer_ies toy alone alone 99 cell_ie at_rest none
    ≡ answer_ies toy alone alone 14 cell_ie at_rest none
answer_ies-enough_example =
    answer_ies-enough toy alone alone 99 14 cell_ie at_rest none (omega arith) (omega arith)
